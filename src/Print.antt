-- ===== src/Print.antt =====
-- Formatted printing: src/src/print.c. A format is the list of its characters, without the NUL at which
-- the pointer reads 0. The arguments are the words of the `va_list`, of 64 bits each; the characters
-- of a string argument are what `text_of` gives for its address, and lie outside of the buffer that
-- is written. The counts are below 2^31; the size of a buffer is any word of 64 bits, which the code
-- cuts to an `int`.
pub mod Output
pub mod Format
pub mod Meaning
pub mod Numbers
mod Tests
use spbau_os_hw.Prelude.{
  ℕ, zero, suc, ◌+◌, ◌-◌, ◌%◌, ◌^◌, Bool, true, false, not, ◌&&◌, ◌||◌, List, [], ◌∷◌, ◌++◌, Option,
  none, some, ltb, leb, ◌==◌, if◌then◌else◌, length, update,
}
use spbau_os_hw.Prelude.Partial.{◌>>=◌}
use spbau_os_hw.Text.Ctype.{isdigit}
use spbau_os_hw.Text.Memory.{Bytes, strlen}
use spbau_os_hw.Text.Digits.{ulltoa, lltoa}

-- `enum format_type`
pub data FormatType : Type 0 where
  fmt_invalid fmt_none fmt_str fmt_char fmt_int fmt_percent : FormatType

-- The bits of `enum fromat_spec`.
pub record Spec : Type 0 where
  pub sshort : Bool
  pub short : Bool
  pub long : Bool
  pub llong : Bool
  pub unsigned : Bool
  pub hex : Bool
  pub oct : Bool

abbrev pub no_spec : Spec
no_spec = record {
  sshort = false;
  short = false;
  long = false;
  llong = false;
  unsigned = false;
  hex = false;
  oct = false;
}

-- What `decode_format` returns, and where it leaves the pointer.
pub record Decoded : Type 0 where
  pub type : FormatType
  pub spec : Spec
  pub rest : List ℕ

-- `*fmt`, and `++fmt`; the code steps over the NUL only where it then stops.
abbrev pub char_at : List ℕ → ℕ
char_at [] = 0
char_at (c ∷ cs) = c

abbrev pub advance : List ℕ → List ℕ
advance [] = []
advance (c ∷ cs) = cs

abbrev pub skip_flag : List ℕ → List ℕ
skip_flag cs =
    let c = char_at cs in
    if c == 45 || (c == 43) || (c == 32) || (c == 35) || (c == 48) then advance cs else cs

unfoldable pub skip_digits : List ℕ → List ℕ
skip_digits [] = []
skip_digits (c ∷ cs) = let rest = skip_digits cs in if isdigit c then rest else c ∷ cs

abbrev pub skip_precision : List ℕ → List ℕ
skip_precision cs = if char_at cs == 46 then skip_digits (advance cs) else cs

-- The length modifiers.
unfoldable pub decode_length : List ℕ → Spec × List ℕ
decode_length cs =
    let next = advance cs in
    if char_at cs == 108
    then (if char_at next == 108
        then (record no_spec { llong = true }, advance next)
        else (record no_spec { long = true }, next))
    else if char_at cs == 104
    then (if char_at next == 104
        then (record no_spec { sshort = true }, advance next)
        else (record no_spec { short = true }, next))
    else (no_spec, cs)

-- The last switch, for the character `c`; its cases fall through.
unfoldable pub decode_conversion : (c : ℕ) → Spec → FormatType × Spec
decode_conversion c spec =
    let long : Spec = if c == 112 then record spec { long = true } else spec in
    let based : Spec =
      if c == 111 then record long { oct = true } else record long { hex = true } in
    if c == 112 || (c == 120) || (c == 88) || (c == 111)
    then (fmt_int, record based { unsigned = true })
    else if c == 117
    then (fmt_int, record spec { unsigned = true })
    else if c == 100 || (c == 105)
    then (fmt_int, spec)
    else if c == 115
    then (fmt_str, spec)
    else if c == 99
    then (fmt_char, spec)
    else if c == 37
    then (fmt_percent, spec)
    else (fmt_invalid, spec)

-- From behind a `%` on.
unfoldable pub decode_directive : List ℕ → Decoded
decode_directive cs =
    let l = decode_length (skip_precision (skip_digits (skip_flag cs))) in
    let d = decode_conversion (char_at l.1) l.0 in
    record { type = d.0; spec = d.1; rest = advance l.1 }

-- The loop, with the type that it has found so far.
abbrev pub is_valid : FormatType → Bool
is_valid fmt_invalid = false
is_valid _ = true

unfoldable pub decode_loop : FormatType → List ℕ → Decoded
decode_loop type [] = record { type = type; spec = no_spec; rest = [] }
decode_loop type (c ∷ cs) =
    let text = decode_loop fmt_none cs in
    let here : Decoded = record { type = type; spec = no_spec; rest = c ∷ cs } in
    if c == 37 && is_valid type then here else if c == 37 then decode_directive cs else text

unfoldable pub decode_format : List ℕ → Decoded
decode_format cs = decode_loop fmt_invalid cs

-- The characters of a string in memory.
abbrev pub read_text : (count ptr : ℕ) → Bytes → List ℕ
read_text zero ptr m = []
read_text (suc n) ptr m = m ptr ∷ read_text n (suc ptr) m

abbrev pub base_of : Spec → ℕ
base_of spec = if spec.hex then 16 else if spec.oct then 8 else 10

-- The value that `va_arg` takes from a word, by its type, as a word of 64 bits.
abbrev pub value_of : Spec → ℕ → ℕ
value_of spec w =
    let int = w % 2 ^ 32 in
    if spec.long || spec.llong
    then w
    else if spec.unsigned
    then int
    else if leb (2 ^ 31) int
    then int + (2 ^ 64 - 2 ^ 32)
    else int

-- What `print_number` leaves in its buffer of 64 bytes, here at 0.
unfoldable pub number_text : Spec → ℕ → Option (List ℕ)
number_text spec w =
    let v = value_of spec w in
    let b = base_of spec in
    let blank : Bytes = λ a. 0 in
    (if spec.unsigned then ulltoa v 0 b blank else lltoa v 0 b blank) >>= λ m.
    strlen 64 0 m >>= λ n. some (read_text n 0 m)

-- How a call ends: the count of the characters, a negative number, or an argument that is missing,
-- which is undefined.
pub data PrintResult : Type 0 where
  count : ℕ → PrintResult
  failed : PrintResult
  undefined : PrintResult

-- The text that a directive prints, and the arguments left. `start` is where its format began.
pub data Piece : Type 0 where
  text : List ℕ → List ℕ → Piece
  invalid : Piece
  no_arg : Piece

abbrev pub piece_of : List ℕ → Option (List ℕ) → Piece
piece_of args none = no_arg
piece_of args (some t) = text t args

-- The first characters of a list, or all.
abbrev pub take {ℓ} : {A : Type ℓ} → ℕ → List A → List A
take zero xs = []
take (suc n) [] = []
take (suc n) (x ∷ xs) = x ∷ take n xs

-- `print(ctx, start, fmt - start)` is of the first characters of `start`.
unfoldable pub piece : (text_of : ℕ → List ℕ) → (start : List ℕ) → Decoded → (args : List ℕ) → Piece
piece text_of start d args = elim d.type [
  | fmt_none ↦ text (take (length start - length d.rest) start) args
  | fmt_percent ↦ text (37 ∷ []) args
  | fmt_invalid ↦ invalid
  | fmt_str ↦ elim args [ [] ↦ no_arg | a ∷ rest ↦ text (text_of a) rest ]
  | fmt_char ↦ elim args [ [] ↦ no_arg | a ∷ rest ↦ text (a % 256 ∷ []) rest ]
  | fmt_int ↦ elim args [ [] ↦ no_arg | a ∷ rest ↦ piece_of rest (number_text d.spec a) ]
]

-- `out` is called with the characters and what was written before; it returns whether its result is
-- not negative.
abbrev pub Out {ℓ} : Type ℓ → Type ℓ
Out S = List ℕ → (written : ℕ) → S → Bool × S

-- A round of `__vprintf`, and `next` for the others.
abbrev pub print_piece {ℓ} :
    {S : Type ℓ} (out : Out S) (written : ℕ) (s : S) (next : List ℕ → ℕ → S → PrintResult × S)
    → Piece
    → PrintResult × S
print_piece out written s next invalid = (failed, s)
print_piece out written s next no_arg = (undefined, s)
print_piece out written s next (text t args) =
    let r = out t written s in if r.0 then next args (written + length t) r.1 else (failed, r.1)

-- The loop of `__vprintf`.
unfoldable pub print_loop {ℓ} :
    {S : Type ℓ} (text_of : ℕ → List ℕ) (out : Out S) (fuel : ℕ) (fmt args : List ℕ) (written : ℕ)
    → S
    → PrintResult × S
print_loop text_of out zero fmt args written s = (undefined, s)
print_loop text_of out (suc f) [] args written s = (count written, s)
print_loop text_of out (suc f) (c ∷ fmt) args written s =
    let d = decode_format (c ∷ fmt) in
    print_piece out written s (print_loop text_of out f d.rest) (piece text_of (c ∷ fmt) d args)

-- `__vprintf`; each round gets on in the format.
unfoldable pub vprintf_to {ℓ} :
    {S : Type ℓ} (text_of : ℕ → List ℕ) (out : Out S) (fmt args : List ℕ) → S → PrintResult × S
vprintf_to text_of out fmt args s = print_loop text_of out (suc (length fmt)) fmt args 0 s

-- `serial_out`, with the characters that were sent.
abbrev pub serial_out : Out (List ℕ)
serial_out t written sent = (true, sent ++ t)

unfoldable pub vprintf : (text_of : ℕ → List ℕ) (fmt args : List ℕ) → List ℕ → PrintResult × List ℕ
vprintf text_of fmt args sent = vprintf_to text_of serial_out fmt args sent

-- `memcpy` of some characters.
unfoldable pub write_text : (to : ℕ) → List ℕ → (size : ℕ) → Bytes → Bytes
write_text to cs zero m = m
write_text to [] (suc n) m = m
write_text to (c ∷ cs) (suc n) m = write_text (suc to) cs n (update m to c)

-- `str_out`
-- `size` is the word of an `int`: from 2^31 on it stands for a negative number, which any count
-- exceeds.
unfoldable pub str_out : (buf size : ℕ) → Out Bytes
str_out buf size t written m =
    let remain = if ltb (length t) (size - written) then length t else size - written in
    if leb (2 ^ 31) size || ltb size written
    then (true, m)
    else (true, write_text (buf + written) t remain m)

-- The end of `vsnprintf`: the NUL goes to `buf[rc - 1]` or `buf[size - 1]`, where `size` is the word
-- of an `int`. The word of 64 bits of a negative one has 32 more bits that are on.
unfoldable pub end_text : (buf size : ℕ) → PrintResult → Bytes → PrintResult × Bytes
end_text buf size (count rc) m =
    let last : ℕ =
      if leb (2 ^ 31) size
      then (buf + (size + (2 ^ 64 - 2 ^ 32)) - 1) % 2 ^ 64
      else buf + (if ltb rc size then rc else size) - 1 in
    (count rc, update m last 0)
end_text buf size failed m = (failed, m)
end_text buf size undefined m = (undefined, m)

unfoldable pub vsnprintf :
    (text_of : ℕ → List ℕ) (buf size : ℕ) (fmt args : List ℕ) → Bytes → PrintResult × Bytes
vsnprintf text_of buf size fmt args m =
    let int_size : ℕ = size % 2 ^ 32 in
    let r = vprintf_to text_of (str_out buf int_size) fmt args m in end_text buf int_size r.0 r.1
