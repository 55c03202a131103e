-- ===== src/Print/Output.antt =====
-- Where the characters go that src/src/print.c prints: to the serial port, or to a buffer.
use native.Mathlib.Decide.{ℕ_discrete, dec_lt}
use spbau_os_hw.Prelude.{
  ℕ, zero, suc, ◌+◌, ◌-◌, ◌%◌, ◌^◌, ◌≤◌, ◌<◌, ◌≡◌, ◌≢◌, refl, sym, ap, ◌∙◌, ◌⊎◌, inl, inr, arith,
  true, false, ◌&&◌, ◌||◌, List, [], ◌∷◌, ◌++◌, ltb, leb, ◌==◌, if◌then◌else◌, length,
  length-append, get_or, update, Bool-cases, ==_ne,
}
use spbau_os_hw.Text.Memory.{Bytes}
use spbau_os_hw.Print.{
  PrintResult, count, failed, undefined, Piece, text, invalid, no_arg, print_piece, decode_format,
  piece, print_loop, vprintf_to, serial_out, vprintf, write_text, str_out, end_text, vsnprintf,
}

abbrev pub min : ℕ → ℕ → ℕ
min a b = if ltb a b then a else b

-- The memory is `m`, but for the first `n` characters of a text that stand from `a` on.
abbrev pub Overlaid : (a n : ℕ) → List ℕ → (m k : Bytes) → Type 0
Overlaid a n t m k = (i : ℕ) → k i ≡ (if leb a i && ltb i (a + n) then get_or t (i - a) 0 else m i)

step :
    (to c : ℕ) (cs : List ℕ) (n : ℕ) (m : Bytes) (i : ℕ)
    → (if leb (suc to) i && ltb i (suc to + n) then get_or cs (i - suc to) 0 else update m to c i)
      ≡ (if leb to i && ltb i (to + suc n) then get_or (c ∷ cs) (i - to) 0 else m i)
step to c cs n m i = elim (ℕ_discrete i to) [
  | yes e ↦ let z : i - to ≡ zero = omega (arith, e) in rw z (ground (arith, e))
  | no d ↦ elim (dec_lt i to) [
    | yes l ↦ ground arith
    | no k ↦ let z : i - to ≡ suc (i - suc to) = omega arith in rw z (ground arith)
  ]
]

write_text-Overlaid :
    (to : ℕ) (cs : List ℕ) (n : ℕ) (m : Bytes)
    → n ≤ length cs
    → Overlaid to n cs m (write_text to cs n m)
unfolding write_text
write_text-Overlaid to cs zero m h i = ground arith
write_text-Overlaid to [] (suc n) m h i = absurd (omega (arith, h))
write_text-Overlaid to (c ∷ cs) (suc n) m h i =
    write_text-Overlaid (suc to) cs n (update m to c) (omega (arith, h)) i ∙ step to c cs n m i

get_or-append :
    (xs ys : List ℕ) (i : ℕ)
    → get_or (xs ++ ys) i 0
      ≡ (if ltb i (length xs) then get_or xs i 0 else get_or ys (i - length xs) 0)
get_or-append [] ys i = let z : i - 0 ≡ i = omega arith in rw z (ground arith)
get_or-append (x ∷ xs) ys zero = ground arith
get_or-append (x ∷ xs) ys (suc i) =
    let z : suc i - suc (length xs) ≡ i - length xs = omega arith in
    let l : ltb (suc i) (suc (length xs)) ≡ ltb i (length xs) = ground arith in
    rw (z, l) (get_or-append xs ys i)

-- The buffer holds what was printed of a text, as much as it has room for.
abbrev Buffered : (buf size : ℕ) → List ℕ → (m k : Bytes) → Type 0
Buffered buf size t m k = Overlaid buf (min (length t) size) t m k

-- A size below 2^31 is the `int` that the code cuts it to, and is not negative.
not_negative : (size : ℕ) → size < 2 ^ 31 → leb (2 ^ 31) size ≡ false
not_negative size h = ground (arith, h)

cut_to_int : (size : ℕ) → size < 2 ^ 31 → size % 2 ^ 32 ≡ size
cut_to_int size h = omega (arith, h)

str_out-Buffered :
    (buf size : ℕ) (t u : List ℕ) (m k : Bytes)
    → size < 2 ^ 31
    → Buffered buf size t m k
    → Buffered buf size (t ++ u) m (str_out buf size u (length t) k).1
unfolding str_out
str_out-Buffered buf size t u m k s h i = elim (Bool-cases (ltb size (length t))) [
  | inl c ↦
      rw (not_negative size s, c, get_or-append t u (i - buf), length-append t u)
        (h i ∙ ground arith)
  | inr c ↦
      rw (not_negative size s, c, get_or-append t u (i - buf), length-append t u)
        (write_text-Overlaid (buf + length t) u (min (length u) (size - length t)) k (ground arith)
            i
          ∙ rw (h i, let z : i - (buf + length t) ≡ i - buf - length t = omega arith in z)
              (ground arith))
]

-- The outcomes of printing to the port and to the buffer are the same, and what was sent is what the
-- buffer holds, as far as it has room.
record Agrees (buf size : ℕ) (m : Bytes) (r : PrintResult × List ℕ) (q : PrintResult × Bytes)
    : Type 0 where
  pub outcomes : q.0 ≡ r.0
  pub buffered : Buffered buf size r.1 m q.1
  pub counted : (n : ℕ) → r.0 ≡ count n → n ≡ length r.1

abbrev AgreesFrom :
    (buf size : ℕ) (m : Bytes) (f : List ℕ → ℕ → List ℕ → PrintResult × List ℕ)
    (g : List ℕ → ℕ → Bytes → PrintResult × Bytes)
    → Type 0
AgreesFrom buf size m f g =
    (args : List ℕ) (t : List ℕ) (k : Bytes)
    → Buffered buf size t m k
    → Agrees buf size m (f args (length t) t) (g args (length t) k)

str_out-true : (buf size : ℕ) (u : List ℕ) (w : ℕ) (k : Bytes) → (str_out buf size u w k).0 ≡ true
unfolding str_out
str_out-true buf size u w k = elim (Bool-cases (leb (2 ^ 31) size || ltb size w)) [
  | inl c ↦ rw c refl
  | inr c ↦ rw c refl
]

count-injective : {a b : ℕ} → count a ≡ count b → a ≡ b
count-injective e = cc

print_piece-Agrees :
    (buf size : ℕ) (m : Bytes) (f : List ℕ → ℕ → List ℕ → PrintResult × List ℕ)
    (g : List ℕ → ℕ → Bytes → PrintResult × Bytes) (t : List ℕ) (k : Bytes) (p : Piece)
    → size < 2 ^ 31
    → AgreesFrom buf size m f g
    → Buffered buf size t m k
    → Agrees buf size m
        (print_piece serial_out (length t) t f p)
        (print_piece (str_out buf size) (length t) k g p)
unfolding str_out
print_piece-Agrees buf size m f g t k invalid s h b = record {
  outcomes = refl;
  buffered = b;
  counted = λ n e. cc;
}
print_piece-Agrees buf size m f g t k no_arg s h b = record {
  outcomes = refl;
  buffered = b;
  counted = λ n e. cc;
}
print_piece-Agrees buf size m f g t k (text u args) s h b =
    let succeeds = str_out-true buf size u (length t) k in
    let next =
      h args (t ++ u) (str_out buf size u (length t) k).1 (str_out-Buffered buf size t u m k s b) in
    rw succeeds (rw (length-append t u) at next)

print_loop-Agrees :
    (text_of : ℕ → List ℕ) (buf size : ℕ) (m : Bytes) (f : ℕ) (fmt : List ℕ)
    → size < 2 ^ 31
    → AgreesFrom buf size m
        (print_loop text_of serial_out f fmt)
        (print_loop text_of (str_out buf size) f fmt)
unfolding print_loop
print_loop-Agrees text_of buf size m zero fmt s args t k b = record {
  outcomes = refl;
  buffered = b;
  counted = λ n e. cc;
}
print_loop-Agrees text_of buf size m (suc f) [] s args t k b = record {
  outcomes = refl;
  buffered = b;
  counted = λ n e. sym (count-injective e);
}
print_loop-Agrees text_of buf size m (suc f) (c ∷ fmt) s args t k b =
    let d = decode_format (c ∷ fmt) in
    print_piece-Agrees buf size m (print_loop text_of serial_out f d.rest)
      (print_loop text_of (str_out buf size) f d.rest) t k (piece text_of (c ∷ fmt) d args) s
      (print_loop-Agrees text_of buf size m f d.rest s) b

runs :
    (text_of : ℕ → List ℕ) (buf size : ℕ) (fmt args : List ℕ) (m : Bytes)
    → size < 2 ^ 31
    → Agrees buf size m
        (vprintf text_of fmt args [])
        (vprintf_to text_of (str_out buf size) fmt args m)
unfolding vprintf vprintf_to
runs text_of buf size fmt args m s =
    print_loop-Agrees text_of buf size m (suc (length fmt)) fmt s args [] m λ i. ground arith

outside_of :
    (buf size : ℕ) (o : PrintResult) (k : Bytes)
    → 1 ≤ size
    → size < 2 ^ 31
    → o ≢ count 0
    → ((end_text buf size o k).0 ≡ o)
      × ((i : ℕ) → (i < buf) ⊎ (buf + size ≤ i) → (end_text buf size o k).1 i ≡ k i)
unfolding end_text
outside_of buf size failed k h b s = (refl, λ i o. refl)
outside_of buf size undefined k h b s = (refl, λ i o. refl)
outside_of buf size (count zero) k h b s = absurd (s refl)
outside_of buf size (count (suc n)) k h b s = (
  refl,
  λ i o. rw (not_negative size b, ==_ne i (buf + min (suc n) size - 1) (ground (arith, o))) refl,
)

-- Where `vprintf` prints some characters, `vsnprintf` to a buffer that is not empty and smaller than
-- 2^31 returns the same count. It leaves in the buffer the first of these characters, as many as
-- there is room for, but for the last one, over which it writes the NUL; and it leaves every other
-- address.
pub vsnprintf-vprintf :
    (text_of : ℕ → List ℕ) (buf size : ℕ) (fmt args : List ℕ) (m : Bytes) (t : List ℕ) (n : ℕ)
    → 1 ≤ size
    → size < 2 ^ 31
    → vprintf text_of fmt args [] ≡ (count (suc n), t)
    → ((vsnprintf text_of buf size fmt args m).0 ≡ count (suc n))
      × (suc n ≡ length t)
      × ((i : ℕ)
          → (vsnprintf text_of buf size fmt args m).1 i ≡ (
              if i == buf + min (suc n) size - 1
              then 0
              else if leb buf i && ltb i (buf + min (suc n) size)
              then get_or t (i - buf) 0
              else m i))
unfolding vsnprintf end_text
vsnprintf-vprintf text_of buf size fmt args m t n h s e =
    let a = runs text_of buf size fmt args m s in
    let o : (vprintf_to text_of (str_out buf size) fmt args m).0 ≡ count (suc n) =
      a.outcomes ∙ ap (λ (p : PrintResult × List ℕ). p.0) e in
    let c : suc n ≡ length t =
      a.counted (suc n) (ap (λ (p : PrintResult × List ℕ). p.0) e)
      ∙ ap (λ (p : PrintResult × List ℕ). length p.1) e in
    let cut = cut_to_int size s in
    (rw (cut, o) refl, c, λ i. rw (cut, o, not_negative size s) (rw (a.buffered i, e, ← c) refl))

-- `vsnprintf` to a buffer that is not empty and smaller than 2^31 ends as `vprintf` does, and unless
-- nothing is printed, it writes to no address outside of the buffer.
pub vsnprintf-outside :
    (text_of : ℕ → List ℕ) (buf size : ℕ) (fmt args : List ℕ) (m : Bytes)
    → 1 ≤ size
    → size < 2 ^ 31
    → (vprintf text_of fmt args []).0 ≢ count 0
    → ((vsnprintf text_of buf size fmt args m).0 ≡ (vprintf text_of fmt args []).0)
      × ((i : ℕ) → (i < buf) ⊎ (buf + size ≤ i) → (vsnprintf text_of buf size fmt args m).1 i ≡ m i)
unfolding vsnprintf
vsnprintf-outside text_of buf size fmt args m h s some_text =
    let a = runs text_of buf size fmt args m s in
    let q = vprintf_to text_of (str_out buf size) fmt args m in
    let (o, same) = outside_of buf size q.0 q.1 h s (λ z. some_text (sym a.outcomes ∙ z)) in
    rw (cut_to_int size s) (o ∙ a.outcomes, λ i out. same i out ∙ a.buffered i ∙ ground arith)
