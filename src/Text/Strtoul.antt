-- ===== src/Text/Strtoul.antt =====
-- `strtoul` of src/src/stdlib.c, on a memory of bytes. A `char` is signed; `unsigned long` has 64 bits,
-- and the digit, an `int`, is converted to it where it is used.
pub mod Scan
pub mod Reads
use spbau_os_hw.Prelude.{
  ℕ, zero, suc, ◌+◌, ◌-◌, ◌*◌, ◌/◌, ◌%◌, ◌^◌, Bool, true, false, ◌&&◌, ◌||◌, not, Option, none,
  some, ltb, leb, ◌==◌, if◌then◌else◌,
}
use spbau_os_hw.Prelude.Partial.{◌>>=◌}
use spbau_os_hw.Text.Memory.{Bytes}
use spbau_os_hw.Text.Ctype.{isspace, isdigit, toupper, tolower}

abbrev pub ulong_max : ℕ
ulong_max = 2 ^ 64 - 1

unfoldable pub skip_space : (fuel ptr : ℕ) → Bytes → Option ℕ
skip_space zero ptr m = none
skip_space (suc f) ptr m =
    let rest = skip_space f (suc ptr) m in if isspace (m ptr) then rest else some ptr

-- `digit` of a character, as an `unsigned long`.
unfoldable pub digit_of : ℕ → ℕ
digit_of ch =
    let c = toupper ch in
    if isdigit c
    then c - 48
    else if ltb c 128
    then (c + (2 ^ 64 - 65) + 10) % 2 ^ 64
    else (c + (2 ^ 64 - 256 - 65) + 10) % 2 ^ 64

-- What the loop over the digits leaves.
pub record Scanned : Type 0 where
  pub ptr : ℕ
  pub ret : ℕ
  pub consumed : Bool

unfoldable pub scan : (fuel base : ℕ) → Bytes → Scanned → Option Scanned
scan zero base m s = none
scan (suc f) base m s =
    let digit = digit_of (m s.ptr) in
    let rest =
      scan f base m
        (record { ptr = suc s.ptr; ret = (s.ret * base + digit) % 2 ^ 64; consumed = true }) in
    if m s.ptr == 0
    then some s
    else if ltb ((ulong_max - digit) / base) s.ret
    then some (record s { ret = ulong_max })
    else rest

-- The prefix: the base, and where the digits begin. In base 16 the code asks for
-- `tolower(*(ptr + 1) == 'x')`, which is whether the next character is `x`.
unfoldable pub scan_prefix : (base ptr : ℕ) → Bytes → ℕ × ℕ
scan_prefix base ptr m =
    if base == 0
    then (if m ptr == 48
        then (if tolower (m (suc ptr)) == 120 then (16, ptr + 2) else (8, suc ptr))
        else (10, ptr))
    else if (base == 8) && (m ptr == 48)
    then (base, suc ptr)
    else if (base == 16)
        && (m ptr == 48)
        && not (tolower (if m (suc ptr) == 120 then 1 else 0) == 0)
    then (base, ptr + 2)
    else (base, ptr)

-- The number, and `*endptr`.
unfoldable pub strtoul_end : (str : ℕ) (negate : Bool) → Scanned → ℕ × ℕ
strtoul_end str negate s =
    ((if negate then (2 ^ 64 - s.ret) % 2 ^ 64 else s.ret), if s.consumed then s.ptr else str)

-- Each loop gets `fuel` rounds.
unfoldable pub strtoul : (fuel str base : ℕ) → Bytes → Option (ℕ × ℕ)
strtoul fuel str base m = skip_space fuel str m >>= λ start.
    let negate = m start == 45 in
    let ptr = if negate || (m start == 43) then suc start else start in
    let p = scan_prefix base ptr m in
    scan fuel p.0 m (record { ptr = p.1; ret = 0; consumed = false }) >>= λ s.
    some (strtoul_end str negate s)
