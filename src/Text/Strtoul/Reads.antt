-- ===== src/Text/Strtoul/Reads.antt =====
-- `strtoul` reads what `ulltoa` writes.
use native.Mathlib.Nat.{mod-lt, div-eq_of_lt}
use spbau_os_hw.Prelude.{
  ℕ, suc, ◌+◌, ◌-◌, ◌/◌, ◌%◌, ◌^◌, ◌≤◌, ◌<◌, ◌≡◌, refl, ap, ◌∙◌, ◌⊎◌, inl, inr, arith, false, some,
  ◌==◌, if◌then◌else◌, Bool-cases, leb, leb→le, update, ==_refl,
}
use spbau_os_hw.Prelude.Bits.{test_bit}
use spbau_os_hw.Text.Memory.{Bytes}
use spbau_os_hw.Text.Ctype.{isspace, tolower, class_bit, isupper}
use spbau_os_hw.Text.Digits.{ulltoa, lltoa, ulltoa_lem}
use spbau_os_hw.Text.Strtoul.{skip_space, Scanned, scan, scan_prefix, strtoul_end, strtoul}
use spbau_os_hw.Text.Strtoul.Scan.{
  IsRead, digit-IsRead, Spelled, first, scan_lem, first_digit, first_char,
}

skip_lem : (f ptr : ℕ) (m : Bytes) → isspace (m ptr) ≡ false → skip_space (suc f) ptr m ≡ some ptr
unfolding skip_space
skip_lem f ptr m e = rw e refl

-- In a base other than 0 the digits of a number have no prefix; but in base 8 its single 0 is one.
prefix_lem :
    (v str b j : ℕ) (m : Bytes)
    → 2 ≤ b
    → b ≤ 36
    → Spelled v str b j m
    → (scan_prefix b str m ≡ (b, str)) ⊎ ((scan_prefix b str m ≡ (b, suc str)) × (j ≡ 0) × (v ≡ 0))
unfolding scan_prefix tolower isupper class_bit test_bit
prefix_lem v str b j m l u w =
    let some_base : (b == 0) ≡ false = ground (arith, l) in
    let small : v / b ^ j % b < b = mod-lt (v / b ^ j) (omega (arith, l)) in
    let g = digit-IsRead (v / b ^ j % b) (omega (arith, small, u)) in
    let ch = first_char v str b j m w in
    elim g.no_zero [
      | inr n ↦ inl (elim (Bool-cases (b == 8)) [
        | inl t ↦ elim (Bool-cases (b == 16)) [
          | inl o ↦ rw (some_base, ch, n, t, o) refl
          | inr o ↦ rw (some_base, ch, n, t, o) refl
        ]
        | inr t ↦ elim (Bool-cases (b == 16)) [
          | inl o ↦ rw (some_base, ch, n, t, o) refl
          | inr o ↦ rw (some_base, ch, n, t, o) refl
        ]
      ])
      | inl z ↦
          let (j0, v0) = first_digit v b j l w.above w.below z in
          let nul : m (suc str) ≡ 0 = ap m (omega (arith, j0)) ∙ w.ends in
          elim (Bool-cases (b == 8)) [
            | inl t ↦ inr (rw (some_base, ch, z, t) refl, j0, v0)
            | inr t ↦ inl (elim (Bool-cases (b == 16)) [
              | inl o ↦ rw (some_base, ch, z, t, o, nul) refl
              | inr o ↦ rw (some_base, ch, z, t, o) refl
            ])
          ]
    ]

-- From the first digit on, prefix and all, the number is read.
pub number_lem :
    (v ptr b j : ℕ) (k : Bytes)
    → 2 ≤ b
    → b ≤ 36
    → v < 2 ^ 64
    → Spelled v ptr b j k
    → (s : Scanned) × (scan
          (suc (suc j))
          (scan_prefix b ptr k).0
          k
          (record { ptr = (scan_prefix b ptr k).1; ret = 0; consumed = false })
        ≡ some s)
      × (s.ret ≡ v)
number_lem v ptr b j k l u top w = elim (prefix_lem v ptr b j k l u w) [
  | inl p ↦
      let (d, found, o) =
        scan_lem (suc (suc j)) (suc j) v ptr b j k false (omega arith) (omega arith) l u top w in
      let start : ptr + (suc j - suc j) ≡ ptr = omega arith in
      let zero_ret : v / b ^ suc j ≡ 0 = div-eq_of_lt w.above in
      let at_start = rw (start, zero_ret) at found in
      (record { ptr = ptr + suc j; ret = v; consumed = d }, rw p at_start, refl)
  | inr (p, j0, v0) ↦
      let (d, found, o) =
        scan_lem (suc (suc j)) 0 v ptr b j k false (omega arith) (omega arith) l u top w in
      let start : ptr + (suc j - 0) ≡ suc ptr = omega (arith, j0) in
      let zero_ret : v / b ^ 0 ≡ 0 = first v b ∙ v0 in
      let at_start = rw (start, zero_ret) at found in
      (record { ptr = ptr + suc j; ret = v; consumed = d }, rw p at_start, refl)
]

-- Where no sign stands.
unsigned_lem :
    (v str b j : ℕ) (k : Bytes)
    → 2 ≤ b
    → b ≤ 36
    → v < 2 ^ 64
    → Spelled v str b j k
    → (e : ℕ) × (strtoul (suc (suc j)) str b k ≡ some (v, e))
unfolding strtoul strtoul_end
unsigned_lem v str b j k l u top w =
    let small : v / b ^ j % b < b = mod-lt (v / b ^ j) (omega (arith, l)) in
    let g : IsRead (v / b ^ j % b) = digit-IsRead (v / b ^ j % b) (omega (arith, small, u)) in
    let ch = first_char v str b j k w in
    let skipped = skip_lem (suc j) str k (ap isspace ch ∙ g.no_space) in
    let minus : (k str == 45) ≡ false = ap (λ (x : ℕ). x == 45) ch ∙ g.no_minus in
    let plus : (k str == 43) ≡ false = ap (λ (x : ℕ). x == 43) ch ∙ g.no_plus in
    let (s, found, ret) = number_lem v str b j k l u top w in
    ((if s.consumed then s.ptr else str), rw (skipped, minus, plus, found, ret) refl)

-- Behind a minus sign.
negative_lem :
    (v str b j : ℕ) (k : Bytes)
    → 2 ≤ b
    → b ≤ 36
    → v < 2 ^ 64
    → k str ≡ 45
    → Spelled v (suc str) b j k
    → (e : ℕ) × (strtoul (suc (suc j)) str b k ≡ some ((2 ^ 64 - v) % 2 ^ 64, e))
unfolding strtoul strtoul_end isspace class_bit test_bit
negative_lem v str b j k l u top sign w =
    let skipped = skip_lem (suc j) str k (rw sign refl) in
    let (s, found, ret) = number_lem v (suc str) b j k l u top w in
    ((if s.consumed then s.ptr else str), rw (skipped, sign, found, ret) refl)

-- For a base from 2 to 36 and a number below 2^64, `strtoul` in that base reads the number that
-- `ulltoa` wrote at `str`, given a round more than it has digits.
pub strtoul-ulltoa :
    (v str b : ℕ) (m : Bytes)
    → 2 ≤ b
    → b ≤ 36
    → v < 2 ^ 64
    → (k : Bytes) × (j : ℕ) × (ulltoa v str b m ≡ some k)
      × ((e : ℕ) × (strtoul (suc (suc j)) str b k ≡ some (v, e)))
strtoul-ulltoa v str b m l u top =
    let (j, k, run, above, below, digit_at, ends, others) = ulltoa_lem v str b m l u in
    let w : Spelled v str b j k = record {
      above = above;
      below = below;
      digit_at = digit_at;
      ends = ends;
    } in
    (k, j, run, unsigned_lem v str b j k l u top w)

-- For a base from 2 to 36 and a `long long`, given as its word of 64 bits, `strtoul` in that base
-- reads the word that `lltoa` wrote at `str`, sign and all, given a round more than it has digits.
pub strtoul-lltoa :
    (v str b : ℕ) (m : Bytes)
    → 2 ≤ b
    → b ≤ 36
    → v < 2 ^ 64
    → (k : Bytes) × (j : ℕ) × (lltoa v str b m ≡ some k)
      × ((e : ℕ) × (strtoul (suc (suc j)) str b k ≡ some (v, e)))
unfolding lltoa
strtoul-lltoa v str b m l u top = elim (Bool-cases (leb (2 ^ 63) v)) [
  | inr f ↦ rw f (strtoul-ulltoa v str b m l u top)
  | inl t ↦
      let low : 2 ^ 63 ≤ v = leb→le (2 ^ 63) v t in
      let n : ℕ = (2 ^ 64 - v) % 2 ^ 64 in
      let back : (2 ^ 64 - n) % 2 ^ 64 ≡ v = omega arith in
      let (j, k, run, above, below, digit_at, ends, others) =
        ulltoa_lem n (suc str) b (update m str 45) l u in
      let w : Spelled n (suc str) b j k = record {
        above = above;
        below = below;
        digit_at = digit_at;
        ends = ends;
      } in
      let sign : k str ≡ 45 = others str (inl (omega arith)) ∙ rw (==_refl str) refl in
      let (e, read) = negative_lem n str b j k l u (omega arith) sign w in
      (k, j, rw t run, (e, read ∙ ap (λ (x : ℕ). some (x, e)) back))
]
