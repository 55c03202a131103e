-- ===== src/SlabAlloc/Bitmap.antt =====
-- The lowest free bit of a bitmap: `ffs`, and the scan over the words.
use native.Mathlib.Decide.{dec_lt}
use native.Mathlib.Nat.{pow-suc}
use spbau_os_hw.Prelude.{
  ℕ, zero, suc, ◌+◌, ◌-◌, ◌*◌, ◌/◌, ◌%◌, ◌^◌, ◌≤◌, ◌<◌, ◌≡◌, ◌≢◌, sym, ◌∙◌, ap, subst, Bool, true,
  false, not, Bool-cases, inl, inr, arith, ◌==◌,
}
use spbau_os_hw.Prelude.Bits.{test_bit}
use spbau_os_hw.PageAlloc.Blocks.{halve, Aligned, Aligned-mod, mod-Aligned}
use spbau_os_hw.SlabAlloc.{all_ones, first_byte, first_bit, ffs}

-- A bit of `x` is a bit of `x >> j`.
test_bit-halve : (x j k : ℕ) → test_bit x (j + k) ≡ test_bit (halve x j) k
unfolding test_bit
test_bit-halve x zero k = let e : 0 + k ≡ k = omega arith in rw e
test_bit-halve x (suc j) k =
    let e : suc j + k ≡ suc (j + k) = omega arith in rw e (test_bit-halve (x / 2) j k)

-- The bits of the complement.
pub test_bit-complement :
    (n w k : ℕ) → w < 2 ^ n → k < n → test_bit (2 ^ n - 1 - w) k ≡ not (test_bit w k)
unfolding test_bit
test_bit-complement zero w k h l = absurd (omega arith)
test_bit-complement (suc n) w zero h l = ground (arith, pow-suc 2 n)
test_bit-complement (suc n) w (suc k) h l =
    let e : (2 ^ suc n - 1 - w) / 2 ≡ 2 ^ n - 1 - w / 2 = omega (arith, pow-suc 2 n) in
    rw e (test_bit-complement n (w / 2) k (omega (arith, pow-suc 2 n)) (omega arith))

-- `b` is the lowest set bit of `x`.
pub record Lowest (x b : ℕ) : Type 0 where
  pub on : test_bit x b ≡ true
  pub off : (j : ℕ) → j < b → test_bit x j ≡ false

-- The bits below an aligned position are off.
Aligned-off : (x n j : ℕ) → Aligned x n → j < n → test_bit x j ≡ false
unfolding test_bit
Aligned-off x zero j a h = absurd (omega arith)
Aligned-off x (suc n) zero a h = ground (arith, a.0)
Aligned-off x (suc n) (suc j) a h = Aligned-off (x / 2) n j a.1 (omega arith)

some_bit : (n y : ℕ) → y % 2 ^ n ≢ 0 → (k : ℕ) × (k < n) × (test_bit y k ≡ true)
unfolding test_bit
some_bit zero y h = absurd (h (omega arith))
some_bit (suc n) y h = elim (Bool-cases (y % 2 == 1)) [
  | inl odd ↦ (0, omega arith, odd)
  | inr even ↦
      let (k, l, e) =
        some_bit n (y / 2)
          (λ t. h (Aligned-mod y (suc n) (ground arith, mod-Aligned (y / 2) n t))) in
      (suc k, omega arith, e)
]

halve_byte : (x i : ℕ) → halve x (8 * suc i) ≡ halve (x / 256) (8 * i)
halve_byte x i =
    let e : 8 * suc i ≡ suc (suc (suc (suc (suc (suc (suc (suc (8 * i)))))))) = omega arith in
    let d : x / 2 / 2 / 2 / 2 / 2 / 2 / 2 / 2 ≡ x / 256 = omega arith in
    rw e (ap (λ y. halve y (8 * i)) d)

test_bit_byte : (x j : ℕ) → 8 ≤ j → test_bit x j ≡ test_bit (x / 256) (j - 8)
test_bit_byte x j h =
    let e : j ≡ 8 + (j - 8) = omega arith in
    let d : x / 2 / 2 / 2 / 2 / 2 / 2 / 2 / 2 ≡ x / 256 = omega arith in
    ap (test_bit x) e ∙ test_bit-halve x 8 (j - 8) ∙ ap (λ y. test_bit y (j - 8)) d

-- The byte that is found, counted from `byte`: it is not 0, and the bits below it are off.
record FirstByte (x i : ℕ) : Type 0 where
  full : halve x (8 * i) % 256 ≢ 0
  off : (j : ℕ) → j < 8 * i → test_bit x j ≡ false

first_byte-FirstByte :
    (n x byte : ℕ)
    → 0 < x
    → x < 256 ^ n
    → (i : ℕ) × (first_byte n x byte ≡ byte + i) × FirstByte x i
unfolding first_byte
first_byte-FirstByte zero x byte h l = absurd (omega arith)
first_byte-FirstByte (suc n) x byte h l = elim (Bool-cases (x % 256 == 0)) [
  | inr here ↦
      (0, rw here (omega arith), record { full = ground arith; off = λ j k. absurd (omega arith) })
  | inl later ↦
      let z : x % 256 ≡ 0 = ground arith in
      let (i, e, r) =
        first_byte-FirstByte n (x / 256) (suc byte) (omega arith)
          (omega (arith, l, pow-suc 256 n)) in
      (
        suc i,
        rw later (omega (arith, e)),
        record {
          full = rw (halve_byte x i) r.full;
          off = λ j k. elim (dec_lt j 8) [
            | yes low ↦ Aligned-off x 8 j (mod-Aligned x 8 z) low
            | no high ↦ test_bit_byte x j (omega arith) ∙ r.off (j - 8) (omega arith)
          ];
        },
      )
]

-- Where a bit is on, the search by bits finds the first one.
record FirstBit (x at bit b : ℕ) : Type 0 where
  on : test_bit x (at + b) ≡ true
  off : (j : ℕ) → bit ≤ j → j < b → test_bit x (at + j) ≡ false

differ : (x a b : ℕ) → test_bit x a ≡ false → test_bit x b ≡ true → a ≢ b
differ x a b off on t = ground (arith, ap (test_bit x) t)

first_bit-FirstBit :
    (n x at bit k : ℕ)
    → k < n
    → test_bit x (at + (bit + k)) ≡ true
    → FirstBit x at bit (first_bit n x at bit)
unfolding first_bit
first_bit-FirstBit zero x at bit k h e = absurd (omega arith)
first_bit-FirstBit (suc n) x at bit k h e = elim (Bool-cases (test_bit x (at + bit))) [
  | inl here ↦ rw here (record { on = here; off = λ j a b. absurd (omega arith) })
  | inr later ↦
      let r =
        first_bit-FirstBit n x at (suc bit) (k - 1)
          (omega (arith, differ x (at + bit) (at + (bit + k)) later e))
          (ap (test_bit x) (omega (arith, differ x (at + bit) (at + (bit + k)) later e)) ∙ e) in
      rw later (record {
        on = r.on;
        off = λ j a b. elim (dec_lt bit j) [
          | yes above ↦ r.off j (omega arith) b
          | no first ↦ let t : j ≡ bit = omega arith in rw t later
        ];
      })
]

-- For a word that is not 0, `ffs` is the number of its lowest set bit.
pub ffs-Lowest : (x : ℕ) → 0 < x → x < 2 ^ 64 → Lowest x (ffs x)
unfolding ffs
ffs-Lowest x h l =
    let (i, e, r) = first_byte-FirstByte 8 x 0 h l in
    let (k, below, bit) = some_bit 8 (halve x (8 * i)) r.full in
    let byte : first_byte 8 x 0 * 8 ≡ 8 * i = omega (arith, e) in
    let f =
      first_bit-FirstBit 8 x (8 * i) 0 k below
        (ap (λ (j : ℕ). test_bit x (8 * i + j)) (omega arith) ∙ test_bit-halve x (8 * i) k ∙ bit) in
    subst (λ a. Lowest x (a + first_bit 8 x a 0)) (sym byte)
      (record {
        on = f.on;
        off = λ j b. elim (dec_lt j (8 * i)) [
          | yes low ↦ r.off j low
          | no high ↦
              let t : j ≡ 8 * i + (j - 8 * i) = omega arith in
              ap (test_bit x) t ∙ f.off (j - 8 * i) (omega arith) (omega arith)
        ];
      })

test_bit-lt : (n w k : ℕ) → w < 2 ^ n → test_bit w k ≡ true → k < n
unfolding test_bit
test_bit-lt zero w zero h e = ground arith
test_bit-lt zero w (suc k) h e = absurd (omega (arith, test_bit-lt zero (w / 2) k (omega arith) e))
test_bit-lt (suc n) w zero h e = omega arith
test_bit-lt (suc n) w (suc k) h e =
    omega (arith, test_bit-lt n (w / 2) k (omega (arith, pow-suc 2 n)) e)

-- The first bit of a word that is not full: below 64, off, and every lower bit on.
pub free_bit :
    (w : ℕ)
    → w < 2 ^ 64
    → w ≢ all_ones
    → (ffs (all_ones - w) < 64)
      × (test_bit w (ffs (all_ones - w)) ≡ false)
      × ((j : ℕ) → j < ffs (all_ones - w) → test_bit w j ≡ true)
free_bit w h n =
    let x = all_ones - w in
    let r = ffs-Lowest x (omega arith) (omega arith) in
    let b : ffs x < 64 = test_bit-lt 64 x (ffs x) (omega arith) r.on in
    (
      b,
      flipped (sym (test_bit-complement 64 w (ffs x) h b) ∙ r.on),
      λ j l. flipped (sym (test_bit-complement 64 w j h (omega arith)) ∙ r.off j l),
    )
  where
    flipped : {b c : Bool} → not b ≡ c → b ≡ not c
    flipped e = ground (arith, e)
