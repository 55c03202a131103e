-- ===== src/PageAlloc/Blocks.antt =====
-- The arithmetic of buddies: aligned blocks of `2 ^ k` pages, and the page number with bit `k`
-- flipped.
use native.Mathlib.Nat.{pow-suc, mul-mod_left, div-add-mod}
use spbau_os_hw.Prelude.{
  ℕ, zero, suc, ◌+◌, ◌*◌, ◌/◌, ◌%◌, ◌^◌, ◌≤◌, ◌<◌, ◌≡◌, ap, ◌⊎◌, inl, inr, arith, ◌==◌,
  if◌then◌else◌,
}
use spbau_os_hw.Prelude.Bits.{flip_bit, half_join}

-- The lowest `k` bits of `p` are zero.
abbrev pub Aligned : ℕ → ℕ → Type 0
Aligned p zero = Unit
Aligned p (suc k) = (p % 2 ≡ 0) × Aligned (p / 2) k

-- `x >> k`
abbrev pub halve : ℕ → ℕ → ℕ
halve x zero = x
halve x (suc k) = halve (x / 2) k

pub pow_pos : (k : ℕ) → 0 < 2 ^ k
pow_pos zero = omega arith
pow_pos (suc k) = omega (arith, pow_pos k, pow-suc 2 k)

Aligned-mul : (p k : ℕ) → Aligned p k → p ≡ halve p k * 2 ^ k
Aligned-mul p zero a = omega arith
Aligned-mul p (suc k) a =
    omega (arith, Aligned-mul (p / 2) k a.1, a.0, ap (λ (t : ℕ). halve (p / 2) k * t) (pow-suc 2 k))

mul-Aligned : (c p k : ℕ) → p ≡ c * 2 ^ k → Aligned p k
mul-Aligned c p zero e = tt
mul-Aligned c p (suc k) e =
    let d = ap (λ (t : ℕ). c * t) (pow-suc 2 k) in
    (omega (arith, d, e), mul-Aligned c (p / 2) k (omega (arith, d, e)))

-- The test of the code, `(p & ((1 << k) - 1)) == 0`.
pub Aligned-mod : (p k : ℕ) → Aligned p k → p % 2 ^ k ≡ 0
Aligned-mod p k a = rw (Aligned-mul p k a) (mul-mod_left _ _)

pub mod-Aligned : (p k : ℕ) → p % 2 ^ k ≡ 0 → Aligned p k
mod-Aligned p k h = mul-Aligned (p / 2 ^ k) p k (omega (arith, div-add-mod p (2 ^ k), h))

pub Aligned-le : (p j k : ℕ) → j ≤ k → Aligned p k → Aligned p j
Aligned-le p zero k h a = tt
Aligned-le p (suc j) zero h a = absurd (omega arith)
Aligned-le p (suc j) (suc k) h a = (a.0, Aligned-le (p / 2) j k (omega arith) a.1)

-- An aligned block holds `x` exactly if `x` has the same high bits.
pub block_halve : (q j x : ℕ) → Aligned q j → q ≤ x → x < q + 2 ^ j → halve x j ≡ halve q j
block_halve q zero x a h l = omega arith
block_halve q (suc j) x a h l =
    block_halve (q / 2) j (x / 2) a.1 (omega arith) (omega (arith, a.0, pow-suc 2 j))

pub halve_block : (q j x : ℕ) → Aligned q j → halve x j ≡ halve q j → (q ≤ x) × (x < q + 2 ^ j)
halve_block q zero x a e = omega arith
halve_block q (suc j) x a e =
    let h = halve_block (q / 2) j (x / 2) a.1 e in omega (arith, h.0, h.1, a.0, pow-suc 2 j)

pub eq_of_halve : (p q j : ℕ) → Aligned p j → Aligned q j → halve p j ≡ halve q j → p ≡ q
eq_of_halve p q zero a b e = e
eq_of_halve p q (suc j) a b e = omega (arith, eq_of_halve (p / 2) (q / 2) j a.1 b.1 e, a.0, b.0)

pub halve-flip_bit : (p k j : ℕ) → k < j → halve (flip_bit p k) j ≡ halve p j
unfolding flip_bit
halve-flip_bit p k zero h = absurd (omega arith)
halve-flip_bit p zero (suc j) h =
    let e : (if p % 2 == 1 then p / 2 * 2 else p / 2 * 2 + 1) / 2 ≡ p / 2 = ground arith in rw e
halve-flip_bit p (suc k) (suc j) h =
    let e : (flip_bit (p / 2) k * 2 + p % 2) / 2 ≡ flip_bit (p / 2) k = omega arith in
    rw e (halve-flip_bit (p / 2) k j (omega arith))

-- What flipping bit `k` makes of a block aligned at `k`: the other half of a block aligned at
-- `k + 1`, above or below.
pub record Buddies (p b k : ℕ) : Type 0 where
  pub aligned : Aligned b k
  pub sides : ((b ≡ p + 2 ^ k) × Aligned p (suc k)) ⊎ ((p ≡ b + 2 ^ k) × Aligned b (suc k))

pub flip_bit-Buddies : (p k : ℕ) → Aligned p k → Buddies p (flip_bit p k) k
unfolding flip_bit
flip_bit-Buddies p zero a = record { aligned = tt; sides = ground arith }
flip_bit-Buddies p (suc k) a = double (flip_bit-Buddies (p / 2) k a.1)
  where
    double :
        Buddies (p / 2) (flip_bit (p / 2) k) k → Buddies p (flip_bit (p / 2) k * 2 + p % 2) (suc k)
    double h = record {
      aligned = (omega (arith, a.0), rw (half_join (flip_bit (p / 2) k) p) h.aligned);
      sides = elim h.sides [
        | inl (e, t) ↦ inl (omega (arith, e, a.0, pow-suc 2 k), (a.0, t))
        | inr (e, t) ↦ inr (
          omega (arith, e, a.0, pow-suc 2 k),
          (omega (arith, a.0), rw (half_join (flip_bit (p / 2) k) p) t),
        )
      ];
    }

-- The buddy of the lower half is the upper half.
pub flip_bit-lower : (p k : ℕ) → Aligned p (suc k) → flip_bit p k ≡ p + 2 ^ k
unfolding flip_bit
flip_bit-lower p zero a = ground (arith, a.0)
flip_bit-lower p (suc k) a = omega (arith, flip_bit-lower (p / 2) k a.1, a.0, pow-suc 2 k)

pub Aligned-add : (p k : ℕ) → Aligned p (suc k) → Aligned (p + 2 ^ k) k
Aligned-add p zero a = tt
Aligned-add p (suc k) a =
    let e : (p + 2 ^ suc k) / 2 ≡ p / 2 + 2 ^ k = omega (arith, a.0, pow-suc 2 k) in
    (omega (arith, a.0, pow-suc 2 k), rw e (Aligned-add (p / 2) k a.1))
