-- ===== src/Prelude/Bits.antt =====
-- Single bits of a word, digit by digit: `(w >> k) & 1`, `w | (1 << k)`, `w & ~(1 << k)` and
-- `w ^ (1 << k)`.
use Prim.Native.Nat.{ℕ, zero, suc, ◌+◌, ◌*◌, ◌/◌, ◌%◌, ◌^◌}
use mathlib.Core.Path.{◌≡◌, refl}
use mathlib.Core.Logic.{◌≢◌}
use mathlib.Core.Bool.{Bool, true, false}
use native.Mathlib.Omega.{arith}
use native.Mathlib.Nat.{pow-suc}
use spbau_os_hw.Prelude.Tests.{◌==◌, if◌then◌else◌}

unfoldable pub test_bit : ℕ → ℕ → Bool
test_bit w zero = w % 2 == 1
test_bit w (suc k) = test_bit (w / 2) k

unfoldable pub set_bit : ℕ → ℕ → ℕ
set_bit w zero = w / 2 * 2 + 1
set_bit w (suc k) = set_bit (w / 2) k * 2 + w % 2

unfoldable pub clear_bit : ℕ → ℕ → ℕ
clear_bit w zero = w / 2 * 2
clear_bit w (suc k) = clear_bit (w / 2) k * 2 + w % 2

unfoldable pub flip_bit : ℕ → ℕ → ℕ
flip_bit w zero = if w % 2 == 1 then w / 2 * 2 else w / 2 * 2 + 1
flip_bit w (suc k) = flip_bit (w / 2) k * 2 + w % 2

-- The word with the last digit of `w` below `x`.
pub half_join : (x w : ℕ) → (x * 2 + w % 2) / 2 ≡ x
half_join x w = omega arith

parity_join : (x w : ℕ) → (x * 2 + w % 2) % 2 ≡ w % 2
parity_join x w = omega arith

pub test_bit-set_bit : (w k : ℕ) → test_bit (set_bit w k) k ≡ true
unfolding test_bit set_bit
test_bit-set_bit w zero = ground arith
test_bit-set_bit w (suc k) = rw half_join (test_bit-set_bit (w / 2) k)

pub test_bit-clear_bit : (w k : ℕ) → test_bit (clear_bit w k) k ≡ false
unfolding test_bit clear_bit
test_bit-clear_bit w zero = ground arith
test_bit-clear_bit w (suc k) = rw half_join (test_bit-clear_bit (w / 2) k)

pub test_bit-set_bit_ne : (w j k : ℕ) → j ≢ k → test_bit (set_bit w k) j ≡ test_bit w j
unfolding test_bit set_bit
test_bit-set_bit_ne w zero zero h = absurd (h refl)
test_bit-set_bit_ne w zero (suc k) h = rw parity_join
test_bit-set_bit_ne w (suc j) zero h = rw (let e : (w / 2 * 2 + 1) / 2 ≡ w / 2 = omega arith in e)
test_bit-set_bit_ne w (suc j) (suc k) h =
    rw half_join (test_bit-set_bit_ne (w / 2) j k (omega arith))

pub test_bit-clear_bit_ne : (w j k : ℕ) → j ≢ k → test_bit (clear_bit w k) j ≡ test_bit w j
unfolding test_bit clear_bit
test_bit-clear_bit_ne w zero zero h = absurd (h refl)
test_bit-clear_bit_ne w zero (suc k) h = rw parity_join
test_bit-clear_bit_ne w (suc j) zero h = rw (let e : w / 2 * 2 / 2 ≡ w / 2 = omega arith in e)
test_bit-clear_bit_ne w (suc j) (suc k) h =
    rw half_join (test_bit-clear_bit_ne (w / 2) j k (omega arith))

-- Setting a bit that is off adds its weight.
pub set_bit-add : (w k : ℕ) → test_bit w k ≡ false → set_bit w k ≡ w + 2 ^ k
unfolding test_bit set_bit
set_bit-add w zero h = ground arith
set_bit-add w (suc k) h = omega (arith, set_bit-add (w / 2) k h, pow-suc 2 k)

pub set_bit_on : (w k : ℕ) → test_bit w k ≡ true → set_bit w k ≡ w
unfolding test_bit set_bit
set_bit_on w zero h = ground arith
set_bit_on w (suc k) h = omega (arith, set_bit_on (w / 2) k h)

pub clear_bit_off : (w k : ℕ) → test_bit w k ≡ false → clear_bit w k ≡ w
unfolding test_bit clear_bit
clear_bit_off w zero h = ground arith
clear_bit_off w (suc k) h = omega (arith, clear_bit_off (w / 2) k h)

-- Clearing a bit that is on takes its weight away.
pub clear_bit-add : (w k : ℕ) → test_bit w k ≡ true → clear_bit w k + 2 ^ k ≡ w
unfolding test_bit clear_bit
clear_bit-add w zero h = ground arith
clear_bit-add w (suc k) h = omega (arith, clear_bit-add (w / 2) k h, pow-suc 2 k)

pub clear_bit-set_bit : (w k : ℕ) → test_bit w k ≡ false → clear_bit (set_bit w k) k ≡ w
clear_bit-set_bit w k h =
    omega (arith, set_bit-add w k h, clear_bit-add (set_bit w k) k (test_bit-set_bit w k))

pub flip_bit-cases :
    (w k : ℕ) → flip_bit w k ≡ (if test_bit w k then clear_bit w k else set_bit w k)
unfolding flip_bit test_bit clear_bit set_bit
flip_bit-cases w zero = ground arith
flip_bit-cases w (suc k) = ground (arith, flip_bit-cases (w / 2) k)

pub flip_bit-flip_bit : (w k : ℕ) → flip_bit (flip_bit w k) k ≡ w
unfolding flip_bit
flip_bit-flip_bit w zero = ground arith
flip_bit-flip_bit w (suc k) =
    rw (half_join, parity_join) (omega (arith, flip_bit-flip_bit (w / 2) k))
