-- ===== src/Prelude/Words.antt =====
-- `a | b` and `a & b` of two words, digit by digit.
use Prim.Native.Nat.{ℕ, zero, suc, ◌+◌, ◌-◌, ◌*◌, ◌/◌, ◌%◌, ◌^◌, ◌≤◌, ◌<◌}
use mathlib.Core.Path.{◌≡◌, refl, sym, ◌∙◌, ap}
use native.Mathlib.Omega.{arith}
use native.Mathlib.Nat.{pow-suc, pow-succ', mul_assoc, div-div-eq-div-mul}
use spbau_os_hw.Prelude.Tests.{◌==◌, if◌then◌else◌}

-- The words have `n` bits.
unfoldable pub word_or : (n a b : ℕ) → ℕ
word_or zero a b = 0
word_or (suc n) a b = word_or n (a / 2) (b / 2) * 2 + (if a % 2 == 1 then 1 else b % 2)

pub word_or_zero : (n a : ℕ) → a < 2 ^ n → word_or n a 0 ≡ a
unfolding word_or
word_or_zero zero a h = omega (arith, h)
word_or_zero (suc n) a h =
    rw (word_or_zero n (a / 2) (omega (arith, h, pow-suc 2 n))) (ground arith)

pow_pos : (n : ℕ) → 0 < 2 ^ n
pow_pos zero = omega arith
pow_pos (suc n) = omega (arith, pow-suc 2 n, pow_pos n)

twice : (k x : ℕ) → x * 2 ^ suc k ≡ x * 2 ^ k * 2
twice k x = ap (λ z. x * z) (pow-suc 2 k) ∙ sym (mul_assoc x (2 ^ k) 2)

-- Words that share no bit: one has only bits from `k` on, the other only bits below.
pub word_or-add :
    (n k x b : ℕ)
    → b < 2 ^ k
    → x * 2 ^ k < 2 ^ n
    → b < 2 ^ n
    → word_or n (x * 2 ^ k) b ≡ x * 2 ^ k + b
unfolding word_or
word_or-add zero k x b h l m = omega (arith, l, m)
word_or-add (suc n) zero x b h l m =
    let none : b ≡ 0 = omega (arith, h) in
    let same : x * 2 ^ 0 ≡ x = omega arith in
    rw (none, same) (word_or_zero (suc n) x (omega (arith, l)) ∙ omega arith)
word_or-add (suc n) (suc k) x b h l m =
    let y = x * 2 ^ k in
    let e : x * 2 ^ suc k ≡ y * 2 = twice k x in
    let half : y * 2 / 2 ≡ y = omega arith in
    let small : y < 2 ^ n = omega (arith, e, l, pow-suc 2 n) in
    let rest =
      word_or-add n k x (b / 2) (omega (arith, h, pow-suc 2 k)) small
        (omega (arith, m, pow-suc 2 n)) in
    rw (e, half, rest) (ground arith)

-- A bit that is on already.
pub word_or-on : (n k a : ℕ) → a < 2 ^ n → a / 2 ^ k % 2 ≡ 1 → word_or n a (2 ^ k) ≡ a
unfolding word_or
word_or-on zero k a h o = omega (arith, h)
word_or-on (suc n) zero a h o =
    let half : 2 ^ 0 / 2 ≡ 0 = omega arith in
    rw (half, word_or_zero n (a / 2) (omega (arith, h, pow-suc 2 n))) (ground (arith, o))
word_or-on (suc n) (suc k) a h o =
    let half : 2 ^ suc k / 2 ≡ 2 ^ k = omega (arith, pow-suc 2 k) in
    let even : 2 ^ suc k % 2 ≡ 0 = omega (arith, pow-suc 2 k) in
    let twice : a / 2 / 2 ^ k ≡ a / 2 ^ suc k =
      div-div-eq-div-mul a 2 (2 ^ k) ∙ ap (λ z. a / z) (sym (pow-succ' 2 k)) in
    let next : a / 2 / 2 ^ k % 2 ≡ 1 = rw twice o in
    rw (half, even, word_or-on n k (a / 2) (omega (arith, h, pow-suc 2 n)) next) (ground arith)

pub word_or_bound : (n k a b : ℕ) → a < 2 ^ k → b < 2 ^ k → word_or n a b < 2 ^ k
unfolding word_or
word_or_bound zero k a b h m = omega (arith, h)
word_or_bound (suc n) zero a b h m =
    let rest = word_or_bound n zero (a / 2) (b / 2) (omega (arith, h)) (omega (arith, m)) in
    ground (arith, rest, h, m)
word_or_bound (suc n) (suc k) a b h m =
    let rest =
      word_or_bound n k (a / 2) (b / 2) (omega (arith, h, pow-suc 2 k))
        (omega (arith, m, pow-suc 2 k)) in
    ground (arith, rest, pow-suc 2 k)

pub word_or_odd : (n a b : ℕ) → word_or (suc n) a b % 2 ≡ (if a % 2 == 1 then 1 else b % 2)
unfolding word_or
word_or_odd n a b = ground arith

pub word_or_comm : (n a b : ℕ) → word_or n a b ≡ word_or n b a
unfolding word_or
word_or_comm zero a b = refl
word_or_comm (suc n) a b = rw (word_or_comm n (a / 2) (b / 2)) (ground arith)

-- The digits from `k` on, and those below.
pub word_or-split :
    (k n x y a b : ℕ)
    → a < 2 ^ k
    → b < 2 ^ k
    → word_or (k + n) (x * 2 ^ k + a) (y * 2 ^ k + b) ≡ word_or n x y * 2 ^ k + word_or k a b
unfolding word_or
word_or-split zero n x y a b h m =
    let low : (z c : ℕ) → c < 1 → z * 1 + c ≡ z = λ z c l. omega (arith, l) in
    let none : 0 + n ≡ n = omega arith in rw (low x a h, low y b m, none) (omega arith)
word_or-split (suc k) n x y a b h m =
    let more : suc k + n ≡ suc (k + n) = omega arith in
    let half : (z c : ℕ) → (z * 2 + c) / 2 ≡ z + c / 2 = λ z c. omega arith in
    let parity : (z c : ℕ) → (z * 2 + c) % 2 ≡ c % 2 = λ z c. omega arith in
    let rest =
      word_or-split k n x y (a / 2) (b / 2) (omega (arith, h, pow-suc 2 k))
        (omega (arith, m, pow-suc 2 k)) in
    rw
      (
        more,
        twice k x,
        twice k y,
        half (x * 2 ^ k) a,
        half (y * 2 ^ k) b,
        parity (x * 2 ^ k) a,
        parity (y * 2 ^ k) b,
        twice k (word_or n x y),
        rest,
      )
      (omega arith)

-- `a & b`.
unfoldable pub word_and : (n a b : ℕ) → ℕ
word_and zero a b = 0
word_and (suc n) a b = word_and n (a / 2) (b / 2) * 2 + (if a % 2 == 1 then b % 2 else 0)

-- A mask whose lowest `k` bits are off clears these bits.
pub word_and_mask :
    (n k x : ℕ) → k ≤ n → x < 2 ^ n → word_and n x (2 ^ n - 2 ^ k) ≡ x / 2 ^ k * 2 ^ k
unfolding word_and
word_and_mask zero k x h l = let z : k ≡ 0 = omega (arith, h) in rw z (omega (arith, l))
word_and_mask (suc n) zero x h l =
    let p = pow_pos n in
    let half : (2 ^ suc n - 2 ^ 0) / 2 ≡ 2 ^ n - 2 ^ 0 = omega (arith, pow-suc 2 n, p) in
    let odd : (2 ^ suc n - 2 ^ 0) % 2 ≡ 1 = omega (arith, pow-suc 2 n, p) in
    let rest = word_and_mask n zero (x / 2) (omega arith) (omega (arith, l, pow-suc 2 n)) in
    rw (half, odd, rest) (ground arith)
word_and_mask (suc n) (suc k) x h l =
    let half : (2 ^ suc n - 2 ^ suc k) / 2 ≡ 2 ^ n - 2 ^ k =
      omega (arith, pow-suc 2 n, pow-suc 2 k) in
    let even : (2 ^ suc n - 2 ^ suc k) % 2 ≡ 0 = omega (arith, pow-suc 2 n, pow-suc 2 k) in
    let rest = word_and_mask n k (x / 2) (omega (arith, h)) (omega (arith, l, pow-suc 2 n)) in
    let deeper : x / 2 / 2 ^ k ≡ x / 2 ^ suc k =
      div-div-eq-div-mul x 2 (2 ^ k) ∙ ap (λ z. x / z) (sym (pow-succ' 2 k)) in
    rw (half, even, rest, deeper, twice k (x / 2 ^ suc k)) (ground arith)
