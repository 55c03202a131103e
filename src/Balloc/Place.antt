-- ===== src/Balloc/Place.antt =====
-- The address that an allocation of src/src/balloc.c tries in a range.
use native.Mathlib.Nat.{
  div-add-mod, div-add-mod', mod-lt, mul-mod_left, suc-mul, lt_of_mul-lt-mul_right,
  mul-le-mul_right, pow-suc, pow-le-pow_right,
}
use native.Mathlib.Decide.{dec_lt}
use spbau_os_hw.Prelude.{ℕ, zero, suc, ◌+◌, ◌-◌, ◌*◌, ◌/◌, ◌%◌, ◌^◌, ◌≤◌, ◌<◌, ◌≡◌, arith}
use spbau_os_hw.Prelude.Words.{word_and_mask}
use spbau_os_hw.Balloc.{Range, align_at, clip_begin}

multiple_least : (q a align : ℕ) → q * align < a + align → a % align ≡ 0 → q * align ≤ a
multiple_least q a align h e =
    let j = div-add-mod' a align in
    let c : q * align < suc (a / align) * align = omega (arith, j, e, suc-mul (a / align) align) in
    let l : q ≤ a / align = omega (arith, lt_of_mul-lt-mul_right align c) in
    omega (arith, mul-le-mul_right align l, j, e)

-- A power of two, for which the code's mask makes an address a multiple.
abbrev pub IsPower : ℕ → Type 0
IsPower align = (k : ℕ) × (align ≡ 2 ^ k)

pow_pos : (k : ℕ) → 0 < 2 ^ k
pow_pos zero = omega arith
pow_pos (suc k) = omega (arith, pow-suc 2 k, pow_pos k)

big_power : (k : ℕ) → 64 < k → 2 ^ 64 ≤ 2 ^ k
big_power k l = pow-le-pow_right (omega arith) {i = 64} (omega (arith, l))

small_exponent : (k : ℕ) → 2 ^ k ≤ 2 ^ 63 → k ≤ 64
small_exponent k h = elim (dec_lt 64 k) [
  | yes l ↦ absurd (omega (arith, h, big_power k l))
  | no n ↦ omega arith
]

-- For a power of two the mask rounds up by division.
align_at-div :
    (align b : ℕ)
    → IsPower align
    → align ≤ 2 ^ 63
    → align_at align b ≡ (b + (align - 1)) % 2 ^ 64 / align * align
align_at-div align b (k, e) h =
    let small : 2 ^ k ≤ 2 ^ 63 = rw e at h in
    let p = pow_pos k in
    let mask : (2 ^ k + (2 ^ 64 - 1)) % 2 ^ 64 ≡ 2 ^ k - 1 = omega (arith, small, p) in
    let clear : 2 ^ 64 - 1 - (2 ^ k - 1) ≡ 2 ^ 64 - 2 ^ k = omega (arith, small, p) in
    rw (e, mask, clear)
      (word_and_mask 64 k ((b + (2 ^ k - 1)) % 2 ^ 64) (small_exponent k small) (omega arith))

IsPower-pos : (align : ℕ) → IsPower align → 0 < align
IsPower-pos align (k, e) = rw e (pow_pos k)

-- The address tried is the least multiple of `align` from `b` on.
align_at_lem :
    (align b : ℕ)
    → IsPower align
    → align ≤ 2 ^ 63
    → b + align ≤ 2 ^ 64
    → (align_at align b % align ≡ 0)
      × (b ≤ align_at align b)
      × (align_at align b < b + align)
      × ((a : ℕ) → a % align ≡ 0 → b ≤ a → align_at align b ≤ a)
align_at_lem align b power top k =
    let h : 0 < align = IsPower-pos align power in
    let e : (b + (align - 1)) % 2 ^ 64 ≡ b + (align - 1) = omega arith in
    let d = div-add-mod (b + (align - 1)) align in
    let m = mod-lt (b + (align - 1)) h in
    rw (align_at-div align b power top, e)
      (
        mul-mod_left _ align,
        omega (arith, d, m),
        omega (arith, d, m),
        λ a f g. multiple_least ((b + (align - 1)) / align) a align (omega (arith, d, m)) f,
      )

-- The block that is tried in a range.
pub tried :
    (size align low high : ℕ) (r : Range)
    → IsPower align
    → size + align ≤ 2 ^ 63
    → low < r.end
    → r.begin < r.end
    → r.end ≤ 2 ^ 63
    → let addr = align_at align (clip_begin low r) in
      ((addr + size) % 2 ^ 64 ≡ addr + size)
      × (addr % align ≡ 0)
      × (low ≤ addr)
      × (r.begin ≤ addr)
      × ((a : ℕ) → a % align ≡ 0 → low ≤ a → r.begin ≤ a → addr ≤ a)
tried size align low high r ha small far q top =
    let (e, le, lt, least) =
      align_at_lem align (clip_begin low r) ha (omega (arith, small)) (ground arith) in
    (ground arith, e, ground arith, ground arith, λ a u v w. least a u (ground arith))
