-- ===== src/Text/Strtoul/Scan.antt =====
-- The loop of `strtoul` over the digits that `ulltoa` writes.
use native.Mathlib.Nat.{
  pow-suc, pow-zero, div-one, div-div-eq-div-mul, div-add-mod', mod-lt, mul-pos, mul_comm,
  mod-eq_of_lt, div-le_self, le-div_iff_mul-le, div-lt_iff_lt-mul,
}
use spbau_os_hw.Prelude.{
  ℕ, zero, suc, ◌+◌, ◌-◌, ◌*◌, ◌/◌, ◌%◌, ◌^◌, ◌≤◌, ◌<◌, ◌≡◌, refl, sym, ap, ◌∙◌, ◌⊎◌, inl, inr,
  arith, Bool, true, false, ◌&&◌, ◌||◌, not, some, ltb, ◌==◌, ge→ltb,
}
use spbau_os_hw.Prelude.Bits.{test_bit}
use spbau_os_hw.Text.Memory.{Bytes}
use spbau_os_hw.Text.Ctype.{
  isspace, isdigit, toupper, all_below, all_below_sound, class_bit, islower,
}
use spbau_os_hw.Text.Digits.{digit}
use spbau_os_hw.Text.Strtoul.{ulong_max, digit_of, scan}

-- A digit is read as what it stands for, is no white space, no sign and no NUL, and is `0` only for 0.
abbrev digit_check : ℕ → Bool
digit_check r =
    (digit_of (digit r) == r)
    && not (digit r == 0)
    && not (isspace (digit r))
    && not (digit r == 45)
    && not (digit r == 43)
    && not (digit r == 120 && r == 0)
    && ((r == 0) || not (digit r == 48))

digit_table : all_below 36 digit_check ≡ true
unfolding digit_of isspace isdigit toupper islower test_bit class_bit
digit_table = refl

pub record IsRead (r : ℕ) : Type 0 where
  pub reads : digit_of (digit r) ≡ r
  pub no_nul : (digit r == 0) ≡ false
  pub no_space : isspace (digit r) ≡ false
  pub no_minus : (digit r == 45) ≡ false
  pub no_plus : (digit r == 43) ≡ false
  pub no_zero : (r ≡ 0) ⊎ ((digit r == 48) ≡ false)

pub digit-IsRead : (r : ℕ) → r < 36 → IsRead r
digit-IsRead r h =
    let t = all_below_sound 36 digit_check r digit_table h in
    record {
      reads = ground (arith, t);
      no_nul = ground (arith, t);
      no_space = ground (arith, t);
      no_minus = ground (arith, t);
      no_plus = ground (arith, t);
      no_zero = ground (arith, t);
    }

-- The digits of `v`, and the NUL, stand at `str`.
pub record Spelled (v str b j : ℕ) (m : Bytes) : Type 0 where
  pub above : v < b ^ suc j
  pub below : (j ≡ 0) ⊎ (b ^ j ≤ v)
  pub digit_at : (i : ℕ) → i ≤ j → m (str + i) ≡ digit (v / b ^ (j - i) % b)
  pub ends : m (str + suc j) ≡ 0

-- One digit more.
step_value : (v b n : ℕ) → v / b ^ suc n * b + v / b ^ n % b ≡ v / b ^ n
step_value v b n =
    let e : v / b ^ suc n ≡ v / b ^ n / b =
      ap (λ (x : ℕ). v / x) (pow-suc b n) ∙ sym (div-div-eq-div-mul v (b ^ n) b) in
    ap (λ (x : ℕ). x * b + v / b ^ n % b) e ∙ div-add-mod' (v / b ^ n) b

pub first : (v b : ℕ) → v / b ^ 0 ≡ v
first v b = ap (λ (x : ℕ). v / x) (pow-zero b) ∙ div-one v

-- From the digit with `n` more to come on, the loop ends with the number.
pub scan_lem :
    (f n v str b j : ℕ) (m : Bytes) (c : Bool)
    → n ≤ suc j
    → n < f
    → 2 ≤ b
    → b ≤ 36
    → v < 2 ^ 64
    → Spelled v str b j m
    → (d : Bool) × (scan f b m (record { ptr = str + (suc j - n); ret = v / b ^ n; consumed = c })
        ≡ some (record { ptr = str + suc j; ret = v; consumed = d }))
      × ((c ≡ true) ⊎ (1 ≤ n) → d ≡ true)
unfolding scan
scan_lem zero n v str b j m c h k l u top w = absurd (omega (arith, k))
scan_lem (suc f) zero v str b j m c h k l u top w =
    let z : (m (str + suc j) == 0) ≡ true = rw w.ends refl in
    let off : suc j - 0 ≡ suc j = omega arith in
    (c, rw (first v b, off, z) refl, λ o. elim o [ inl e ↦ e | inr l ↦ absurd (omega (arith, l)) ])
scan_lem (suc f) (suc n) v str b j m c h k l u top w =
    let r : ℕ = v / b ^ n % b in
    let small : r < b = mod-lt (v / b ^ n) (omega (arith, l)) in
    let g : IsRead r = digit-IsRead r (omega (arith, small)) in
    let ch : m (str + (suc j - suc n)) ≡ digit r =
      ap m (omega (arith, h))
      ∙ w.digit_at (j - n) (omega arith)
      ∙ ap (λ (x : ℕ). digit (v / b ^ x % b)) (omega (arith, h)) in
    let sum = step_value v b n in
    let (d, run, o) =
      scan_lem f n v str b j m true (omega (arith, h)) (omega (arith, k)) l u top w in
    let quot = div-le_self v (b ^ n) in
    let same : (v / b ^ suc n * b + r) % 2 ^ 64 ≡ v / b ^ n = omega (arith, sum, quot, top) in
    let fits : ltb ((ulong_max - r) / b) (v / b ^ suc n) ≡ false =
      ge→ltb ((ulong_max - r) / b) (v / b ^ suc n) (
        (le-div_iff_mul-le {k = b} {x = v / b ^ suc n} {y = ulong_max - r} (omega (arith, l))).1
          (omega (arith, sum, quot, top))) in
    let here : suc (str + (suc j - suc n)) ≡ str + (suc j - n) = omega (arith, h) in
    (d, rw (ch, g.no_nul, g.reads, fits, same, here) run, λ p. o (inl refl))

pow_pos_of : (b j : ℕ) → 2 ≤ b → 0 < b ^ j
pow_pos_of b zero l = omega (arith, pow-zero b)
pow_pos_of b (suc j) l =
    omega (arith, pow-suc b j, mul-pos (pow_pos_of b j l) (let p : 0 < b = omega (arith, l) in p))

-- The first digit is 0 only for the number 0.
pub first_digit :
    (v b j : ℕ)
    → 2 ≤ b
    → v < b ^ suc j
    → (j ≡ 0) ⊎ (b ^ j ≤ v)
    → v / b ^ j % b ≡ 0
    → (j ≡ 0) × (v ≡ 0)
first_digit v b j l a o z =
    let pos : 0 < b ^ j = pow_pos_of b j l in
    let low : v / b ^ j < b =
      (div-lt_iff_lt-mul {k = b ^ j} {x = v} {y = b} pos).1
        (omega (arith, a, pow-suc b j, mul_comm b (b ^ j))) in
    let none_in : v / b ^ j ≡ 0 = sym (mod-eq_of_lt low) ∙ z in
    let under : v < b ^ j =
      omega
        (arith, (div-lt_iff_lt-mul {k = b ^ j} {x = v} {y = 1} pos).0 (omega (arith, none_in))) in
    let e : j ≡ 0 = elim o [ inl e ↦ e | inr h ↦ absurd (omega (arith, h, under)) ] in
    (e, omega (arith, under, ap (λ (x : ℕ). b ^ x) e, pow-zero b))

pub first_char : (v str b j : ℕ) (m : Bytes) → Spelled v str b j m → m str ≡ digit (v / b ^ j % b)
first_char v str b j m w =
    ap m (omega arith)
    ∙ w.digit_at 0 (omega arith)
    ∙ ap (λ (x : ℕ). digit (v / b ^ x % b)) (omega arith)
