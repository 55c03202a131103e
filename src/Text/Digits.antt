-- ===== src/Text/Digits.antt =====
-- `ulltoa` of src/src/stdlib.c: the digits of a number, the last first, and then turned round in place.
-- The value is below 2^64. The loops run on fuel; each has as much as its own arguments say.
use native.Mathlib.Decide.{ℕ_discrete, dec_lt}
use native.Mathlib.Nat.{
  pow-suc, pow-zero, div-lt_iff_lt-mul, le-div_iff_mul-le, div-lt_self, div-div-eq-div-mul, div-one,
  div-le_self,
}
use spbau_os_hw.Prelude.{
  ℕ, zero, suc, ◌+◌, ◌-◌, ◌*◌, ◌/◌, ◌%◌, ◌^◌, ◌≤◌, ◌<◌, ◌≡◌, ◌≢◌, refl, sym, ◌∙◌, ap, arith, ◌⊎◌,
  inl, inr, update, ◌==◌, if◌then◌else◌, List, [], ◌∷◌, Option, none, some, get_or, ltb, leb, ◌&&◌,
  ==_refl, ==_ne, ==_iff,
}
use spbau_os_hw.Text.Memory.{Bytes}

abbrev pub digits : List ℕ
digits =
    48 ∷ 49 ∷ 50 ∷ 51 ∷ 52 ∷ 53 ∷ 54 ∷ 55 ∷ 56 ∷ 57 ∷ 97 ∷ 98 ∷ 99 ∷ 100 ∷ 101 ∷ 102 ∷ 103 ∷ 104
    ∷ 105 ∷ 106 ∷ 107 ∷ 108 ∷ 109 ∷ 110 ∷ 111 ∷ 112 ∷ 113 ∷ 114 ∷ 115 ∷ 116 ∷ 117 ∷ 118 ∷ 119 ∷ 120
    ∷ 121 ∷ 122 ∷ []

-- `digits[r]`, for a remainder `r` below 36, that is for a base of at most 36. From 36 on the code
-- reads past the array, which is undefined; the 0 there is no account of the code.
abbrev pub digit : ℕ → ℕ
digit r = get_or digits r 0

-- The first loop of `ulltoa`, for a base of at most 36: the pointer behind the digits, and the memory.
unfoldable pub write_digits : (f value ptr base : ℕ) → Bytes → Option (ℕ × Bytes)
write_digits zero value ptr base m = none
write_digits (suc f) value ptr base m =
    let w : Bytes = update m ptr (digit (value % base)) in
    let rest = write_digits f (value / base) (suc ptr) base w in
    if value / base == 0 then some (suc ptr, w) else rest

-- The second loop of `ulltoa`.
unfoldable pub turn_round : (f start ptr : ℕ) → Bytes → Option Bytes
turn_round zero start ptr m = none
turn_round (suc f) start ptr m =
    let rest = turn_round f (suc start) (ptr - 1) (update (update m ptr (m start)) start (m ptr)) in
    if ltb start ptr then rest else some m

-- `ulltoa` behind its first loop: the NUL is written, and the digits are turned round.
unfoldable pub ulltoa_end : (str : ℕ) → Option (ℕ × Bytes) → Option Bytes
ulltoa_end str none = none
ulltoa_end str (some (ptr, m)) = turn_round ptr str (ptr - 1) (update m ptr 0)

unfoldable pub ulltoa : (value str base : ℕ) → Bytes → Option Bytes
ulltoa value str base m = ulltoa_end str (write_digits (suc value) value str base m)

-- `ultoa` and `utoa`
unfoldable pub ultoa : (value str base : ℕ) → Bytes → Option Bytes
ultoa value str base m = ulltoa value str base m

unfoldable pub utoa : (value str base : ℕ) → Bytes → Option Bytes
utoa value str base m = ulltoa value str base m

-- `lltoa` of a `long long`, given as its word of 64 bits; `-value` is that of the word.
unfoldable pub lltoa : (value str base : ℕ) → Bytes → Option Bytes
lltoa value str base m =
    if leb (2 ^ 63) value
    then ulltoa ((2 ^ 64 - value) % 2 ^ 64) (suc str) base (update m str 45)
    else ulltoa value str base m

-- `ltoa`; and `itoa` of an `int`, given as its word of 32 bits, which is extended by its sign.
unfoldable pub ltoa : (value str base : ℕ) → Bytes → Option Bytes
ltoa value str base m = lltoa value str base m

unfoldable pub itoa : (value str base : ℕ) → Bytes → Option Bytes
itoa value str base m =
    lltoa (if leb (2 ^ 31) value then value + (2 ^ 64 - 2 ^ 32) else value) str base m

turn_round_lem :
    (f s p : ℕ) (m : Bytes)
    → p < f
    → (k : Bytes) × (turn_round f s p m ≡ some k)
      × ((a : ℕ) → k a ≡ (if leb s a && leb a p then m (s + p - a) else m a))
unfolding turn_round
turn_round_lem zero s p m l = absurd (omega arith)
turn_round_lem (suc f) s p m l = elim (dec_lt s p) [
  | no d ↦ (m, ground arith, λ a. stay a d)
  | yes d ↦
      let w : Bytes = update (update m p (m s)) s (m p) in
      let (k, e, h) = turn_round_lem f (suc s) (p - 1) w (omega arith) in
      (k, ground (arith, e), λ a. h a ∙ swap a d)
]
  where
    stay : (a : ℕ) → (s < p → ⊥) → m a ≡ (if leb s a && leb a p then m (s + p - a) else m a)
    stay a d = ground (arith, middle)
      where
        middle : s ≤ a → a ≤ p → m a ≡ m (s + p - a)
        middle x y = ap m (omega arith)

    swap :
        (a : ℕ)
        → s < p
        → (if leb (suc s) a && leb a (p - 1)
            then update (update m p (m s)) s (m p) (suc s + (p - 1) - a)
            else update (update m p (m s)) s (m p) a)
          ≡ (if leb s a && leb a p then m (s + p - a) else m a)
    swap a d = elim (ℕ_discrete a s) [
      | yes e ↦ let x : m p ≡ m (s + p - a) = ap m (omega arith) in ground (arith, x)
      | no n ↦ elim (ℕ_discrete a p) [
        | yes e ↦ let x : m s ≡ m (s + p - a) = ap m (omega arith) in ground (arith, x)
        | no o ↦
            let x : suc s ≤ a → a < p → m (suc s + (p - 1) - a) ≡ m (s + p - a) =
              λ y z. ap m (omega arith) in
            ground (arith, x)
      ]
    ]

-- The digits that the first loop leaves at `p`: the number of them is `j + 1`.
pub record Written (v b p j : ℕ) (m k : Bytes) : Type 0 where
  pub above : v < b ^ suc j
  pub below : (j ≡ 0) ⊎ (b ^ j ≤ v)
  pub digit_at : (i : ℕ) → i < suc j → k (p + i) ≡ digit (v / b ^ i % b)
  pub outside : (a : ℕ) → (a < p) ⊎ (p + suc j ≤ a) → k a ≡ m a

first : (v b : ℕ) → v / b ^ 0 ≡ v
first v b = ap (λ (x : ℕ). v / x) (pow-zero b) ∙ div-one v

last_Written :
    (v p b : ℕ) (m : Bytes) → 2 ≤ b → v / b ≡ 0 → Written v b p 0 m (update m p (digit (v % b)))
last_Written v p b m l e = record {
  above = omega (
    arith,
    pow-suc b 0 ∙ ap (λ (x : ℕ). x * b) (pow-zero b),
    (div-lt_iff_lt-mul {k = b} {x = v} {y = 1} (omega arith)).0 (omega arith),
  );
  below = inl refl;
  digit_at = λ i h. here i h;
  outside = λ a o. ground arith;
}
  where
    here : (i : ℕ) → i < 1 → update m p (digit (v % b)) (p + i) ≡ digit (v / b ^ i % b)
    here zero h =
        rw ((==_iff (p + 0) p).1 (omega arith)) (ap (λ (x : ℕ). digit (x % b)) (sym (first v b)))
    here (suc i) h = absurd (omega arith)

more_Written :
    (v p b j : ℕ) (m k : Bytes)
    → 2 ≤ b
    → v / b ≢ 0
    → Written (v / b) b (suc p) j (update m p (digit (v % b))) k
    → Written v b p (suc j) m k
more_Written v p b j m k l n w = record {
  above = omega (
    arith,
    pow-suc b (suc j),
    (div-lt_iff_lt-mul {k = b} {x = v} {y = b ^ suc j} (omega arith)).0 w.above,
  );
  below = inr (
      omega (
        arith,
        pow-suc b j,
        (le-div_iff_mul-le {k = b} {x = b ^ j} {y = v} (omega arith)).0 (low w.below),
      ));
  digit_at = λ i h. there i h;
  outside = λ a o. w.outside a (beside a o) ∙ ground arith;
}
  where
    low : (j ≡ 0) ⊎ (b ^ j ≤ v / b) → b ^ j ≤ v / b
    low (inl e) = rw e (omega (arith, pow-zero b))
    low (inr h) = h

    beside : (a : ℕ) → (a < p) ⊎ (p + suc (suc j) ≤ a) → (a < suc p) ⊎ (suc p + suc j ≤ a)
    beside a o = ground arith

    there : (i : ℕ) → i < suc (suc j) → k (p + i) ≡ digit (v / b ^ i % b)
    there zero h =
        ap k (omega arith)
        ∙ w.outside p (inl (omega arith))
        ∙ rw (==_refl p) (ap (λ (x : ℕ). digit (x % b)) (sym (first v b)))
    there (suc i) h =
        ap k (omega arith)
        ∙ w.digit_at i (omega arith)
        ∙ ap (λ (x : ℕ). digit (x % b))
            (div-div-eq-div-mul v b (b ^ i) ∙ ap (λ (x : ℕ). v / x) (omega (arith, pow-suc b i)))

write_digits_lem :
    (f v p b : ℕ) (m : Bytes)
    → 2 ≤ b
    → v < f
    → (j : ℕ) × (k : Bytes) × (write_digits f v p b m ≡ some (p + suc j, k)) × Written v b p j m k
unfolding write_digits
write_digits_lem zero v p b m l h = absurd (omega arith)
write_digits_lem (suc f) v p b m l h =
    let w : Bytes = update m p (digit (v % b)) in
    elim (ℕ_discrete (v / b) 0) [
      | yes e ↦ (
        0,
        w,
        rw ((==_iff (v / b) 0).1 e) (ap (λ (q : ℕ). some (q, w)) (omega arith)),
        last_Written v p b m l e,
      )
      | no n ↦
          let pos : 0 < v = omega (arith, div-le_self v b) in
          let (j, k, e, r) =
            write_digits_lem f (v / b) (suc p) b w l
              (omega (arith, div-lt_self {n = v} {k = b} pos (omega arith))) in
          (
            suc j,
            k,
            rw (==_ne (v / b) 0 n) (e ∙ ap (λ (q : ℕ). some (q, k)) (omega arith)),
            more_Written v p b j m k l n r,
          )
    ]

turned :
    (str j : ℕ) (w : Bytes) (i : ℕ)
    → i ≤ j
    → (if leb str (str + i) && leb (str + i) (str + suc j - 1)
        then update w (str + suc j) 0 (str + (str + suc j - 1) - (str + i))
        else update w (str + suc j) 0 (str + i))
      ≡ w (str + (j - i))
turned str j w i h =
    let e : w (str + (str + suc j - 1) - (str + i)) ≡ w (str + (j - i)) = ap w (omega arith) in
    ground (arith, e)

spared :
    (str j : ℕ) (w : Bytes) (a : ℕ)
    → (a < str) ⊎ (str + suc j < a)
    → (if leb str a && leb a (str + suc j - 1)
        then update w (str + suc j) 0 (str + (str + suc j - 1) - a)
        else update w (str + suc j) 0 a)
      ≡ w a
spared str j w a o = ground arith

-- For a base from 2 to 36 `ulltoa` ends. For some `j` it leaves at `str` the `j + 1` digits of the
-- number in that base, the first digit first, and the NUL behind them; no digit is missing, and the
-- first is not a superfluous zero; and it leaves every other address.
pub ulltoa_lem :
    (v str b : ℕ) (m : Bytes)
    → 2 ≤ b
    → b ≤ 36
    → (j : ℕ) × (k : Bytes) × (ulltoa v str b m ≡ some k)
      × (v < b ^ suc j)
      × ((j ≡ 0) ⊎ (b ^ j ≤ v))
      × ((i : ℕ) → i ≤ j → k (str + i) ≡ digit (v / b ^ (j - i) % b))
      × (k (str + suc j) ≡ 0)
      × ((a : ℕ) → (a < str) ⊎ (str + suc j < a) → k a ≡ m a)
unfolding ulltoa ulltoa_end
ulltoa_lem v str b m l digits_enough =
    let (j, w, e, r) = write_digits_lem (suc v) v str b m l (omega arith) in
    let n : Bytes = update w (str + suc j) 0 in
    let (k, f, t) = turn_round_lem (str + suc j) str (str + suc j - 1) n (omega arith) in
    (
      j,
      k,
      rw e f,
      r.above,
      r.below,
      (λ i h.
          t (str + i)
          ∙ turned str j w i h
          ∙ r.digit_at (j - i) (omega arith)
          ∙ ap (λ (x : ℕ). digit (v / b ^ x % b)) (omega arith)),
      t (str + suc j) ∙ ground arith,
      λ a o. t a ∙ spared str j w a o ∙ r.outside a (ground arith),
    )
