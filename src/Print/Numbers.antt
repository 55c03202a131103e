-- ===== src/Print/Numbers.antt =====
-- The numbers that `print_number` of src/src/print.c prints.
use native.Mathlib.Nat.{pow-le-pow_left, pow-le-pow_right, mod-lt}
use spbau_os_hw.Prelude.{
  ℕ, zero, suc, ◌+◌, ◌-◌, ◌/◌, ◌%◌, ◌^◌, ◌≤◌, ◌<◌, ◌≡◌, ◌≢◌, refl, sym, ◌∙◌, ap, ◌⊎◌, inl, inr,
  arith, Bool, true, false, List, ◌∷◌, some, length, get_or, ltb, leb, ◌==◌, if◌then◌else◌, update,
  Bool-cases, leb→le, Option,
}
use spbau_os_hw.Prelude.Partial.{◌>>=◌}
use spbau_os_hw.Text.Memory.{Bytes, Stored, strlen, strlen-Stored}
use spbau_os_hw.Text.Digits.{digit, ulltoa, lltoa, ulltoa_lem}
use spbau_os_hw.Text.Strtoul.Scan.{digit-IsRead}
use spbau_os_hw.Print.{Spec, read_text, base_of, value_of, number_text}

-- A text is the digits of a number in a base, the first digit first, with none missing and no
-- superfluous zero.
pub record IsNumeral (v b : ℕ) (t : List ℕ) : Type 0 where
  pub top : ℕ
  pub size : length t ≡ suc top
  pub all_digits : v < b ^ suc top
  pub no_zeros : (top ≡ 0) ⊎ (b ^ top ≤ v)
  pub digits : (i : ℕ) → i ≤ top → get_or t i 0 ≡ digit (v / b ^ (top - i) % b)

length-read_text : (n p : ℕ) (m : Bytes) → length (read_text n p m) ≡ n
length-read_text zero p m = refl
length-read_text (suc n) p m = ap suc (length-read_text n (suc p) m)

get_or-read_text : (n p i : ℕ) (m : Bytes) → i < n → get_or (read_text n p m) i 0 ≡ m (p + i)
get_or-read_text zero p i m h = absurd (omega (arith, h))
get_or-read_text (suc n) p zero m h = ap m (omega arith)
get_or-read_text (suc n) p (suc i) m h =
    get_or-read_text n (suc p) i m (omega (arith, h)) ∙ ap m (omega arith)

read_text-Stored :
    (n p : ℕ) (m : Bytes)
    → ((i : ℕ) → i < n → m (p + i) ≢ 0)
    → m (p + n) ≡ 0
    → Stored m p (read_text n p m)
read_text-Stored zero p m h z = (let e : p + 0 ≡ p = omega arith in rw e at z)
read_text-Stored (suc n) p m h z =
    let here : p + 0 ≡ p = omega arith in
    let next : (i : ℕ) → suc p + i ≡ p + suc i = λ i. omega arith in
    (
      refl,
      (rw here at (h 0 (omega arith))),
      read_text-Stored n (suc p) m (λ i l. rw (next i) (h (suc i) (omega (arith, l))))
          (rw (next n) z),
    )

-- A word has at most 22 digits in a base from 8 on.
few_digits : (v b j : ℕ) → v < 2 ^ 64 → 8 ≤ b → (j ≡ 0) ⊎ (b ^ j ≤ v) → j < 22
few_digits v b j h k o = elim o [
  | inl e ↦ omega (arith, e)
  | inr l ↦ elim (Bool-cases (ltb j 22)) [
    | inl c ↦ ground (arith, c)
    | inr c ↦
        let big : 22 ≤ j = ground (arith, c) in
        let long : 8 ^ 22 ≤ 8 ^ j = pow-le-pow_right (omega arith) big in
        absurd (omega (arith, h, l, long, pow-le-pow_left k j))
  ]
]

-- What `ulltoa` leaves at `p`, read as a text.
record Left (v b p n : ℕ) (m k : Bytes) : Type 0 where
  pub numeral : IsNumeral v b (read_text n p k)
  pub stored : Stored k p (read_text n p k)
  pub few : n ≤ 22
  pub before : (a : ℕ) → a < p → k a ≡ m a

below_base : (x b : ℕ) → 8 ≤ b → b ≤ 16 → x % b < 36
below_base x b lo hi = let l : x % b < b = mod-lt x (omega (arith, lo)) in omega (arith, l, hi)

clash : (d : ℕ) → digit d ≡ 0 → (digit d == 0) ≡ false → ⊥
clash d z n = let no : true ≡ false = rw z at n in cc

ulltoa_text :
    (v p b : ℕ) (m : Bytes)
    → v < 2 ^ 64
    → 8 ≤ b
    → b ≤ 16
    → (n : ℕ) × (k : Bytes) × (ulltoa v p b m ≡ some k) × Left v b p n m k
ulltoa_text v p b m h lo hi =
    let (j, k, e, above, below, digits, nul, same) =
      ulltoa_lem v p b m (omega (arith, lo)) (omega (arith, hi)) in
    let small : (x : ℕ) → x % b < 36 = λ x. below_base x b lo hi in
    (
      suc j,
      k,
      e,
      record {
        numeral = record {
          top = j;
          size = length-read_text (suc j) p k;
          all_digits = above;
          no_zeros = below;
          digits = λ i l. get_or-read_text (suc j) p i k (omega (arith, l)) ∙ digits i l;
        };
        stored =
            read_text-Stored (suc j) p k
              (λ i l z.
                let d = v / b ^ (j - i) % b in
                let at : digit d ≡ 0 = sym (digits i (omega (arith, l))) ∙ z in
                let no = (digit-IsRead d (small (v / b ^ (j - i)))).no_nul in clash d at no)
              nul;
        few = few_digits v b j h lo below;
        before = λ a l. same a (inl l);
      },
    )

-- The words that are printed.
value_of_small : (spec : Spec) (w : ℕ) → w < 2 ^ 64 → value_of spec w < 2 ^ 64
value_of_small spec w h = ground (arith, h)

base_of-cases : (spec : Spec) → (8 ≤ base_of spec) × (base_of spec ≤ 16)
base_of-cases spec = (ground arith, ground arith)

printed :
    (n : ℕ) (k : Bytes)
    → Stored k 0 (read_text n 0 k)
    → n < 64
    → (strlen 64 0 k >>= λ n. some (read_text n 0 k)) ≡ some (read_text n 0 k)
printed n k s l =
    let e = strlen-Stored 64 0 k (read_text n 0 k) s (rw (length-read_text n 0 k) l) in
    rw (e, length-read_text n 0 k) refl

-- `print_number` behind the choice of the value and the base.
abbrev blank : Bytes
blank = λ a. 0

abbrev printed_word : (unsigned : Bool) (v b : ℕ) → Option (List ℕ)
printed_word unsigned v b = (if unsigned then ulltoa v 0 b blank else lltoa v 0 b blank) >>= λ k.
    strlen 64 0 k >>= λ n. some (read_text n 0 k)

-- The text for a value: the sign of a negative one, and the digits.
abbrev pub IsPrinted : (unsigned : Bool) (v b : ℕ) → Option (List ℕ) → Type 0
IsPrinted unsigned v b o =
    (t : List ℕ) × (((unsigned ≡ false)
        × (2 ^ 63 ≤ v)
        × (o ≡ some (45 ∷ t))
        × IsNumeral (2 ^ 64 - v) b t)
      ⊎ (((unsigned ≡ true) ⊎ (v < 2 ^ 63)) × (o ≡ some t) × IsNumeral v b t))

word_text :
    (unsigned : Bool) (v b : ℕ)
    → v < 2 ^ 64
    → 8 ≤ b
    → b ≤ 16
    → IsPrinted unsigned v b (printed_word unsigned v b)
unfolding lltoa
word_text true v b h lo hi =
    let (n, k, e, l) = ulltoa_text v 0 b blank h lo hi in
    (
      read_text n 0 k,
      inr (inl refl, rw (e, printed n k l.stored (omega (arith, l.few))) refl, l.numeral),
    )
word_text false v b h lo hi = elim (Bool-cases (leb (2 ^ 63) v)) [
  | inr p ↦
      let (n, k, e, l) = ulltoa_text v 0 b blank h lo hi in
      let low : v < 2 ^ 63 = ground (arith, p) in
      (
        read_text n 0 k,
        inr (inr low, rw (p, e, printed n k l.stored (omega (arith, l.few))) refl, l.numeral),
      )
  | inl p ↦
      let big : 2 ^ 63 ≤ v = leb→le (2 ^ 63) v p in
      let minus : (2 ^ 64 - v) % 2 ^ 64 ≡ 2 ^ 64 - v = omega (arith, big, h) in
      let signed : Bytes = update blank 0 45 in
      let (n, k, e, l) = ulltoa_text (2 ^ 64 - v) 1 b signed (omega (arith, big)) lo hi in
      let sign : k 0 ≡ 45 = l.before 0 (omega arith) in
      let stored : Stored k 0 (read_text (suc n) 0 k) =
        (refl, (λ z. omega (arith, z, sign)), l.stored) in
      let run : printed_word false v b ≡ some (read_text (suc n) 0 k) =
        rw (p, minus, e, printed (suc n) k stored (omega (arith, l.few))) refl in
      (read_text n 1 k, inl (refl, big, run ∙ ap (λ c. some (c ∷ read_text n 1 k)) sign, l.numeral))
]

-- For each word `print_number` prints the digits of its value in the base that the spec gives, with a
-- `-` before those of its absolute value if it is a signed one and negative.
pub number_text_lem :
    (spec : Spec) (w : ℕ)
    → w < 2 ^ 64
    → IsPrinted spec.unsigned (value_of spec w) (base_of spec) (number_text spec w)
unfolding number_text
number_text_lem spec w h =
    let (lo, hi) = base_of-cases spec in
    word_text spec.unsigned (value_of spec w) (base_of spec) (value_of_small spec w h) lo hi
