-- ===== src/Balloc/Minus.antt =====
-- What removing a range of addresses leaves of a set of ranges, which `__balloc_remove_range` of
-- src/src/balloc.c is compared with.
use mathlib.Core.List.{append_assoc}
use spbau_os_hw.Prelude.{
  ℕ, suc, ◌≤◌, ◌<◌, ◌≡◌, refl, sym, ap, subst, ◌∙◌, ◌⊎◌, inl, inr, Bool, true, false, not, ◌&&◌,
  ◌||◌, List, [], ◌∷◌, ◌++◌, ltb, leb, All, All-map, All-append, arith, length, length-append,
  if◌then◌else◌, ge→ltb, ltb→lt, le→leb, gt→leb, Bool-cases,
}
use spbau_os_hw.Balloc.{Range}
use spbau_os_hw.Balloc.Sets.{inside, has, Above, below-Above, Below, has-append}

-- The range, if it is not empty.
abbrev pub part : (begin end : ℕ) → List Range
part begin end = if ltb begin end then record { begin = begin; end = end } ∷ [] else []

pub part_full : (a b : ℕ) → ltb a b ≡ true → part a b ≡ record { begin = a; end = b } ∷ []
part_full a b t = rw t refl

pub part_empty : (a b : ℕ) → ltb a b ≡ false → part a b ≡ []
part_empty a b f = rw f refl

pub part_left : (a b : ℕ) → part a (if ltb a b then b else a) ≡ part a b
part_left a b = elim (Bool-cases (ltb a b)) [
  | inl t ↦ rw (t, t) refl
  | inr f ↦ rw (f, ge→ltb a a (omega arith)) refl
]

pub part_right : (a b : ℕ) → part (if ltb a b then a else b) b ≡ part a b
part_right a b = elim (Bool-cases (ltb a b)) [
  | inl t ↦ rw (t, t) refl
  | inr f ↦ rw (f, ge→ltb b b (omega arith)) refl
]

pub part-Below : (a b c : ℕ) → b < c → Below c (part a b)
part-Below a b c h = elim (Bool-cases (ltb a b)) [
  | inl t ↦ rw t ((ltb→lt a b t, h), tt)
  | inr f ↦ rw f tt
]

pub Below-weaken : (b c : ℕ) (rs : List Range) → b ≤ c → Below b rs → Below c rs
Below-weaken b c rs h s = All-map (λ r t. (t.0, omega (arith, t.1))) rs s

-- What removing the addresses from `begin` to `end` leaves of the ranges.
unfoldable pub minus : (begin end : ℕ) → List Range → List Range
minus begin end [] = []
minus begin end (r ∷ rs) =
    let rest = minus begin end rs in
    if leb r.end begin || leb end r.begin
    then r ∷ rest
    else part r.begin begin ++ part end r.end ++ rest

pub minus-Above : (begin end : ℕ) (rs : List Range) → Above end rs → minus begin end rs ≡ rs
unfolding minus
minus-Above begin end [] s = refl
minus-Above begin end (r ∷ rs) s =
    let e : (leb r.end begin || leb end r.begin) ≡ true = ground (arith, s.0) in
    rw e (ap (r ∷◌) (minus-Above begin end rs (below-Above end (suc r.end) rs (omega arith) s.2)))

pub minus_skip :
    (begin end : ℕ) (r : Range) (rs : List Range)
    → r.end ≤ begin
    → minus begin end (r ∷ rs) ≡ r ∷ minus begin end rs
unfolding minus
minus_skip begin end r rs h = rw (le→leb r.end begin h) refl

pub minus_split :
    (begin end : ℕ) (r : Range) (rs : List Range)
    → begin < r.end
    → r.begin < end
    → Above (suc r.end) rs
    → minus begin end (r ∷ rs) ≡ part r.begin begin ++ part end r.end ++ minus begin end rs
unfolding minus
minus_split begin end r rs h k s = rw (gt→leb r.end begin h, gt→leb end r.begin k) refl

pub length-part : (a b : ℕ) → length (part a b) ≤ 1
length-part a b = ground arith

pub parts_length : (a b c d : ℕ) → length (part a b ++ part c d) ≤ 2
parts_length a b c d = ground arith

pub regroup {ℓ} : {A : Type ℓ} (a b c d : List A) → (a ++ b ++ c) ++ d ≡ a ++ (b ++ c ++ d)
regroup a b c d = simp append_assoc

pub parts-Below :
    (begin end : ℕ) (r : Range) (pre : List Range)
    → begin < r.end
    → r.begin < r.end
    → Below r.begin pre
    → Below (suc r.end) (pre ++ part r.begin begin ++ part end r.end)
parts-Below begin end r pre h k below =
    All-append _ (pre ++ part r.begin begin) (part end r.end)
      (All-append _ pre (part r.begin begin)
        (Below-weaken r.begin (suc r.end) pre (omega arith) below)
        (part-Below r.begin begin (suc r.end) (omega arith)))
      (part-Below end r.end (suc r.end) (omega arith))

pub minus-append :
    (begin end : ℕ) (k post : List Range)
    → All (λ r. r.end ≤ begin) k
    → minus begin end (k ++ post) ≡ k ++ minus begin end post
minus-append begin end [] post a = refl
minus-append begin end (r ∷ k) post a =
    minus_skip begin end r (k ++ post) a.0 ∙ ap (r ∷◌) (minus-append begin end k post a.1)

has-part : (a b x : ℕ) → has (part a b) x ≡ inside a b x
has-part a b x = ground arith

-- An address is in a part of the range that is left, or in another range.
has_cut :
    (begin end x : ℕ) (r : Range) (h : Bool)
    → begin < end
    → begin < r.end
    → r.begin < end
    → ((inside r.begin begin x || inside end r.end x) || (h && not (inside begin end x)))
      ≡ ((inside r.begin r.end x || h) && not (inside begin end x))
has_cut begin end x r h p k l = ground arith

has_skip :
    (begin end x : ℕ) (r : Range) (h : Bool)
    → (r.end ≤ begin) ⊎ (end ≤ r.begin)
    → (inside r.begin r.end x || (h && not (inside begin end x)))
      ≡ ((inside r.begin r.end x || h) && not (inside begin end x))
has_skip begin end x r h p = ground arith

part-Above :
    (a e b c : ℕ) (ys : List Range) → b ≤ a → e < c → b ≤ c → Above c ys → Above b (part a e ++ ys)
part-Above a e b c ys h k l s = elim (Bool-cases (ltb a e)) [
  | inl t ↦ rw t (h, ltb→lt a e t, below-Above (suc e) c ys k s)
  | inr f ↦ rw f (below-Above b c ys l s)
]

pub parts-Above :
    (begin end b : ℕ) (r : Range) (ys : List Range)
    → begin < end
    → begin < r.end
    → r.begin < end
    → b ≤ r.begin
    → r.begin < r.end
    → Above (suc r.end) ys
    → Above b (part r.begin begin ++ part end r.end ++ ys)
parts-Above begin end b r ys h k l q v s =
    let right = λ (m : ℕ) (u : m ≤ end) (w : m ≤ suc r.end).
      part-Above end r.end m (suc r.end) ys u (omega arith) w s in
    subst (Above b) (sym (append_assoc (part r.begin begin) (part end r.end) ys))
      (elim (Bool-cases (ltb r.begin begin)) [
        | inl t ↦
            let o = ltb→lt r.begin begin t in
            part-Above r.begin begin b (suc begin) (part end r.end ++ ys) q (omega arith)
              (omega arith) (right (suc begin) h (omega arith))
        | inr f ↦ rw f (right b (omega arith) (omega arith))
      ])

-- Does the range lie on one side of what is removed?
aside_cases :
    (begin end : ℕ) (r : Range)
    → (((leb r.end begin || leb end r.begin) ≡ true) × ((r.end ≤ begin) ⊎ (end ≤ r.begin)))
      ⊎ (((leb r.end begin || leb end r.begin) ≡ false) × (begin < r.end) × (r.begin < end))
aside_cases begin end r = ground arith

pub minus-IsSeparated :
    (begin end b : ℕ) (rs : List Range) → begin < end → Above b rs → Above b (minus begin end rs)
unfolding minus
minus-IsSeparated begin end b [] h s = tt
minus-IsSeparated begin end b (r ∷ rs) h s =
    let rest = minus-IsSeparated begin end (suc r.end) rs h s.2 in
    elim (aside_cases begin end r) [
      | inl (e, u) ↦ rw e (s.0, s.1, rest)
      | inr (e, u, v) ↦ rw e (parts-Above begin end b r (minus begin end rs) h u v s.0 s.1 rest)
    ]

pub has-parts :
    (begin end x : ℕ) (r : Range) (ys : List Range)
    → has (part r.begin begin ++ part end r.end ++ ys) x
      ≡ ((inside r.begin begin x || inside end r.end x) || has ys x)
has-parts begin end x r ys =
    has-append (part r.begin begin ++ part end r.end) ys x
    ∙ ap (◌|| has ys x) (
        has-append (part r.begin begin) (part end r.end) x
        ∙ rw (has-part r.begin begin x, has-part end r.end x) refl)

pub has-minus :
    (begin end : ℕ) (rs : List Range) (x : ℕ)
    → begin < end
    → has (minus begin end rs) x ≡ (has rs x && not (inside begin end x))
unfolding minus
has-minus begin end [] x h = refl
has-minus begin end (r ∷ rs) x h = elim (aside_cases begin end r) [
  | inl (e, u) ↦ rw (e, has-minus begin end rs x h) (has_skip begin end x r (has rs x) u)
  | inr (e, u, v) ↦
      rw (e, has-parts begin end x r (minus begin end rs), has-minus begin end rs x h)
        (has_cut begin end x r (has rs x) h u v)
]

-- Only a range that goes beyond both ends of what is removed leaves two, and then it is the last.
pub minus_bound :
    (begin end b : ℕ) (rs : List Range) → Above b rs → length (minus begin end rs) ≤ suc (length rs)
unfolding minus
minus_bound begin end b [] s = omega arith
minus_bound begin end b (r ∷ rs) s = elim (aside_cases begin end r) [
  | inl (e, u) ↦ rw e (omega (arith, minus_bound begin end (suc r.end) rs s.2))
  | inr (e, u, v) ↦ rw e (elim (Bool-cases (ltb end r.end)) [
    | inl t ↦
        let l = ltb→lt end r.end t in
        rw (minus-Above begin end rs (below-Above end (suc r.end) rs (omega arith) s.2)) (
          omega (
            arith,
            parts_length r.begin begin end r.end,
            length-append (part r.begin begin ++ part end r.end) rs,
          ))
    | inr f ↦ omega (
      arith,
      minus_bound begin end (suc r.end) rs s.2,
      length-part r.begin begin,
      ap length (part_empty end r.end f),
      length-append (part r.begin begin ++ part end r.end) (minus begin end rs),
      length-append (part r.begin begin) (part end r.end),
    )
  ])
]
