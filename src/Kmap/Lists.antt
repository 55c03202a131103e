-- ===== src/Kmap/Lists.antt =====
-- What the lists of free ranges hold, against the tiles: `list_del` and `list_add` in src/src/paging.c.
use native.Mathlib.Decide.{ℕ_discrete}
use spbau_os_hw.Prelude.{
  ℕ, ◌+◌, ◌-◌, ◌≤◌, ◌<◌, ◌≡◌, ◌≢◌, refl, ◌∙◌, ap, ◌⊎◌, inl, inr, arith, true, ◌&&◌, List, [], ◌∷◌,
  ◌++◌, if◌then◌else◌, ◌==◌, ==_refl, ==_ne, Bool-cases,
}
use spbau_os_hw.Prelude.Without.{without}
use spbau_os_hw.Kmap.{Kmap, kmap_pages, kmap_order, take_off, Freed, put_free}
use spbau_os_hw.Kmap.Tiles.{Tile, Tiled, Tiled-le, join_left, join_right}

-- How often a list holds a number.
abbrev pub times : ℕ → List ℕ → ℕ
times i [] = 0
times i (x ∷ xs) = (if i == x then 1 else 0) + times i xs

times-without :
    (a i : ℕ) (xs : List ℕ)
    → times i (without a xs) ≡ (if i == a then times i xs - 1 else times i xs)
unfolding without
times-without a i [] = ground arith
times-without a i (x ∷ xs) = elim (ℕ_discrete x a) [
  | yes e ↦ rw (e, ==_refl a) (ground arith)
  | no n ↦ let rest = times-without a i xs in rw (==_ne x a n) (ground (arith, rest, n))
]

-- The order of the list for a free range.
abbrev pub order_of : ℕ → ℕ
order_of n = kmap_order (n + 1) - 1

-- Does the tile from `base` on ask for `i` on the list of the order `o`?
abbrev pub here : (base : ℕ) → Tile → (o i : ℕ) → ℕ
here base t o i = if t.is_free && (o == order_of t.size) && i == base then 1 else 0

-- The number of free tiles of the order `o` that begin at `i`.
abbrev pub filed : (base : ℕ) → List Tile → (o i : ℕ) → ℕ
filed base [] o i = 0
filed base (t ∷ ts) o i = here base t o i + filed (base + t.size) ts o i

-- The lists hold what a count says.
abbrev pub Holds : Kmap → (ℕ → ℕ → ℕ) → Type 0
Holds st g = (o i : ℕ) → times i (st.free_ranges o) ≡ g o i

here_elsewhere : (base : ℕ) (t : Tile) (o i : ℕ) → i ≢ base → here base t o i ≡ 0
here_elsewhere base t o i n = let e = ==_ne i base n in ground (arith, e)

here_le : (base : ℕ) (t : Tile) (o i : ℕ) → here base t o i ≤ 1
here_le base t o i = ground arith

-- No tile begins outside of the pages that the tiles fill.
pub filed_outside :
    (st : Kmap) (base : ℕ) (ts : List Tile) (end o i : ℕ)
    → Tiled st base ts end
    → (i < base) ⊎ (end ≤ i)
    → filed base ts o i ≡ 0
filed_outside st base [] end o i h k = refl
filed_outside st base (t ∷ ts) end o i h k =
    let p = (h.0).some_pages in
    let l = Tiled-le st (base + t.size) ts end h.1 in
    let a = here_elsewhere base t o i (λ e. ground (arith, e, k, p, l)) in
    let b = filed_outside st (base + t.size) ts end o i h.1 (ground (arith, k, p)) in
    omega (arith, a, b)

pub filed-append :
    (st : Kmap) (base : ℕ) (xs : List Tile) (mid : ℕ) (ys : List Tile) (o i : ℕ)
    → Tiled st base xs mid
    → filed base (xs ++ ys) o i ≡ filed base xs o i + filed mid ys o i
filed-append st base [] mid ys o i h = ap (λ (b : ℕ). filed b ys o i) h ∙ omega arith
filed-append st base (x ∷ xs) mid ys o i h =
    omega (arith, filed-append st (base + x.size) xs mid ys o i h.1)

-- `list_del` of a range takes its tile off the count.
pub take_off-Holds :
    (st : Kmap) (base : ℕ) (t : Tile) (rest : ℕ → ℕ → ℕ)
    → t.is_free ≡ true
    → Holds st (λ o i. here base t o i + rest o i)
    → ((o : ℕ) → rest o base ≡ 0)
    → Holds (take_off base st) rest
unfolding take_off
take_off-Holds st base t rest f h z o i = elim (ℕ_discrete i base) [
  | yes e ↦
      let k = h o i in
      let l = here_le base t o i in
      let none : rest o i ≡ 0 = ap (rest o) e ∙ z o in
      let same : (i == base) ≡ true = ap (λ (j : ℕ). j == base) e ∙ ==_refl base in
      times-without base i (st.free_ranges o) ∙ rw same (omega (arith, k, l, none))
  | no n ↦
      let k = h o i in
      let l = here_elsewhere base t o i n in
      times-without base i (st.free_ranges o) ∙ rw (==_ne i base n) (omega (arith, k, l))
]

-- The state that joining with the tile on the left leaves.
abbrev pub left_st : Kmap → ℕ → List Tile → Kmap
left_st st base [] = st
left_st st base (t ∷ []) = if t.is_free then take_off base st else st
left_st st base (t ∷ u ∷ ts) = left_st st (base + t.size) (u ∷ ts)

pub left_st-Holds :
    (st : Kmap) (base : ℕ) (pre : List Tile) (mid n : ℕ) (rest : ℕ → ℕ → ℕ)
    → Tiled st base pre mid
    → Holds st (λ o i. filed base pre o i + rest o i)
    → ((o i : ℕ) → base ≤ i → i < mid → rest o i ≡ 0)
    → Holds (left_st st base pre) (λ o i. filed base (join_left pre n).0 o i + rest o i)
left_st-Holds st base [] mid n rest d h z = h
left_st-Holds st base (t ∷ []) mid n rest d h z = elim (Bool-cases t.is_free) [
  | inl f ↦
      let p = (d.0).some_pages in
      let g : Holds st (λ o i. here base t o i + rest o i) = λ o i. omega (arith, h o i) in
      let k =
        take_off-Holds st base t rest f g (λ o. z o base (omega arith) (omega (arith, p, d.1))) in
      λ o i. rw f (k o i ∙ omega arith)
  | inr f ↦ λ o i. rw f (let k = h o i in rw f at k)
]
left_st-Holds st base (t ∷ u ∷ ts) mid n rest d h z =
    let p = (d.0).some_pages in
    let r : ℕ → ℕ → ℕ = λ o i. here base t o i + rest o i in
    let k =
      left_st-Holds st (base + t.size) (u ∷ ts) mid n r d.1 (λ o i. h o i ∙ omega arith)
        (λ o i a b.
          let c = here_elsewhere base t o i (λ e. omega (arith, e, a, p)) in
          omega (arith, c, z o i (omega (arith, a)) b)) in
    λ o i. k o i ∙ omega arith

-- Likewise for the tile on the right.
abbrev pub right_st : Kmap → ℕ → List Tile → Kmap
right_st st base [] = st
right_st st base (t ∷ ts) = if t.is_free then take_off base st else st

pub right_st-Holds :
    (st s : Kmap) (range n : ℕ) (post : List Tile) (rest : ℕ → ℕ → ℕ)
    → Tiled s (range + n) post kmap_pages
    → Holds st (λ o i. rest o i + filed (range + n) post o i)
    → ((o i : ℕ) → range + n ≤ i → rest o i ≡ 0)
    → let right = join_right n post in
      Holds (right_st st (range + n) post) (λ o i. rest o i + filed (range + right.0) right.1 o i)
right_st-Holds st s range n [] rest d h z = h
right_st-Holds st s range n (t ∷ ts) rest d h z = elim (Bool-cases t.is_free) [
  | inl f ↦
      let p = (d.0).some_pages in
      let after : ℕ → ℕ → ℕ = λ o i. rest o i + filed (range + n + t.size) ts o i in
      let g : Holds st (λ o i. here (range + n) t o i + after o i) = λ o i. h o i ∙ omega arith in
      let none : (o : ℕ) → after o (range + n) ≡ 0 = λ o.
        let c =
          filed_outside s (range + n + t.size) ts kmap_pages o (range + n) d.1
            (inl (omega (arith, p))) in
        omega (arith, c, z o (range + n) (omega arith)) in
      let k = take_off-Holds st (range + n) t after f g none in
      let same : range + n + t.size ≡ range + (n + t.size) = omega arith in
      λ o i. rw f (k o i ∙ ap (λ (b : ℕ). rest o i + filed b ts o i) same)
  | inr f ↦ λ o i. rw f (let k = h o i in rw f at k)
]

-- `list_add` of the range that is freed puts its tile into the count.
pub put_free-Holds :
    (g : Freed) (rest : ℕ → ℕ → ℕ)
    → Holds g.st rest
    → Holds
        (put_free g)
        (λ o i. here g.range (record { size = g.count; is_free = true }) o i + rest o i)
unfolding put_free
put_free-Holds g rest h o i = elim (ℕ_discrete o (order_of g.count)) [
  | yes e ↦
      let same : (o == order_of g.count) ≡ true =
        ap (λ (j : ℕ). j == order_of g.count) e ∙ ==_refl (order_of g.count) in
      let k = h o i in
      let at = ap (λ (j : ℕ). times i (g.st.free_ranges j)) e in rw same (ground (arith, k, at))
  | no n ↦ rw (==_ne o (order_of g.count) n) (h o i ∙ omega arith)
]
