-- ===== src/Kmap/Search.antt =====
-- Where `kmap_alloc_range` of src/src/paging.c looks for a free range.
use native.Mathlib.Decide.{dec_lt, ℕ_discrete}
use spbau_os_hw.Prelude.{
  ℕ, zero, suc, ◌+◌, ◌-◌, ◌^◌, ◌≤◌, ◌<◌, ◌≡◌, ◌≢◌, refl, sym, ap, ◌∙◌, ◌⊎◌, inl, inr, arith, Bool,
  true, false, ◌&&◌, List, [], ◌∷◌, Option, none, some, Bool-cases, ltb, leb, All, ==_refl, ltb→lt,
}
use spbau_os_hw.Kmap.{
  Kmap, kmap_orders, kmap_pages, kmap_order, order_loop, find_in, kmap_find_free, find_order_from,
}
use spbau_os_hw.Kmap.Tiles.{Tile, Tiled}
use spbau_os_hw.Kmap.Lists.{times, order_of, filed}

-- The order is the first whose power of two is not below the number of pages, or the bound.
record Order (from f n r : ℕ) : Type 0 where
  pub bound : r ≤ from + f
  pub start : from ≤ r
  pub low : (j : ℕ) → from ≤ j → j < r → 2 ^ j < n
  pub high : (r < from + f) → n ≤ 2 ^ r

order_loop-Order : (f from n : ℕ) → Order from f n (order_loop f from n)
unfolding order_loop
order_loop-Order zero from n = record {
  bound = omega arith;
  start = omega arith;
  low = λ j a b. absurd (omega (arith, a, b));
  high = λ a. absurd (omega (arith, a));
}
order_loop-Order (suc f) from n =
    let k = order_loop-Order f (suc from) n in
    elim (Bool-cases (ltb (2 ^ from) n)) [
      | inr c ↦ rw c (record {
        bound = omega arith;
        start = omega arith;
        low = λ j a b. absurd (omega (arith, a, b));
        high = λ a. ground (arith, c);
      })
      | inl c ↦ rw c (record {
        bound = omega (arith, k.bound);
        start = omega (arith, k.start);
        low = λ j a b. elim (ℕ_discrete j from) [
          | yes e ↦ rw e (ltb→lt (2 ^ from) n c)
          | no d ↦ k.low j (omega arith) b
        ];
        high = λ a. k.high (omega (arith, a));
      })
    ]

-- The orders at which the search looks.
abbrev IsSearched : (pages o : ℕ) → Type 0
IsSearched pages o =
    (kmap_order pages ≤ o) ⊎ ((suc o ≡ kmap_order pages) × (pages < 2 ^ kmap_order pages))

-- Less than 2^16 pages are searched at the order of each range that is long enough.
order_of-IsSearched :
    (pages size : ℕ)
    → 0 < pages
    → pages ≤ size
    → pages < 2 ^ 16
    → (order_of size < kmap_orders) × IsSearched pages (order_of size)
unfolding kmap_order
order_of-IsSearched pages size p l small =
    let u : ℕ = order_loop kmap_orders 0 (size + 1) in
    let v : ℕ = order_loop kmap_orders 0 pages in
    let a = order_loop-Order kmap_orders 0 (size + 1) in
    let b = order_loop-Order kmap_orders 0 pages in
    let le : v ≤ u = elim (dec_lt u v) [
      | no n ↦ omega arith
      | yes n ↦
          absurd (omega (arith, l, b.low u (omega arith) n, a.high (omega (arith, n, b.bound))))
    ] in
    let pos : 1 ≤ u = elim (ℕ_discrete u 0) [
      | no n ↦ omega arith
      | yes e ↦ absurd (omega (arith, p, l, a.high (omega (arith, e)), ap (λ (j : ℕ). 2 ^ j) e))
    ] in
    (
      omega (arith, a.bound, pos),
      elim (dec_lt v u) [
        | yes n ↦ inl (omega (arith, n))
        | no n ↦
            let same : v ≡ u = omega (arith, le) in
            inr (
              omega (arith, pos, same),
              elim (ℕ_discrete v 16) [
                | yes e ↦ omega (arith, small, ap (λ (j : ℕ). 2 ^ j) e)
                | no d ↦
                    omega (
                      arith,
                      l,
                      a.high (omega (arith, same, d, b.bound)),
                      ap (λ (j : ℕ). 2 ^ j) same,
                    )
              ],
            )
      ],
    )

-- A search that fails has seen that each range of the list is too short.
find_in-none :
    (st : Kmap) (pages b : ℕ) (rs : List ℕ)
    → find_in pages st rs ≡ none
    → 0 < times b rs
    → st.pages b < pages
unfolding find_in
find_in-none st pages b [] e h = absurd (omega (arith, h))
find_in-none st pages b (r ∷ rs) e h = elim (Bool-cases (leb pages (st.pages r))) [
  | inl c ↦ absurd (let n : some r ≡ none = rw c at e in cc)
  | inr c ↦ elim (ℕ_discrete b r) [
    | yes d ↦ rw d (ground (arith, c))
    | no d ↦ find_in-none st pages b rs (rw c at e) (ground (arith, h, d))
  ]
]

find_order_from-none :
    (st : Kmap) (f order pages o : ℕ)
    → find_order_from f order pages st ≡ none
    → order ≤ o
    → o < order + f
    → kmap_find_free o pages st ≡ none
unfolding find_order_from
find_order_from-none st zero order pages o e l h = absurd (omega (arith, l, h))
find_order_from-none st (suc f) order pages o e l h =
    split (kmap_find_free order pages st) refl (λ d n.
      find_order_from-none st f (suc order) pages o n (omega (arith, l, d)) (omega (arith, h)))
  where
    split :
        (r : Option ℕ)
        → kmap_find_free order pages st ≡ r
        → (o ≢ order
            → find_order_from f (suc order) pages st ≡ none
            → kmap_find_free o pages st ≡ none)
        → kmap_find_free o pages st ≡ none
    split (some r) c later = absurd (let n : some r ≡ none = rw c at e in cc)
    split none c later = elim (ℕ_discrete o order) [ yes d ↦ rw d c | no d ↦ later d (rw c at e) ]

-- Both searches of `kmap_alloc_range` fail.
pub record IsMissing (st : Kmap) (pages : ℕ) : Type 0 where
  pub above : find_order_from (kmap_orders - kmap_order pages) (kmap_order pages) pages st ≡ none
  pub below :
      (ltb pages (2 ^ kmap_order pages) ≡ false)
      ⊎ (kmap_find_free (kmap_order pages - 1) pages st ≡ none)

missing_at :
    (st : Kmap) (pages o : ℕ)
    → IsMissing st pages
    → o < kmap_orders
    → IsSearched pages o
    → kmap_find_free o pages st ≡ none
missing_at st pages o m l (inl h) =
    find_order_from-none st (kmap_orders - kmap_order pages) (kmap_order pages) pages o m.above h
      (omega (arith, l, h))
missing_at st pages o m l (inr (e, h)) = elim m.below [
  | inl c ↦ absurd (ground (arith, c, h))
  | inr c ↦
      let same : kmap_order pages - 1 ≡ o = omega (arith, e) in
      ap (λ (j : ℕ). kmap_find_free j pages st) (sym same) ∙ c
]

-- Is the tile free and long enough for less than 2^16 pages?
abbrev pub fits : (pages : ℕ) → Tile → Bool
fits pages t = t.is_free && (leb pages t.size && ltb pages (2 ^ 16))

-- Then no tile is free and long enough.
pub missing_fits :
    (st : Kmap) (pages base : ℕ) (ts : List Tile)
    → 0 < pages
    → IsMissing st pages
    → Tiled st base ts kmap_pages
    → ((o i : ℕ) → filed base ts o i ≤ times i (st.free_ranges o))
    → All (λ t. fits pages t ≡ false) ts
unfolding kmap_find_free
missing_fits st pages base [] p m d h = tt
missing_fits st pages base (t ∷ ts) p m d h = (
  elim (Bool-cases (fits pages t)) [
    | inr c ↦ c
    | inl c ↦
        let free : t.is_free ≡ true = ground (arith, c) in
        let long : pages ≤ t.size = ground (arith, c) in
        let (l, s) = order_of-IsSearched pages t.size p long (ground (arith, c)) in
        let o : ℕ = order_of t.size in
        let one = h o base in
        let is_o = ==_refl o in
        let is_base = ==_refl base in
        let listed : 0 < times base (st.free_ranges o) = ground (arith, one, free, is_o, is_base) in
        let short =
          find_in-none st pages base (st.free_ranges o) (missing_at st pages o m l s) listed in
        absurd (omega (arith, short, (d.0).first_page, long))
  ],
  missing_fits st pages (base + t.size) ts p m d.1 (λ o i. omega (arith, h o i)),
)
