-- ===== src/Kmap/Alloc.antt =====
-- Allocation of a range: `kmap_alloc_range` of src/src/paging.c.
use native.Mathlib.Decide.{ℕ_discrete}
use spbau_os_hw.Prelude.{
  ℕ, zero, suc, ◌+◌, ◌-◌, ◌^◌, ◌≤◌, ◌<◌, ◌≡◌, refl, sym, subst, ap, ◌∙◌, ◌⊎◌, inl, inr, arith, true,
  false, ==_refl, ==_ne, List, [], ◌∷◌, ◌++◌, Option, none, some, Bool-cases, ltb, leb, leb→le, All,
}
use spbau_os_hw.Kmap.{
  Kmap, kmap_orders, kmap_pages, kmap_order, find_in, kmap_find_free, find_order_from, cut_range,
  kmap_alloc_range,
}
use spbau_os_hw.Kmap.Tiles.{Tile, Tiled}
use spbau_os_hw.Kmap.Cut.{taken_from, cut_range-Tiled}
use spbau_os_hw.Kmap.Lists.{Holds, times, filed, filed_outside}
use spbau_os_hw.Kmap.Search.{IsMissing, fits, missing_fits}

-- A free tile of at least `n` pages begins at a page, if a free tile does.
pub record AtFree (st : Kmap) (ts : List Tile) (r : ℕ) : Type 0 where
  pub pre : List Tile
  pub tile : Tile
  pub post : List Tile
  pub split : ts ≡ pre ++ tile ∷ post
  pub before : Tiled st 0 pre r
  pub from_here : Tiled st r (tile ∷ post) kmap_pages
  pub free : tile.is_free ≡ true

-- Where a count is not 0, a free tile begins.
counted :
    (st : Kmap) (base : ℕ) (ts : List Tile) (end o i : ℕ)
    → Tiled st base ts end
    → 0 < filed base ts o i
    → (pre : List Tile) × (t : Tile) × (post : List Tile) × (ts ≡ pre ++ t ∷ post)
      × Tiled st base pre i
      × Tiled st i (t ∷ post) end
      × (t.is_free ≡ true)
counted st base [] end o i d h = absurd (omega (arith, h))
counted st base (t ∷ ts) end o i d h = elim (ℕ_discrete i base) [
  | yes e ↦
      let p = (d.0).some_pages in
      let none = filed_outside st (base + t.size) ts end o i d.1 (inl (omega (arith, e, p))) in
      (
        [],
        t,
        ts,
        refl,
        sym e,
        subst (λ b. Tiled st b (t ∷ ts) end) (sym e) d,
        ground (arith, h, none),
      )
  | no n ↦
      let c = ==_ne i base n in
      let (pre, u, post, e, before, from_here, free) =
        counted st (base + t.size) ts end o i d.1 (ground (arith, h, c)) in
      (t ∷ pre, u, post, ap (λ (us : List Tile). t ∷ us) e, (d.0, before), from_here, free)
]

-- What holds of each number that a list holds, holds of all of the list.
All-times : (P : ℕ → Type 0) (xs : List ℕ) → ((x : ℕ) → 0 < times x xs → P x) → All P xs
All-times P [] h = tt
All-times P (x ∷ xs) h =
    let e = ==_refl x in (h x (ground (arith, e)), All-times P xs (λ y l. h y (omega (arith, l))))

-- Every range on a list is a free tile.
abbrev IsFiled : Kmap → List Tile → Type 0
IsFiled st ts = (order : ℕ) → All (AtFree st ts) (st.free_ranges order)

Holds-IsFiled :
    (st : Kmap) (ts : List Tile) → Tiled st 0 ts kmap_pages → Holds st (filed 0 ts) → IsFiled st ts
Holds-IsFiled st ts d h o = All-times (AtFree st ts) (st.free_ranges o) (λ r l.
    let (pre, t, post, e, before, from_here, free) =
      counted st 0 ts kmap_pages o r d (omega (arith, l, h o r)) in
    record {
      pre = pre;
      tile = t;
      post = post;
      split = e;
      before = before;
      from_here = from_here;
      free = free;
    })

-- What a search gives: nothing, or the beginning of a free tile that is long enough.
abbrev Finds : Kmap → List Tile → (pages : ℕ) → Option ℕ → Type 0
Finds st ts pages o = (o ≡ none) ⊎ ((r : ℕ) × (o ≡ some r) × (pages ≤ st.pages r) × AtFree st ts r)

find_in-Finds :
    (st : Kmap) (ts : List Tile) (pages : ℕ) (rs : List ℕ)
    → All (AtFree st ts) rs
    → Finds st ts pages (find_in pages st rs)
unfolding find_in
find_in-Finds st ts pages [] h = inl refl
find_in-Finds st ts pages (r ∷ rs) h = elim (Bool-cases (leb pages (st.pages r))) [
  | inl t ↦ inr (r, rw t refl, leb→le pages (st.pages r) t, h.0)
  | inr t ↦ rw t (find_in-Finds st ts pages rs h.1)
]

find_order_from-Finds :
    (st : Kmap) (ts : List Tile) (f order pages : ℕ)
    → IsFiled st ts
    → Finds st ts pages (find_order_from f order pages st)
unfolding find_order_from kmap_find_free
find_order_from-Finds st ts zero order pages h = inl refl
find_order_from-Finds st ts (suc f) order pages h =
    elim (find_in-Finds st ts pages (st.free_ranges order) (h order)) [
      | inl e ↦ rw e (find_order_from-Finds st ts f (suc order) pages h)
      | inr (r, e, l, at) ↦ inr (r, rw e refl, l, at)
    ]

-- The range `r` is taken: the tiles are as they should be, and the lists hold the free ones.
pub record Allocated (st t : Kmap) (ts : List Tile) (pages r : ℕ) : Type 0 where
  pub at : AtFree st ts r
  pub long : pages ≤ at.tile.size
  pub tiles : Tiled t 0 (taken_from at.pre at.tile pages at.post) kmap_pages
  pub lists : Holds t (filed 0 (taken_from at.pre at.tile pages at.post))

allocated :
    (st : Kmap) (ts : List Tile) (pages r : ℕ)
    → 0 < pages
    → Holds st (filed 0 ts)
    → pages ≤ st.pages r
    → AtFree st ts r
    → Allocated st (cut_range r pages st) ts pages r
allocated st ts pages r p h l at =
    let long : pages ≤ at.tile.size = omega (arith, l, at.from_here.0.first_page) in
    let (tiles, lists) =
      cut_range-Tiled st at.pre at.tile at.post r pages p long at.before at.from_here at.free
        (λ o i. h o i ∙ ap (λ (us : List Tile). filed 0 us o i) at.split) in
    record { at = at; long = long; tiles = tiles; lists = lists }

-- If tiles fill all pages and the lists hold the free tiles, each once and on the list of its order,
-- and nothing else, `kmap_alloc_range` of some pages either fails, and then 2^16 pages or more are
-- asked for, or no free tile is long enough; or it cuts a free tile that is long enough: its first
-- pages become a busy tile, and what is left of it is free, merged with the tile behind it if that is
-- free. Tiles fill all pages then, and the lists hold the free ones.
pub kmap_alloc_range-Tiled :
    (st : Kmap) (ts : List Tile) (pages : ℕ)
    → 0 < pages
    → Tiled st 0 ts kmap_pages
    → Holds st (filed 0 ts)
    → ((kmap_alloc_range pages st ≡ none) × All (λ t. fits pages t ≡ false) ts)
      ⊎ ((r : ℕ) × (t : Kmap) × (kmap_alloc_range pages st ≡ some (r, t))
          × Allocated st t ts pages r)
unfolding kmap_alloc_range kmap_find_free
kmap_alloc_range-Tiled st ts pages p d h =
    let start = kmap_order pages in
    let files = Holds-IsFiled st ts d h in
    let none_fits : IsMissing st pages → All (λ t. fits pages t ≡ false) ts =
      λ m. missing_fits st pages 0 ts p m d (λ o i. omega (arith, h o i)) in
    elim (find_order_from-Finds st ts (kmap_orders - start) start pages files) [
      | inr (r, e, l, at) ↦
          inr (r, cut_range r pages st, rw e refl, allocated st ts pages r p h l at)
      | inl e ↦ elim (Bool-cases (ltb pages (2 ^ start))) [
        | inr f ↦ inl (rw (e, f) refl, none_fits (record { above = e; below = inl f }))
        | inl f ↦
            elim (find_in-Finds st ts pages (st.free_ranges (start - 1)) (files (start - 1))) [
              | inl g ↦ inl (rw (e, f, g) refl, none_fits (record { above = e; below = inr g }))
              | inr (r, g, l, at) ↦
                  inr (r, cut_range r pages st, rw (e, f, g) refl, allocated st ts pages r p h l at)
            ]
      ]
    ]
