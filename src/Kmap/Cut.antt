-- ===== src/Kmap/Cut.antt =====
-- Taking pages from a free range: the end of `kmap_alloc_range` of src/src/paging.c.
use spbau_os_hw.Prelude.{
  ℕ, ◌+◌, ◌-◌, ◌≤◌, ◌<◌, ◌≡◌, refl, subst, inl, inr, ◌∙◌, ap, arith, true, false, List, [], ◌∷◌,
  ◌++◌, if◌then◌else◌, Bool-cases, ltb, ltb→lt, update, ==_refl, ==_ne,
}
use spbau_os_hw.Kmap.{Kmap, kmap_pages, take_off, cut_range}
use spbau_os_hw.Kmap.Tiles.{Tile, Marked, Tiled, Tiled-append, SameMarks, Tiled-SameMarks}
use spbau_os_hw.Kmap.Release.{released, kmap_free_range-Tiled}
use spbau_os_hw.Kmap.Refile.{kmap_free_range-Holds}
use spbau_os_hw.Kmap.Lists.{Holds, filed, filed_outside, filed-append, take_off-Holds}

abbrev busy : ℕ → Tile
busy n = record { size = n; is_free = false }

-- What taking the first `n` pages of a free tile makes of the tiles.
abbrev pub taken_from : List Tile → Tile → ℕ → List Tile → List Tile
taken_from pre t n post =
    if ltb n t.size then released (pre ++ busy n ∷ []) (t.size - n) post else pre ++ busy n ∷ post

-- If the lists hold the free tiles, from a range that a free tile of at least `n` pages fills, `n` pages are taken; tiles fill all pages
-- again, and what is left of the range is free, merged with the tile behind it if that is free; and the lists hold the free tiles again.
pub cut_range-Tiled :
    (st : Kmap) (pre : List Tile) (t : Tile) (post : List Tile) (range n : ℕ)
    → 0 < n
    → n ≤ t.size
    → Tiled st 0 pre range
    → Tiled st range (t ∷ post) kmap_pages
    → t.is_free ≡ true
    → Holds st (filed 0 (pre ++ t ∷ post))
    → Tiled (cut_range range n st) 0 (taken_from pre t n post) kmap_pages
      × Holds (cut_range range n st) (filed 0 (taken_from pre t n post))
unfolding cut_range take_off
cut_range-Tiled st pre t post range n some_pages fits h k free lists =
    let taken : Kmap = record {
      pages = update (update st.pages range n) (range + n - 1) n;
      linked = update st.linked range false;
      free_ranges = (take_off range st).free_ranges;
    } in
    let below : SameMarks 0 range st taken = record {
      same_pages =
          λ i a b. rw (==_ne i (range + n - 1) (omega arith), ==_ne i range (omega arith)) refl;
      same_linked = λ i a b. rw (==_ne i range (omega arith)) refl;
    } in
    let above : SameMarks (range + t.size) kmap_pages st taken = record {
      same_pages =
          λ i a b. rw (==_ne i (range + n - 1) (omega arith), ==_ne i range (omega arith)) refl;
      same_linked = λ i a b. rw (==_ne i range (omega arith)) refl;
    } in
    let lower = Tiled-SameMarks st taken 0 0 pre range range (omega arith) (omega arith) below h in
    let upper =
      Tiled-SameMarks st taken (range + t.size) (range + t.size) post kmap_pages kmap_pages
        (omega arith) (omega arith) above k.1 in
    let mark : Marked taken range (busy n) = record {
      some_pages = some_pages;
      first_page = ground arith;
      last_page = rw (==_refl (range + n - 1)) refl;
      on_list = rw (==_refl range) refl;
    } in
    let front = Tiled-append taken 0 pre range (busy n ∷ []) (range + n) lower (mark, refl) in
    let rest : ℕ → ℕ → ℕ = λ o i. filed 0 pre o i + filed (range + t.size) post o i in
    let holds : Holds taken rest =
      take_off-Holds st range t rest free
        (λ o i. lists o i ∙ omega (arith, filed-append st 0 pre range (t ∷ post) o i h))
        (λ o.
          let a = filed_outside st 0 pre range o range h (inr (omega arith)) in
          let b =
            filed_outside st (range + t.size) post kmap_pages o range k.1
              (inl (omega (arith, (k.0).some_pages))) in
          omega (arith, a, b)) in
    elim (Bool-cases (ltb n t.size)) [
      | inl c ↦
          let less = ltb→lt n t.size c in
          let at : range + t.size ≡ range + n + (t.size - n) = omega arith in
          rw (k.0.first_page, c)
            (
              kmap_free_range-Tiled taken (pre ++ busy n ∷ []) post (range + n) (t.size - n)
                  (omega arith) front (subst (λ b. Tiled taken b post kmap_pages) at upper),
              kmap_free_range-Holds taken (pre ++ busy n ∷ []) post (range + n) (t.size - n) front
                  (subst (λ b. Tiled taken b post kmap_pages) at upper)
                  (λ o i.
                    holds o i
                    ∙ omega (
                      arith,
                      filed-append st 0 pre range (busy n ∷ []) o i h,
                      ap (λ b. filed b post o i) at,
                    )),
            )
      | inr c ↦
          let at : range + t.size ≡ range + n = ground (arith, fits, c) in
          rw (k.0.first_page, c)
            (
              Tiled-append taken 0 pre range (busy n ∷ post) kmap_pages lower
                  (mark, subst (λ b. Tiled taken b post kmap_pages) at upper),
              λ o i.
                  holds o i
                  ∙ omega (
                    arith,
                    filed-append st 0 pre range (busy n ∷ post) o i h,
                    ap (λ b. filed b post o i) at,
                  ),
            )
    ]
