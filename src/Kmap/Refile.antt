-- ===== src/Kmap/Refile.antt =====
-- What the lists hold after a range was freed: `kmap_free_range` of src/src/paging.c.
use spbau_os_hw.Prelude.{
  ℕ, ◌+◌, refl, sym, ap, subst, ◌∙◌, inl, inr, arith, Bool, true, List, ◌∷◌, ◌++◌,
}
use spbau_os_hw.Kmap.{Kmap, kmap_pages, join_prev, join_next, put_free, kmap_free_range}
use spbau_os_hw.Kmap.Tiles.{Tile, Tiled, SameMarks, Tiled-SameMarks, join_left, join_right}
use spbau_os_hw.Kmap.Lists.{
  Holds, here, filed, filed_outside, filed-append, left_st-Holds, right_st-Holds, put_free-Holds,
}
use spbau_os_hw.Kmap.Release.{freed, join_prev_lem, join_next_lem, released}

-- If tiles fill the pages before and behind a range, and the lists hold the free ones of these tiles, each
-- once and on the list of its order, and nothing else, then after `kmap_free_range` they hold the free
-- ones of the new tiles so.
pub kmap_free_range-Holds :
    (st : Kmap) (pre post : List Tile) (range n : ℕ)
    → Tiled st 0 pre range
    → Tiled st (range + n) post kmap_pages
    → Holds st (λ o i. filed 0 pre o i + filed (range + n) post o i)
    → Holds (kmap_free_range range n st) (filed 0 (released pre n post))
unfolding kmap_free_range
kmap_free_range-Holds st pre post range n h k lists =
    let g = join_prev (freed range n st) in
    let a = join_prev_lem st 0 pre range n (λ e. refl) h in
    let left = join_left pre n in
    let behind : ℕ → ℕ → ℕ = λ o i. filed (range + n) post o i in
    let f1 : Holds g.st (λ o i. filed 0 left.0 o i + filed (range + n) post o i) =
      subst (λ (s : Kmap). Holds s (λ o i. filed 0 left.0 o i + filed (range + n) post o i))
        (sym a.left_state)
        (left_st-Holds st 0 pre range n behind h lists (λ o i x y.
          filed_outside st (range + n) post kmap_pages o i k (inl (omega (arith, y))))) in
    let marks : SameMarks 0 kmap_pages st g.st = record {
      same_pages = λ i x y. ap (λ (f : ℕ → ℕ). f i) a.same_pages;
      same_linked = λ i x y. ap (λ (f : ℕ → Bool). f i) a.same_linked;
    } in
    let upper : Tiled g.st (g.range + g.count) post kmap_pages =
      subst (λ b. Tiled g.st b post kmap_pages) (sym a.reach)
        (Tiled-SameMarks st g.st 0 (range + n) post kmap_pages kmap_pages (omega arith)
          (omega arith) marks k) in
    let r = join_next g in
    let b = join_next_lem g.st post g.range g.count upper in
    let before : ℕ → ℕ → ℕ = λ o i. filed 0 left.0 o i in
    let f2 =
      right_st-Holds g.st g.st g.range g.count post before upper
        (λ o i. f1 o i ∙ ap (λ (c : ℕ). filed 0 left.0 o i + filed c post o i) (sym a.reach))
        (λ o i x. filed_outside st 0 left.0 g.range o i a.tiles (inr (omega (arith, x)))) in
    let right = join_right g.count post in
    let rest : ℕ → ℕ → ℕ = λ o i. filed 0 left.0 o i + filed (g.range + right.0) right.1 o i in
    let f3 = put_free-Holds r rest (subst (λ (s : Kmap). Holds s rest) (sym b.right_state) f2) in
    let whole : Holds (put_free r)
        (filed 0 (left.0 ++ record { size = right.0; is_free = true } ∷ right.1)) =
      λ o i.
        f3 o i
        ∙ ap (λ (c : ℕ). here c (record { size = r.count; is_free = true }) o i + rest o i) b.start
        ∙ ap (λ (c : ℕ). here g.range (record { size = c; is_free = true }) o i + rest o i)
            b.count_eq
        ∙ omega (
          arith,
          filed-append st 0 left.0 g.range (record { size = right.0; is_free = true } ∷ right.1) o i
              a.tiles,
        ) in
    subst
      (λ c. Holds (put_free r) (
        filed 0 (
          left.0
          ++ record { size = (join_right c post).0; is_free = true } ∷ (join_right c post).1)))
      a.count_eq whole
