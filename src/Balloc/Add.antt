-- ===== src/Balloc/Add.antt =====
-- Adding a range: `__balloc_add_range` of src/src/balloc.c.
use spbau_os_hw.Prelude.{
  ℕ, suc, ◌-◌, ◌≤◌, ◌<◌, ◌≡◌, refl, ap, ◌∙◌, Bool, true, false, not, ◌&&◌, ◌||◌, List, [], ◌∷◌,
  ◌++◌, All, arith, lt→ltb, ge→ltb, gt→leb,
}
use spbau_os_hw.Prelude.Run.{ok}
use spbau_os_hw.RbTree.Search.{upto, from}
use spbau_os_hw.Balloc.{
  Range, Ranges, merge_prev, merge_next, settle, place, add_range, balloc_alloc_node,
}
use spbau_os_hw.Balloc.Sets.{inside, has, Above, IsSeparated, all_nodes, or_comm}
use spbau_os_hw.Balloc.Grown.{starts_below, NoneWithin, place-Grown, behind_range, settle_behind}

-- With a gap on both sides the new range only comes between.
pub place_apart :
    (begin end nodes : ℕ) (pre post : List Range)
    → begin < end
    → All (λ r. (r.begin < r.end) × (r.end < begin)) pre
    → Above (suc end) post
    → place begin end nodes (pre ++ post)
      ≡ record { nodes = nodes; set = pre ++ record { begin = begin; end = end } ∷ post }
unfolding settle merge_prev merge_next
place_apart begin end nodes [] [] h a s = refl
place_apart begin end nodes [] (q ∷ post) h a s =
    rw (ge→ltb q.begin begin (omega arith), gt→leb q.begin end s.0) refl
place_apart begin end nodes (r ∷ pre) post h a s = rw (lt→ltb r.begin begin (omega (arith, a.0))) (
    settle_behind r
      (record {
        lower = upto (starts_below begin) (pre ++ post);
        new = record { begin = begin; end = end };
        upper = from (starts_below begin) (pre ++ post);
        nodes = nodes;
      })
      (a.0).1
    ∙ ap (behind_range r) (place_apart begin end nodes pre post h a.1 s))

-- What adding a range to a set gives.
pub add_range_lem :
    (begin end : ℕ) (s : Ranges) (n : ℕ)
    → begin < end
    → s.nodes ≡ suc n
    → IsSeparated s.set
    → (t : Ranges) × (add_range begin end s ≡ ok t)
      × IsSeparated t.set
      × (NoneWithin begin end s.set → (x : ℕ) → has t.set x ≡ (has s.set x || inside begin end x))
      × ((x : ℕ) → has t.set x ≡ true → (has s.set x || inside begin end x) ≡ true)
      × (all_nodes t ≡ all_nodes s)
      × (n ≤ t.nodes)
unfolding add_range balloc_alloc_node
add_range_lem begin end s n h e sep =
    let g = place-Grown begin end 0 s.set n h (omega arith) sep in
    (
      place begin end n s.set,
      rw e refl,
      g.above,
      (λ none_in x. g.covers none_in x ∙ or_comm (inside begin end x) (has s.set x)),
      (λ x u. or_comm (has s.set x) (inside begin end x) ∙ g.gains x u),
      omega (arith, g.kept_nodes, e),
      g.spare,
    )

-- Adding a range that is not empty to a set in order with gaps, when a node is left and no range
-- behind its beginning ends before it, gives a set in order with gaps that covers what was covered
-- and the range; it takes at most one node of those left, which with those in use stay the same number.
pub add_range-covers :
    (begin end : ℕ) (s : Ranges)
    → begin < end
    → 1 ≤ s.nodes
    → IsSeparated s.set
    → NoneWithin begin end s.set
    → (t : Ranges) × (add_range begin end s ≡ ok t)
      × IsSeparated t.set
      × ((x : ℕ) → has t.set x ≡ (has s.set x || inside begin end x))
      × (all_nodes t ≡ all_nodes s)
      × (s.nodes ≤ suc t.nodes)
add_range-covers begin end s h one sep none_in =
    let (t, run, valid, covers, gains, count, spare) =
      add_range_lem begin end s (s.nodes - 1) h (omega arith) sep in
    (t, run, valid, covers none_in, count, omega arith)

gain_eq : (a b c : Bool) → (a ≡ true → (b || c) ≡ true) → (a && not (b || c)) ≡ false
gain_eq true b c f = rw (f refl) refl
gain_eq false b c f = refl

-- Whatever range that is not empty is added, when a node is left, a set in order with gaps stays so,
-- and no address outside of the range is gained.
pub add_range-IsSeparated :
    (begin end : ℕ) (s : Ranges)
    → begin < end
    → 1 ≤ s.nodes
    → IsSeparated s.set
    → (t : Ranges) × (add_range begin end s ≡ ok t)
      × IsSeparated t.set
      × ((x : ℕ) → (has t.set x && not (has s.set x || inside begin end x)) ≡ false)
add_range-IsSeparated begin end s h one sep =
    let (t, run, valid, covers, gains, count, spare) =
      add_range_lem begin end s (s.nodes - 1) h (omega arith) sep in
    (t, run, valid, λ x. gain_eq (has t.set x) (has s.set x) (inside begin end x) (gains x))
