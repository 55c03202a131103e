-- ===== src/Balloc/Remove.antt =====
-- Removing a range: `__balloc_remove_range` of src/src/balloc.c.
use mathlib.Core.List.{append_assoc}
use spbau_os_hw.Prelude.{
  ℕ, zero, suc, ◌+◌, ◌-◌, ◌≤◌, ◌<◌, ◌≡◌, refl, sym, ap, subst, ◌∙◌, ◌⊎◌, inl, inr, not, ◌&&◌, List,
  [], ◌∷◌, ◌++◌, ltb, All, All-append, arith, length, length-append, if◌then◌else◌, ltb→lt,
  Bool-cases, ==_refl, ==_ne,
}
use spbau_os_hw.Prelude.Run.{Run, ok, ◌>>=◌}
use spbau_os_hw.RbTree.Walk.{first_of}
use spbau_os_hw.Balloc.{
  Range, Ranges, add_range, balloc_alloc_node, erase, next_of, add_part, free_node, remove_loop,
  remove_range,
}
use spbau_os_hw.Balloc.Sets.{inside, has, Above, IsSeparated, below-Above, Below, divide, all_nodes}
use spbau_os_hw.Balloc.Minus.{
  minus_bound, Below-weaken, has-minus, minus, minus-Above, minus-IsSeparated, minus-append,
  minus_split, part, part-Below, part_empty, part_full, part_left, length-part, part_right,
  parts-Below, parts_length, regroup,
}
use spbau_os_hw.Balloc.Add.{place_apart}

pub erase-append :
    (r : Range) (pre post : List Range)
    → Below r.begin pre
    → erase r (pre ++ r ∷ post) ≡ pre ++ post
unfolding erase
erase-append r [] post a = rw (==_refl r.begin) refl
erase-append r (q ∷ pre) post a =
    rw (==_ne q.begin r.begin (omega (arith, a.0))) (ap (q ∷◌) (erase-append r pre post a.1))

pub next_of-append :
    (r : Range) (pre post : List Range)
    → Below r.begin pre
    → next_of r (pre ++ r ∷ post) ≡ first_of post
unfolding next_of
next_of-append r [] post a = rw (==_refl r.begin) refl
next_of-append r (q ∷ pre) post a =
    rw (==_ne q.begin r.begin (omega (arith, a.0))) (next_of-append r pre post a.1)

-- A part goes back in between, for a node.
pub add_part_apart :
    (begin end n m : ℕ) (pre post : List Range)
    → Below begin pre
    → Above (suc end) post
    → n ≡ m + length (part begin end)
    → add_part begin end (record { nodes = n; set = pre ++ post })
      ≡ ok (record { nodes = m; set = pre ++ part begin end ++ post })
unfolding add_part add_range balloc_alloc_node
add_part_apart begin end n m pre post a s k = elim (Bool-cases (ltb begin end)) [
  | inl t ↦
      let e : n ≡ suc m = omega (arith, k, ap length (part_full begin end t)) in
      rw (e, t)
        (ap ok (place_apart begin end m pre post (ltb→lt begin end t) a s) ∙ (simp append_assoc))
  | inr f ↦
      let e : n ≡ m = omega (arith, k, ap length (part_empty begin end f)) in
      rw (e, f) (simp append_assoc)
]

-- One round: the range is taken out, its parts before `begin` and behind `end` go back.
pub cut_round {ℓ} :
    {C : Type ℓ} (g : Ranges → Run C) (begin end n m : ℕ) (r : Range) (pre post : List Range)
    → begin < end
    → begin < r.end
    → r.begin < end
    → r.begin < r.end
    → Below r.begin pre
    → Above (suc r.end) post
    → n ≡ m + length (part r.begin begin ++ part end r.end)
    → add_part r.begin
          (if ltb r.begin begin then begin else r.begin)
          (record { nodes = n; set = pre ++ post })
        >>= (λ s1. add_part (if ltb end r.end then end else r.end) r.end s1 >>= g)
      ≡ g (record { nodes = m; set = (pre ++ part r.begin begin ++ part end r.end) ++ post })
cut_round g begin end n m r pre post h k l q below above e =
    let top = if ltb r.begin begin then begin else r.begin in
    let low = if ltb end r.end then end else r.end in
    let e1 : n ≡ (m + length (part low r.end)) + length (part r.begin top) = omega (
      arith,
      e,
      length-append (part r.begin begin) (part end r.end),
      ap length (part_left r.begin begin),
      ap length (part_right end r.end),
    ) in
    let p =
      add_part_apart r.begin top n (m + length (part low r.end)) pre post below
        (below-Above (suc top) (suc r.end) post (ground arith) above) e1 in
    let a : Below low (pre ++ part r.begin top) =
      All-append _ pre (part r.begin top) (Below-weaken r.begin low pre (ground arith) below) (
        subst (Below low) (sym (part_left r.begin begin))
          (part-Below r.begin begin low (ground arith))) in
    let p2 =
      add_part_apart low r.end (m + length (part low r.end)) m (pre ++ part r.begin top) post a
        above refl in
    rw (p, p2) (rw (part_left r.begin begin, part_right end r.end) refl)

-- Unless a range goes beyond both ends of what is removed, no more than a node is needed for it.
parts_nodes :
    (begin end : ℕ) (r : Range) (post : List Range) (n : ℕ)
    → 2 ≤ n
    → Above (suc r.end) post
    → (2 ≤ suc (n - length (part r.begin begin ++ part end r.end))) ⊎ (Above end post)
parts_nodes begin end r post n h above = elim (Bool-cases (ltb end r.end)) [
  | inl t ↦ inr (below-Above end (suc r.end) post (ground arith) above)
  | inr f ↦ inl (
      omega (
        arith,
        length-append (part r.begin begin) (part end r.end),
        length-part r.begin begin,
        ap length (part_empty end r.end f),
      ))
]

abbrev kept : ℕ → List Range → Run Ranges
kept n rs = ok (record { nodes = n; set = rs })

-- What the loop makes of the ranges from `post` on.
remove_loop_lem :
    (f begin end n : ℕ) (pre post : List Range) (b : ℕ)
    → begin < end
    → length post < f
    → Below b pre
    → Above b post
    → All (λ r. begin < r.end) post
    → (2 ≤ n) ⊎ (Above end post)
    → (m : ℕ) × (remove_loop f begin end (first_of post) (record { nodes = n; set = pre ++ post })
        ≡ ok (record { nodes = m; set = pre ++ minus begin end post }))
      × (m + length (minus begin end post) ≡ n + length post)
unfolding remove_loop minus free_node
remove_loop_lem zero begin end n pre post b h k below above far nodes = absurd (omega (arith, k))
remove_loop_lem (suc f) begin end n pre [] b h k below above far nodes = (n, refl, refl)
remove_loop_lem (suc f) begin end n pre (r ∷ post) b h k below above far nodes =
    elim (Bool-cases (ltb r.begin end)) [
      | inl t ↦
          let l = ltb→lt r.begin end t in
          let two : 2 ≤ n = elim nodes [ inl u ↦ u | inr u ↦ absurd (omega (arith, l, u.0)) ] in
          let under = Below-weaken b r.begin pre above.0 below in
          let parts = part r.begin begin ++ part end r.end in
          let bound = parts_length r.begin begin end r.end in
          let m : ℕ = n - length parts in
          let (n2, q, w) =
            remove_loop_lem f begin end (suc m) (pre ++ part r.begin begin ++ part end r.end) post
              (suc r.end) h (omega arith)
              (parts-Below begin end r pre far.0 above.1 (Below-weaken b r.begin pre above.0 below))
              above.2 far.1 (parts_nodes begin end r post n two above.2) in
          (
            n2,
            rw
                (
                  t,
                  minus_split begin end r post far.0 l above.2,
                  erase-append r pre post under,
                  next_of-append r pre post under,
                )
                (cut_round (λ s2. remove_loop f begin end (first_of post) (free_node s2)) begin end
                    n m r pre post h far.0 l above.1 under above.2 (omega arith)
                  ∙ q
                  ∙ ap (kept n2)
                      (regroup pre (part r.begin begin) (part end r.end) (minus begin end post))),
            rw (minus_split begin end r post far.0 l above.2)
                (omega (arith, w, length-append parts (minus begin end post))),
          )
      | inr f ↦
          let far_off : Above end (r ∷ post) = (ground arith, above.1, above.2) in
          (
            n,
            rw (f, minus-Above begin end (r ∷ post) far_off) refl,
            rw (minus-Above begin end (r ∷ post) far_off) refl,
          )
    ]

-- From a set in order with gaps, when two nodes are left, removing a range takes exactly the
-- addresses in it, leaves the set in order with gaps, and takes at most one of the
-- nodes left, which with those in use stay the same number.
pub remove_range_lem :
    (begin end : ℕ) (s : Ranges)
    → begin < end
    → 2 ≤ s.nodes
    → IsSeparated s.set
    → (t : Ranges) × (remove_range begin end s ≡ ok t)
      × IsSeparated t.set
      × ((x : ℕ) → has t.set x ≡ (has s.set x && not (inside begin end x)))
      × (all_nodes t ≡ all_nodes s)
      × (s.nodes ≤ suc t.nodes)
unfolding remove_range
remove_range_lem begin end s h two sep =
    let d = divide begin 0 s.set sep in
    let (m, run, count) =
      remove_loop_lem (suc (length s.set)) begin end s.nodes d.first d.others d.at h
        (omega (arith, ap length d.all_rs, length-append d.first d.others)) d.below d.above
        d.behind_low (inl two) in
    let e : minus begin end s.set ≡ d.first ++ minus begin end d.others =
      ap (minus begin end) d.all_rs ∙ minus-append begin end d.first d.others d.before_low in
    let kept_all : m + length (minus begin end s.set) ≡ all_nodes s = omega (
      arith,
      count,
      ap length e,
      length-append d.first (minus begin end d.others),
      ap length d.all_rs,
      length-append d.first d.others,
    ) in
    (
      record { nodes = m; set = minus begin end s.set },
      rw d.found (
          ap
            (λ (zs : List Range).
              remove_loop (suc (length s.set)) begin end (first_of d.others)
                (record { nodes = s.nodes; set = zs }))
            d.all_rs
          ∙ run
          ∙ ap (kept m) (sym e)),
      minus-IsSeparated begin end 0 s.set h sep,
      (λ x. has-minus begin end s.set x h),
      kept_all,
      omega (arith, kept_all, minus_bound begin end 0 s.set sep),
    )
