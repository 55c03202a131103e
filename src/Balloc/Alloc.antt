-- ===== src/Balloc/Alloc.antt =====
-- Allocation: `__balloc_alloc` of src/src/balloc.c.
use mathlib.Core.List.{append_assoc}
use spbau_os_hw.Prelude.{
  ℕ, suc, ◌+◌, ◌-◌, ◌%◌, ◌^◌, ◌≤◌, ◌<◌, ◌≡◌, refl, sym, ap, subst, ◌∙◌, ◌⊎◌, inl, inr, Bool, true,
  not, ◌&&◌, ◌||◌, List, [], ◌∷◌, ◌++◌, ltb, leb, All, All-map, All-zip, All-append,
  All-append_right, arith, length, length-append, if◌then◌else◌, Bool-cases,
}
use spbau_os_hw.Prelude.Run.{Run, ok, ◌>>=◌}
use spbau_os_hw.Balloc.{
  Range, Ranges, add_part, free_node, align_at, clip_begin, clip_end, alloc_loop,
  balloc_alloc_aligned,
}
use spbau_os_hw.Balloc.Sets.{
  inside, has, Above, IsSeparated, below-Above, Above-All, Below, divide, has-append, all_nodes,
}
use spbau_os_hw.Balloc.Minus.{
  part, minus, minus-append, minus-Above, minus_skip, minus_split, has-minus, minus-IsSeparated,
  regroup, Below-weaken, parts_length,
}
use spbau_os_hw.Balloc.Place.{IsPower, tried}
use spbau_os_hw.Balloc.Remove.{cut_round, erase-append}

-- Does the address begin an aligned block of that size between `low` and `high` in the range?
pub record Room (size align low high addr : ℕ) (r : Range) : Type 0 where
  pub aligned : addr % align ≡ 0
  pub low_le : low ≤ addr
  pub high_ge : addr + size ≤ high
  pub begin_le : r.begin ≤ addr
  pub end_ge : addr + size ≤ r.end

-- No address does.
abbrev pub IsFull : (size align low high : ℕ) → Range → Type 0
IsFull size align low high r =
    (addr : ℕ)
    → addr % align ≡ 0
    → low ≤ addr
    → addr + size ≤ high
    → r.begin ≤ addr
    → r.end < addr + size

-- What the loop makes of the ranges `todo`, with `b` a bound below them.
abbrev Outcome : (size align low high b n : ℕ) → (pre todo : List Range) → Run (ℕ × Ranges) → Type 0
Outcome size align low high b n pre todo run =
    ((addr : ℕ) × (m : ℕ) × (r : Range) × (run
        ≡ ok (addr, record { nodes = m; set = pre ++ minus addr (addr + size) todo }))
      × Room size align low high addr r
      × ((x : ℕ) → inside r.begin r.end x ≡ true → has todo x ≡ true)
      × (b ≤ addr)
      × (m + length (minus addr (addr + size) todo) ≡ n + length todo))
    ⊎ ((run ≡ ok (high, record { nodes = n; set = pre ++ todo }))
        × All (IsFull size align low high) todo)

abbrev returned : ℕ → Ranges → Run (ℕ × Ranges)
returned addr s2 = ok (addr, free_node s2)

abbrev gives : ℕ → ℕ → List Range → Run (ℕ × Ranges)
gives addr m rs = ok (addr, record { nodes = m; set = rs })

take_round :
    (size addr n : ℕ) (r : Range) (pre todo : List Range)
    → 0 < size
    → 2 ≤ n
    → r.begin ≤ addr
    → addr + size ≤ r.end
    → Below r.begin pre
    → Above (suc r.end) todo
    → (m : ℕ) × (add_part r.begin addr (record { nodes = n; set = pre ++ todo })
          >>= (λ s1. add_part (addr + size) r.end s1 >>= returned addr)
        ≡ ok (addr, record { nodes = m; set = pre ++ minus addr (addr + size) (r ∷ todo) }))
      × (m + length (minus addr (addr + size) (r ∷ todo)) ≡ n + suc (length todo))
unfolding free_node
take_round size addr n r pre todo h two le ge below above =
    let left : (if ltb r.begin addr then addr else r.begin) ≡ addr = ground arith in
    let right : (if ltb (addr + size) r.end then addr + size else r.end) ≡ addr + size =
      ground arith in
    let parts = part r.begin addr ++ part (addr + size) r.end in
    let bound = parts_length r.begin addr (addr + size) r.end in
    let m : ℕ = n - length parts in
    let p =
      cut_round (returned addr) addr (addr + size) n m r pre todo (omega arith) (omega arith)
        (omega arith) (omega arith) below above (omega arith) in
    let e = minus_split addr (addr + size) r todo (omega arith) (omega arith) above in
    let f =
      minus-Above addr (addr + size) todo
        (below-Above (addr + size) (suc r.end) todo (omega arith) above) in
    (
      suc m,
      rw (e, f)
          (rw (left, right) at p
            ∙ ap (gives addr (suc m))
                (regroup pre (part r.begin addr) (part (addr + size) r.end) todo)),
      rw (e, f) (omega (arith, length-append parts todo)),
    )

snoc_append {ℓ} :
    {A : Type ℓ} (xs : List A) (y : A) (ys : List A) → (xs ++ y ∷ []) ++ ys ≡ xs ++ y ∷ ys
snoc_append xs y ys = append_assoc xs (y ∷ []) ys

or_true : (b : Bool) → (b || true) ≡ true
or_true b = ground arith

-- No block below `high` lies in ranges from `high` on.
beyond-IsFull :
    (size align low high b : ℕ) (rs : List Range)
    → 0 < size
    → high ≤ b
    → Above b rs
    → All (IsFull size align low high) rs
beyond-IsFull size align low high b rs h k s =
    All-map (λ r u a x y z g. omega (arith, u.0, u.1)) rs (Above-All b rs s)

alloc_loop_lem :
    (size align low high n : ℕ) (pre todo : List Range) (b : ℕ)
    → 0 < size
    → IsPower align
    → size + align ≤ 2 ^ 63
    → 2 ≤ n
    → Below b pre
    → Above b todo
    → All (λ r. (low < r.end) × (r.end ≤ 2 ^ 63)) todo
    → Outcome size align low high b n pre todo
        (alloc_loop size align low high todo (record { nodes = n; set = pre ++ todo }))
unfolding alloc_loop
alloc_loop_lem size align low high n pre [] b hs ha small two below above far = inr (refl, tt)
alloc_loop_lem size align low high n pre (r ∷ todo) b hs ha small two below above far =
    let addr : ℕ = align_at align (clip_begin low r) in
    let under = Below-weaken b r.begin pre above.0 below in
    let (w, e, le, ge, least) = tried size align low high r ha small (far.0).0 above.1 (far.0).1 in
    elim (Bool-cases (ltb r.begin high)) [
      | inr f ↦ inr (
        rw f refl,
        beyond-IsFull size align low high r.begin (r ∷ todo) hs (ground arith)
            (omega arith, above.1, above.2),
      )
      | inl t ↦ elim (Bool-cases (leb (addr + size) (clip_end high r))) [
        | inl u ↦
            let top : addr + size ≤ r.end = ground arith in
            let cap : addr + size ≤ high = ground arith in
            let (m, run, count) = take_round size addr n r pre todo hs two ge top under above.2 in
            inl (
              addr,
              m,
              r,
              rw (t, w, u, erase-append r pre todo under) run,
              record { aligned = e; low_le = le; high_ge = cap; begin_le = ge; end_ge = top },
              (λ x i. rw i refl),
              omega (arith, above.0),
              count,
            )
        | inr v ↦
            let full : IsFull size align low high r =
              λ a x y z g. let l = least a x y g in ground arith in
            elim (alloc_loop_lem size align low high n (pre ++ r ∷ []) todo (suc r.end) hs ha small
              two
              (All-append _ pre (r ∷ [])
                (Below-weaken r.begin (suc r.end) pre (omega (arith, above.1)) under)
                ((above.1, omega arith), tt))
              above.2 far.1) [
                | inl (a, m, q, run, room, sub, later, count) ↦ inl (
                  a,
                  m,
                  q,
                  rw (t, w, v, minus_skip a (a + size) r todo (omega (arith, later)))
                      (rw (snoc_append pre r todo, snoc_append pre r (minus a (a + size) todo)) at
                        run),
                  room,
                  (λ x i. rw (sub x i) (or_true (inside r.begin r.end x))),
                  omega (arith, later, above.0, above.1),
                  rw (minus_skip a (a + size) r todo (omega (arith, later))) (omega (arith, count)),
                )
                | inr (run, all_full) ↦
                    inr (rw (t, w, v) (rw (snoc_append pre r todo) at run), (full, all_full))
              ]
      ]
    ]

-- A block has been taken: it is aligned, between `low` and `high`, was free in one range, and is all
-- that the set loses.
pub record Taken (size align low high : ℕ) (s : Ranges) (addr : ℕ) (t : Ranges) : Type 0 where
  pub aligned : addr % align ≡ 0
  pub low_le : low ≤ addr
  pub high_ge : addr + size ≤ high
  pub was_free : (x : ℕ) → inside addr (addr + size) x ≡ true → has s.set x ≡ true
  pub separated : IsSeparated t.set
  pub covers : (x : ℕ) → has t.set x ≡ (has s.set x && not (inside addr (addr + size) x))
  pub kept_nodes : all_nodes t ≡ all_nodes s

inside_within : (a d b c x : ℕ) → b ≤ a → d ≤ c → inside a d x ≡ true → inside b c x ≡ true
inside_within a d b c x h k e = ground arith

has-append_right : (xs ys : List Range) (x : ℕ) → has ys x ≡ true → has (xs ++ ys) x ≡ true
has-append_right xs ys x e = rw (has-append xs ys x, e) (or_true (has xs x))

early-IsFull :
    (size align low high : ℕ) (rs : List Range)
    → 0 < size
    → All (λ r. r.end ≤ low) rs
    → All (IsFull size align low high) rs
early-IsFull size align low high rs h s = All-map (λ r u a x y z g. omega (arith, u, y)) rs s

-- On a set in order with gaps below 2^63, with two nodes left, for a size that is not 0 and an
-- alignment that is a power of two, together at most 2^63, an allocation either takes an aligned
-- block of free addresses between the bounds, and nothing else; or it gives `high` and changes
-- nothing, and then no range has room for such a block.
pub balloc_alloc_aligned_lem :
    (size align low high : ℕ) (s : Ranges)
    → 0 < size
    → IsPower align
    → size + align ≤ 2 ^ 63
    → 2 ≤ s.nodes
    → IsSeparated s.set
    → All (λ r. r.end ≤ 2 ^ 63) s.set
    → ((addr : ℕ) × (t : Ranges) × (balloc_alloc_aligned size align low high s ≡ ok (addr, t))
        × Taken size align low high s addr t)
      ⊎ ((balloc_alloc_aligned size align low high s ≡ ok (high, s))
          × All (IsFull size align low high) s.set)
unfolding balloc_alloc_aligned
balloc_alloc_aligned_lem size align low high s hs ha small two sep top =
    let d = divide low 0 s.set sep in
    let tops =
      All-append_right _ d.first d.others (subst (All (λ r. r.end ≤ 2 ^ 63)) d.all_rs top) in
    let run_at = λ (zs : List Range).
      alloc_loop size align low high d.others (record { nodes = s.nodes; set = zs }) in
    elim (alloc_loop_lem size align low high s.nodes d.first d.others d.at hs ha small two d.below
      d.above (All-zip (λ r u v. (u, v)) d.others d.behind_low tops)) [
        | inl (addr, m, r, run, room, sub, later, count) ↦
            let e : minus addr (addr + size) s.set ≡ d.first ++ minus addr (addr + size) d.others =
              ap (minus addr (addr + size)) d.all_rs
              ∙ minus-append addr (addr + size) d.first d.others
                  (All-map (λ q u. omega (arith, u.1, later)) d.first d.below) in
            inl (
              addr,
              record { nodes = m; set = minus addr (addr + size) s.set },
              rw d.found (ap run_at d.all_rs ∙ run ∙ ap (gives addr m) (sym e)),
              record {
                aligned = room.aligned;
                low_le = room.low_le;
                high_ge = room.high_ge;
                was_free = λ x i. rw d.all_rs (
                    has-append_right d.first d.others x (
                      sub x (
                        inside_within addr (addr + size) r.begin r.end x room.begin_le room.end_ge
                          i)));
                separated = minus-IsSeparated addr (addr + size) 0 s.set (omega arith) sep;
                covers = λ x. has-minus addr (addr + size) s.set x (omega arith);
                kept_nodes = omega (
                  arith,
                  count,
                  ap length e,
                  length-append d.first (minus addr (addr + size) d.others),
                  ap length d.all_rs,
                  length-append d.first d.others,
                );
              },
            )
        | inr (run, full) ↦ inr (
          rw d.found (ap run_at d.all_rs ∙ run ∙ ap (gives high s.nodes) (sym d.all_rs)),
          subst (All (IsFull size align low high)) (sym d.all_rs) (
              All-append _ d.first d.others
                (early-IsFull size align low high d.first hs d.before_low) full),
        )
      ]
