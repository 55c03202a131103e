-- ===== src/PageAlloc/Free.antt =====
-- `page_free_zone` takes a held block back and joins it with its free buddies.
use native.Mathlib.Nat.{pow-suc}
use spbau_os_hw.Prelude.{
  ℕ, zero, suc, ◌+◌, ◌-◌, ◌%◌, ◌^◌, ◌≤◌, ◌<◌, ◌≡◌, refl, ap, true, arith, ◌==◌, if◌then◌else◌, List,
  [], ◌∷◌, All, update, ==_iff, Bool-cases, inl, inr, lt→ltb, ge→ltb, ltb,
}
use spbau_os_hw.Prelude.Bits.{flip_bit}
use spbau_os_hw.Prelude.Run.{ok}
use spbau_os_hw.PageAlloc.{
  Zone, max_order, page_is_free, page_order, can_merge, merge_up, page_free_zone,
}
use spbau_os_hw.PageAlloc.Blocks.{Aligned, pow_pos, Aligned-mod, Buddies, flip_bit-Buddies}
use spbau_os_hw.PageAlloc.Cover.{
  covers, inside, is_at, sum_list, sum_orders, covers_halves, covers_self, inside-flip_bit,
  take_out-ok,
}
use spbau_os_hw.PageAlloc.Invariant.{Block, sum_blocks, IsListed, IsHeld, Inv}
use spbau_os_hw.PageAlloc.Moves.{regroup, release, unlist}
use spbau_os_hw.PageAlloc.Alloc.{listed_zone, mark_free-ok, listed_zone-Inv}

-- What the loop's test says of the buddy.
can_merge-facts :
    (z : Zone) (idx k : ℕ)
    → can_merge z idx k ≡ true
    → (z.begin ≤ flip_bit idx k)
      × (flip_bit idx k < z.end)
      × (page_is_free (z.pages (flip_bit idx k)) ≡ true)
      × (page_order (z.pages (flip_bit idx k)) ≡ k)
unfolding can_merge
can_merge-facts z idx k h = ground arith

-- The buddy lies beside the block.
buddy_apart : (p b k : ℕ) → Buddies p b k → covers p k b ≡ 0
unfolding covers
buddy_apart p b k h = elim h.sides [
  | inl (e, t) ↦ ground (arith, e)
  | inr (e, t) ↦ ground (arith, e, pow_pos k)
]

inside_list :
    (ps : List ℕ) (z : Zone) (j p k : ℕ)
    → Aligned p k
    → All (IsListed z j) ps
    → sum_list (λ q. inside q j) ps (flip_bit p k) ≤ sum_list (λ q. covers q j) ps p
inside_list [] z j p k a h = omega arith
inside_list (q ∷ ps) z j p k a h =
    omega (arith, inside-flip_bit q j p k h.0.0.2 a, inside_list ps z j p k a h.1)

inside_orders :
    (n : ℕ) (z : Zone) (p k : ℕ)
    → n ≤ 19
    → Aligned p k
    → ((j : ℕ) → j ≤ max_order → All (IsListed z j) (z.order j))
    → sum_orders inside n z.order (flip_bit p k) ≤ sum_orders covers n z.order p
unfolding sum_orders
inside_orders zero z p k l a h = omega arith
inside_orders (suc n) z p k l a h = omega (
  arith,
  inside_orders n z p k (omega arith) a h,
  inside_list (z.order n) z n p k a (h n (omega arith)),
)

inside_blocks :
    (bs : List Block) (z : Zone) (p k : ℕ)
    → Aligned p k
    → All (IsHeld z) bs
    → sum_blocks inside bs (flip_bit p k) ≤ sum_blocks covers bs p
inside_blocks [] z p k a h = omega arith
inside_blocks ((q, j) ∷ bs) z p k a h =
    omega (arith, inside-flip_bit q j p k h.0.0.2 a, inside_blocks bs z p k a h.1)

-- A buddy that is marked free with the order of the block at work is on the list of that order.
buddy_listed :
    {T : ℕ → ℕ} {z : Zone} {A : List Block} (p k : ℕ)
    → Inv T z ((p, k) ∷ []) A
    → can_merge z p k ≡ true
    → 1 ≤ sum_list is_at (z.order k) (flip_bit p k)
buddy_listed {z} {A} p k inv h =
    let (lo, hi, free, e) = can_merge-facts z p k h in
    let a = inv.work.0.2 in
    omega (
      arith,
      inv.known (flip_bit p k) lo hi free,
      ap (λ j. sum_list is_at (z.order j) (flip_bit p k)) e,
      buddy_apart p (flip_bit p k) k (flip_bit-Buddies p k a),
      inside_orders 19 z p k (omega arith) a inv.listed,
      inside_blocks A z p k a inv.held,
      inv.total p,
      inv.once p,
      covers_self p k,
    )

-- A block and its buddy are the halves of a block of the next order.
join :
    {T : ℕ → ℕ} {z : Zone} {A : List Block} (p b k : ℕ)
    → k < max_order
    → Buddies p b k
    → Inv T z ((b, k) ∷ (p, k) ∷ []) A
    → Inv T z ((if ltb b p then b else p, suc k) ∷ []) A
join p b k l h inv = elim h.sides [
  | inl (e, t) ↦ rw (ge→ltb b p (omega (arith, e))) (
      regroup ((p, suc k) ∷ []) inv
        ((inv.work.1.0.0, omega (arith, inv.work.0.1, e, pow-suc 2 k), t, l), tt)
        (λ g. omega (arith, covers_halves p k g, ap (λ i. covers i k g) e)))
  | inr (e, t) ↦ rw (lt→ltb b p (omega (arith, e, pow_pos k))) (
      regroup ((b, suc k) ∷ []) inv
        ((inv.work.0.0, omega (arith, inv.work.1.0.1, e, pow-suc 2 k), t, l), tt)
        (λ g. omega (arith, covers_halves b k g, ap (λ i. covers i k g) e)))
]

-- The loop ends with one block at work, made of the block and its free buddies.
merge_up-Inv :
    {T : ℕ → ℕ} {A : List Block} (n : ℕ) (z : Zone) (p k : ℕ)
    → k + n ≤ max_order
    → Inv T z ((p, k) ∷ []) A
    → (q : ℕ) × (j : ℕ) × (z' : Zone) × (merge_up n z p k ≡ ok (q, j, z'))
      × Inv T z' ((q, j) ∷ []) A
unfolding merge_up
merge_up-Inv zero z p k l inv = (p, k, z, refl, inv)
merge_up-Inv {T} {A} (suc n) z p k l inv = elim (Bool-cases (can_merge z p k)) [
  | inr stop ↦ (p, k, z, rw stop, inv)
  | inl go ↦
      let b = flip_bit p k in
      let (rest, e) = take_out-ok b (z.order k) (buddy_listed p k inv go) in
      let (q, j, z', d, i) =
        merge_up-Inv n (record z { order = update z.order k rest }) (if ltb b p then b else p)
          (suc k) (omega arith)
          (join p b k (omega arith) (flip_bit-Buddies p k inv.work.0.2)
            (unlist b k rest (omega arith) e inv)) in
      (q, j, z', rw (go, e) d, i)
]

-- Under the invariant, freeing a held block does not stop in a `BUG`, and afterwards the invariant
-- holds without the block.
pub page_free_zone-Inv :
    {T : ℕ → ℕ} {A : List Block} (z : Zone) (p k : ℕ)
    → Inv T z [] ((p, k) ∷ A)
    → (z' : Zone) × (page_free_zone z p k ≡ ok z') × Inv T z' [] A
unfolding page_free_zone
page_free_zone-Inv z p k inv =
    let l = inv.held.0.0.3 in
    let (q, j, z', d, i) =
      merge_up-Inv (max_order - k) z p k (omega (arith, l)) (release p k inv) in
    let m : (p % 2 ^ k == 0) ≡ true = (==_iff _ _).1 (Aligned-mod p k inv.held.0.0.2) in
    (listed_zone z' q j, rw (m, d) (mark_free-ok z' q j i.work.0.3), listed_zone-Inv q j i)
