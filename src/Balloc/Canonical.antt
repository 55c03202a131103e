-- ===== src/Balloc/Canonical.antt =====
-- A set of ranges in order with gaps is given by the addresses that it covers; so freeing an
-- allocated block restores the set.
use spbau_os_hw.Prelude.{
  ℕ, suc, ◌+◌, ◌-◌, ◌≤◌, ◌<◌, ◌≡◌, refl, sym, ap, ◌∙◌, ◌⊎◌, inl, inr, Bool, true, false, not, ◌&&◌,
  ◌||◌, List, [], ◌∷◌, arith, length, le→leb, lt→ltb, ge→ltb,
}
use spbau_os_hw.Prelude.Run.{ok}
use spbau_os_hw.Balloc.{Range, Ranges, balloc_free}
use spbau_os_hw.Balloc.Sets.{inside, has, Above, IsSeparated, has-below}
use spbau_os_hw.Balloc.Grown.{NoneWithin}
use spbau_os_hw.Balloc.Add.{add_range_lem}
use spbau_os_hw.Balloc.Alloc.{Taken}

begins_covered :
    (b : ℕ) (r : Range) (rs : List Range) → Above b (r ∷ rs) → has (r ∷ rs) r.begin ≡ true
begins_covered b r rs s = rw (le→leb r.begin r.begin (omega arith), lt→ltb r.begin r.end s.1) refl

-- Of two sets that cover the same, the second does not begin behind the first.
begin-le :
    (b c : ℕ) (r q : Range) (rs qs : List Range)
    → Above b (r ∷ rs)
    → Above c (q ∷ qs)
    → ((x : ℕ) → has (r ∷ rs) x ≡ has (q ∷ qs) x)
    → q.begin ≤ r.begin
begin-le b c r q rs qs s u e =
    let t : r.begin < q.begin → q.begin ≤ r.begin = λ l.
      let w : true ≡ false =
        sym (begins_covered b r rs s)
        ∙ e r.begin
        ∙ has-below q.begin (q ∷ qs) r.begin (omega arith, u.1, u.2) l in
      cc in
    grind arith

-- Likewise for the ends, when the beginnings are the same.
end-le :
    (r q : Range) (rs qs : List Range)
    → r.begin ≡ q.begin
    → r.begin < r.end
    → Above (suc r.end) rs
    → ((x : ℕ) → has (r ∷ rs) x ≡ has (q ∷ qs) x)
    → q.end ≤ r.end
end-le r q rs qs f l s e =
    let t : r.end < q.end → q.end ≤ r.end = λ k.
      let left : has (r ∷ rs) r.end ≡ false =
        rw (has-below (suc r.end) rs r.end s (omega arith), ge→ltb r.end r.end (omega arith))
          (ground arith) in
      let right : has (q ∷ qs) r.end ≡ true =
        rw (le→leb q.begin r.end (omega (arith, f)), lt→ltb r.end q.end k) refl in
      let w : true ≡ false = sym right ∙ sym (e r.end) ∙ left in cc in
    grind arith

drop_false : (a b : Bool) → a ≡ false → (a || b) ≡ b
drop_false a b e = rw e refl

outside : (b e x : ℕ) → e ≤ x → inside b e x ≡ false
outside b e x h = ground arith

lt_cases : (a b : ℕ) → (a < b) ⊎ (b ≤ a)
lt_cases a b = ground arith

le_cases : (a b : ℕ) → (a ≤ b) ⊎ (b ≤ a)
le_cases a b = ground arith

tails_same :
    (r q : Range) (rs qs : List Range)
    → r.end ≡ q.end
    → Above (suc r.end) rs
    → Above (suc q.end) qs
    → ((x : ℕ) → has (r ∷ rs) x ≡ has (q ∷ qs) x)
    → (x : ℕ) → has rs x ≡ has qs x
tails_same r q rs qs f s u e x = elim (le_cases r.end x) [
  | inl h ↦
      sym (drop_false _ (has rs x) (outside r.begin r.end x h))
      ∙ e x
      ∙ drop_false _ (has qs x) (outside q.begin q.end x (omega (arith, f)))
  | inr h ↦
      has-below (suc r.end) rs x s (omega arith)
      ∙ sym (has-below (suc q.end) qs x u (omega (arith, f)))
]

-- Two lists of ranges in order with gaps that cover the same addresses are the same.
pub same_ranges :
    (b c : ℕ) (rs qs : List Range)
    → Above b rs
    → Above c qs
    → ((x : ℕ) → has rs x ≡ has qs x)
    → rs ≡ qs
same_ranges b c [] [] s u e = refl
same_ranges b c [] (q ∷ qs) s u e = let w : false ≡ true = e q.begin ∙ begins_covered c q qs u in cc
same_ranges b c (r ∷ rs) [] s u e =
    let w : true ≡ false = sym (begins_covered b r rs s) ∙ e r.begin in cc
same_ranges b c (r ∷ rs) (q ∷ qs) s u e =
    let back = λ (x : ℕ). sym (e x) in
    let f : r.begin ≡ q.begin =
      omega (arith, begin-le b c r q rs qs s u e, begin-le c b q r qs rs u s back) in
    let g : r.end ≡ q.end =
      omega (arith, end-le r q rs qs f s.1 s.2 e, end-le q r qs rs (sym f) u.1 u.2 back) in
    let same : r ≡ q = λ i. record { begin = f i; end = g i } in
    let rest =
      same_ranges (suc r.end) (suc q.end) rs qs s.2 u.2 (tails_same r q rs qs g s.2 u.2 e) in
    λ i. same i ∷ rest i

clear_head :
    (begin end b : ℕ) (r : Range) (rs : List Range)
    → Above b (r ∷ rs)
    → ((x : ℕ) → inside begin end x ≡ true → has (r ∷ rs) x ≡ false)
    → (r.begin < begin) ⊎ (end ≤ r.end)
clear_head begin end b r rs s e = elim (lt_cases r.begin begin) [
  | inl l ↦ inl l
  | inr l ↦ elim (lt_cases r.end end) [
    | inr k ↦ inr k
    | inl k ↦
        let i : inside begin end r.begin ≡ true =
          rw (le→leb begin r.begin l, lt→ltb r.begin end (omega (arith, s.1))) refl in
        let w : true ≡ false = sym (begins_covered b r rs s) ∙ e r.begin i in cc
  ]
]

or_false : (p q : Bool) → (p || q) ≡ false → q ≡ false
or_false p q h = ground arith

-- What is behind the beginning of a block that a set does not cover ends behind the block.
clear-NoneWithin :
    (begin end b : ℕ) (rs : List Range)
    → Above b rs
    → ((x : ℕ) → inside begin end x ≡ true → has rs x ≡ false)
    → NoneWithin begin end rs
clear-NoneWithin begin end b [] s e = tt
clear-NoneWithin begin end b (r ∷ rs) s e = (
  clear_head begin end b r rs s e,
  clear-NoneWithin begin end (suc r.end) rs s.2
      (λ x i. or_false (inside r.begin r.end x) (has rs x) (e x i)),
)

and_false : (b : Bool) → (b && false) ≡ false
and_false b = ground arith

back_again : (a b : Bool) → (b ≡ true → a ≡ true) → ((a && not b) || b) ≡ a
back_again a true f = rw (f refl) (ground arith)
back_again a false f = ground arith

-- When a node is left, freeing a block that is not empty and was just taken out of a set in order with
-- gaps restores the set and the number of nodes.
pub balloc_free-Taken :
    (size align low high addr : ℕ) (s t : Ranges)
    → 0 < size
    → 1 ≤ t.nodes
    → IsSeparated s.set
    → Taken size align low high s addr t
    → balloc_free addr (addr + size) t ≡ ok s
unfolding balloc_free
balloc_free-Taken size align low high addr s t h one sep k =
    let none_in =
      clear-NoneWithin addr (addr + size) 0 t.set k.separated
        (λ x i. k.covers x ∙ rw i (and_false (has s.set x))) in
    let (u, run, usep, same, gains, count, spare) =
      add_range_lem addr (addr + size) t (t.nodes - 1) (omega arith) (omega arith) k.separated in
    let sets = same_ranges 0 0 u.set s.set usep sep (λ x.
      same none_in x
      ∙ rw (k.covers x) (back_again (has s.set x) (inside addr (addr + size) x) (k.was_free x))) in
    let nodes : u.nodes ≡ s.nodes = omega (arith, count, k.kept_nodes, ap length sets) in
    run ∙ (λ i. ok (record { nodes = nodes i; set = sets i }))
