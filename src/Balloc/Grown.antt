-- ===== src/Balloc/Grown.antt =====
-- What merging makes of a set to which a range is added, in src/src/balloc.c.
use spbau_os_hw.Prelude.{
  ℕ, suc, ◌+◌, ◌≤◌, ◌<◌, ◌≡◌, refl, sym, ap, subst, ◌∙◌, ◌⊎◌, inl, inr, Bool, true, ◌||◌, List, [],
  ◌∷◌, ltb, leb, All, All-zip, arith, length, Option, some, none, if◌then◌else◌, ge→ltb, ltb→lt,
  leb→le, le→leb, gt→leb, Bool-cases,
}
use spbau_os_hw.RbTree.Walk.{last_of}
use spbau_os_hw.RbTree.Search.{upto, from}
use spbau_os_hw.Balloc.{
  Range, Ranges, Around, but_last, merge_prev, merge_next, together, settle, place,
}
use spbau_os_hw.Balloc.Sets.{
  inside, has, Above, below-Above, Above-All, all_nodes, inside_join, inside_sub, inside_absorb,
  or_swap, or_gain,
}

abbrev merged : Range → List Range → ℕ → Ranges
merged new upper nodes =
    together (merge_next upper (record { lower = []; new = new; upper = upper; nodes = nodes }))

abbrev pub starts_below : ℕ → Range → Bool
starts_below begin r = ltb r.begin begin

-- No range lies behind the beginning of the new one and ends before the new one does.
abbrev pub NoneWithin : (begin end : ℕ) → List Range → Type 0
NoneWithin begin end rs = All (λ r. (r.begin < begin) ⊎ (end ≤ r.end)) rs

-- What adding a range to `rs` makes of it.
pub record Grown (begin end b : ℕ) (rs : List Range) (nodes : ℕ) (t : Ranges) : Type 0 where
  pub above : Above b t.set
  pub covers : NoneWithin begin end rs → (x : ℕ) → has t.set x ≡ (inside begin end x || has rs x)
  pub gains : (x : ℕ) → has t.set x ≡ true → (inside begin end x || has rs x) ≡ true
  pub kept_nodes : all_nodes t ≡ suc (nodes + length rs)
  pub spare : nodes ≤ t.nodes

upto-Above :
    (begin b : ℕ) (rs : List Range)
    → begin ≤ b
    → Above b rs
    → (upto (starts_below begin) rs ≡ []) × (from (starts_below begin) rs ≡ rs)
upto-Above begin b [] h s = (refl, refl)
upto-Above begin b (r ∷ rs) h s = rw (ge→ltb r.begin begin (omega arith)) (refl, refl)

merged-Grown :
    (begin end b : ℕ) (rs : List Range) (nodes : ℕ)
    → begin < end
    → b ≤ begin
    → Above begin rs
    → Grown begin end b rs nodes (merged (record { begin = begin; end = end }) rs nodes)
unfolding merge_next
merged-Grown begin end b [] nodes h k s = record {
  above = (k, h, tt);
  covers = λ n x. refl;
  gains = λ x e. e;
  kept_nodes = omega arith;
  spare = omega arith;
}
merged-Grown begin end b (r ∷ rs) nodes h k s = elim (Bool-cases (leb r.begin end)) [
  | inl t ↦
      let below = leb→le r.begin end t in
      rw t (record {
        above = (k, omega arith, s.2);
        covers = λ n x.
            inside_join begin end r.begin r.end x (has rs x) s.0 below
              (elim n.0 [ inl u ↦ omega (arith, u) | inr v ↦ v ]);
        gains = λ x e. inside_sub begin r.end end r.begin x (has rs x) s.0 below e;
        kept_nodes = omega arith;
        spare = omega arith;
      })
  | inr f ↦
      let gap : end < r.begin = ground arith in
      rw f (record {
        above = (k, h, (gap, s.1, s.2));
        covers = λ n x. refl;
        gains = λ x e. e;
        kept_nodes = omega arith;
        spare = omega arith;
      })
]

-- The previous range takes the new one in.
absorb-Grown :
    (begin end b : ℕ) (p : Range) (rs : List Range) (nodes : ℕ)
    → begin < end
    → p.begin < begin
    → begin ≤ p.end
    → Above b (p ∷ rs)
    → Grown begin end b (p ∷ rs) nodes (
        merged
          (record { begin = p.begin; end = if ltb end p.end then p.end else end })
          rs
          (suc nodes))
absorb-Grown begin end b p rs nodes h k l s =
    let top = if ltb end p.end then p.end else end in
    let le : end ≤ top = ground arith in
    let le2 : p.end ≤ top = ground arith in
    let g =
      merged-Grown p.begin top b rs (suc nodes) (omega arith) s.0
        (below-Above p.begin (suc p.end) rs (omega arith) s.2) in
    let eq = λ (x : ℕ). inside_absorb begin end p.begin p.end x (has rs x) (omega arith) l in
    record {
      above = g.above;
      covers = λ n x.
          g.covers
            (All-zip (λ r u v. inr (elim u [ inl t ↦ ground arith | inr t ↦ ground arith ])) rs n.1
              (Above-All (suc p.end) rs s.2))
            x
          ∙ eq x;
      gains = λ x e. sym (eq x) ∙ g.gains x e;
      kept_nodes = omega (arith, g.kept_nodes);
      spare = omega (arith, g.spare);
    }

abbrev pub behind_range : Range → Ranges → Ranges
behind_range r t = record t { set = r ∷ t.set }

merge_next_behind :
    (r : Range) (upper : List Range) (a : Around)
    → together (merge_next upper (record a { lower = r ∷ a.lower }))
      ≡ behind_range r (together (merge_next upper a))
unfolding merge_next
merge_next_behind r [] a = refl
merge_next_behind r (next ∷ rest) a = elim (Bool-cases (leb next.begin a.new.end)) [
  | inl t ↦ rw t refl
  | inr f ↦ rw f refl
]

abbrev settle_at : Option Range → Around → Ranges
settle_at o a = let b = merge_prev o a in together (merge_next b.upper b)

pub settle_behind :
    (r : Range) (a : Around)
    → r.end < a.new.begin
    → settle (record a { lower = r ∷ a.lower }) ≡ behind_range r (settle a)
unfolding settle merge_prev
settle_behind r a h = at a.lower
  where
    at :
        (lower : List Range)
        → settle (record a { lower = r ∷ lower })
          ≡ behind_range r (settle (record a { lower = lower }))
    at [] = rw (gt→leb a.new.begin r.end h) (merge_next_behind r a.upper (record a { lower = [] }))
    at (q ∷ qs) =
        elim (last_of (q ∷ qs))
          as (λ o.
            settle_at o (record a { lower = r ∷ q ∷ qs })
            ≡ behind_range r (settle_at o (record a { lower = q ∷ qs }))) [
              | none ↦ merge_next_behind r a.upper (record a { lower = q ∷ qs })
              | some p ↦ elim (Bool-cases (leb a.new.begin p.end)) [
                | inl t ↦ rw t (
                    merge_next_behind r a.upper (record {
                      lower = but_last (q ∷ qs);
                      new = record {
                        begin = p.begin;
                        end = if ltb a.new.end p.end then p.end else a.new.end;
                      };
                      upper = a.upper;
                      nodes = suc a.nodes;
                    }))
                | inr f ↦ rw f (merge_next_behind r a.upper (record a { lower = q ∷ qs }))
              ]
            ]

behind-Grown :
    (begin end b : ℕ) (r : Range) (rs : List Range) (nodes : ℕ) (t : Ranges)
    → Above b (r ∷ rs)
    → Grown begin end (suc r.end) rs nodes t
    → Grown begin end b (r ∷ rs) nodes (behind_range r t)
behind-Grown begin end b r rs nodes t s g = record {
  above = (s.0, s.1, g.above);
  covers = λ n x.
      ap (inside r.begin r.end x ||◌) (g.covers n.1 x)
      ∙ or_swap (inside r.begin r.end x) (inside begin end x) (has rs x);
  gains = λ x e.
      or_gain (inside r.begin r.end x) (has t.set x) (inside begin end x) (has rs x) e (g.gains x);
  kept_nodes = omega (arith, g.kept_nodes);
  spare = omega (arith, g.spare);
}

pub place-Grown :
    (begin end b : ℕ) (rs : List Range) (nodes : ℕ)
    → begin < end
    → b ≤ begin
    → Above b rs
    → Grown begin end b rs nodes (place begin end nodes rs)
unfolding settle merge_prev
place-Grown begin end b [] nodes h k s = merged-Grown begin end b [] nodes h k tt
place-Grown begin end b (r ∷ rs) nodes h k s = elim (Bool-cases (ltb r.begin begin)) [
  | inl t ↦ elim (Bool-cases (ltb r.end begin)) [
    | inl u ↦
        let below = ltb→lt r.end begin u in
        rw t (
          subst (Grown begin end b (r ∷ rs) nodes)
            (sym (
              settle_behind r
                (record {
                  lower = upto (starts_below begin) rs;
                  new = record { begin = begin; end = end };
                  upper = from (starts_below begin) rs;
                  nodes = nodes;
                })
                below))
            (behind-Grown begin end b r rs nodes (place begin end nodes rs) s
              (place-Grown begin end (suc r.end) rs nodes h below s.2)))
    | inr u ↦
        let touch : begin ≤ r.end = ground arith in
        let (v, w) = upto-Above begin (suc r.end) rs (omega arith) s.2 in
        rw (t, v, w, le→leb begin r.end touch)
          (absorb-Grown begin end b r rs nodes h (ltb→lt r.begin begin t) touch s)
  ]
  | inr f ↦ rw f (merged-Grown begin end b (r ∷ rs) nodes h k (ground arith, s.1, s.2))
]
