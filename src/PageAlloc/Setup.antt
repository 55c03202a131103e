-- ===== src/PageAlloc/Setup.antt =====
-- The initial free lists: `__page_alloc_zone_free` cuts a range of pages into aligned blocks.
use spbau_os_hw.Prelude.{
  ℕ, zero, suc, ◌+◌, ◌-◌, ◌/◌, ◌^◌, ◌≤◌, ◌<◌, ◌≡◌, refl, ap, subst, Bool, true, false, arith, ◌==◌,
  if◌then◌else◌, List, [], ◌∷◌, ◌++◌, All, update, Bool-cases, inl, inr, ◌&&◌, ge→ltb, leb, ltb,
  gt→leb,
}
use spbau_os_hw.Prelude.Bits.{test_bit}
use spbau_os_hw.Prelude.Run.{ok}
use spbau_os_hw.PageAlloc.{
  Zone, max_order, page_is_free, page_set_free, mark_free, fit_order, free_range_loop, zone_free,
}
use spbau_os_hw.PageAlloc.Blocks.{Aligned, pow_pos}
use spbau_os_hw.PageAlloc.Flags.{marked, page_set_order-ok, page_is_free-marked, page_order-marked}
use spbau_os_hw.PageAlloc.Cover.{covers, sum_orders}
use spbau_os_hw.PageAlloc.Invariant.{Block, sum_blocks, IsBlock, Inv}
use spbau_os_hw.PageAlloc.Moves.{regroup, put, Inserted-last}

Aligned-suc : (p k : ℕ) → Aligned p k → test_bit p k ≡ false → Aligned p (suc k)
unfolding test_bit
Aligned-suc p zero a h = (ground arith, tt)
Aligned-suc p (suc k) a h = (a.0, Aligned-suc (p / 2) k a.1 h)

-- The order fits: the block is aligned, and ends in the range.
pub record Fits (page end order k : ℕ) : Type 0 where
  pub from : order ≤ k
  pub upto : k ≤ max_order
  pub aligned : Aligned page k
  pub ends : page + 2 ^ k ≤ end

fit_order-Fits :
    (n page end order : ℕ)
    → order + n ≡ max_order
    → Aligned page order
    → page + 2 ^ order ≤ end
    → Fits page end order (fit_order n page end order)
unfolding fit_order
fit_order-Fits zero page end order e a h = record {
  from = omega arith;
  upto = omega arith;
  aligned = a;
  ends = h;
}
fit_order-Fits (suc n) page end order e a h = elim (Bool-cases (test_bit page order)) [
  | inl odd ↦ rw odd (record { from = omega arith; upto = omega arith; aligned = a; ends = h })
  | inr even ↦ elim (Bool-cases (ltb end (page + 2 ^ suc order))) [
    | inl over ↦
        rw (even, over) (record { from = omega arith; upto = omega arith; aligned = a; ends = h })
    | inr room ↦
        let f =
          fit_order-Fits n page end (suc order) (omega arith) (Aligned-suc page order a even)
            (ground arith) in
        rw (even, room)
          (record {
            from = omega (arith, f.from);
            upto = f.upto;
            aligned = f.aligned;
            ends = f.ends;
          })
  ]
]

-- `n` pages from `p` on, one by one.
abbrev pub singles : ℕ → ℕ → List Block
singles zero p = []
singles (suc n) p = (p, 0) ∷ singles n (suc p)

-- 1 if page `g` lies in the range, else 0.
unfoldable pub in_range : ℕ → ℕ → ℕ → ℕ
in_range b e g = if leb b g && ltb g e then 1 else 0

singles-cover : (n p g : ℕ) → sum_blocks covers (singles n p) g ≡ in_range p (p + n) g
unfolding covers in_range
singles-cover zero p g = ground arith
singles-cover (suc n) p g = ground (arith, singles-cover n (suc p) g)

singles-IsBlock : (z : Zone) (n p : ℕ) → z.begin ≤ p → p + n ≤ z.end → All (IsBlock z) (singles n p)
singles-IsBlock z zero p l h = tt
singles-IsBlock z (suc n) p l h =
    ((l, omega arith, tt, omega arith), singles-IsBlock z n (suc p) (omega arith) (omega arith))

range_split :
    (p e k g : ℕ) → p + 2 ^ k ≤ e → in_range p e g ≡ covers p k g + in_range (p + 2 ^ k) e g
unfolding in_range covers
range_split p e k g h = ground (arith, pow_pos k)

-- The zone with the block behind the others of its order.
abbrev appended : Zone → (b k : ℕ) → Zone
appended z b k = record z {
  order = update z.order k (z.order k ++ b ∷ []);
  pages = update z.pages b (marked (z.pages b) k);
}

mark_free-appended :
    (z : Zone) (b k : ℕ)
    → k ≤ max_order
    → mark_free (record z { order = update z.order k (z.order k ++ b ∷ []) }) b k
      ≡ ok (appended z b k)
unfolding mark_free marked page_set_free
mark_free-appended z b k h = rw (page_set_order-ok (z.pages b) k (omega arith))

appended-Inv :
    {T : ℕ → ℕ} {z : Zone} {W A : List Block} (b k : ℕ)
    → Inv T z ((b, k) ∷ W) A
    → Inv T (appended z b k) W A
appended-Inv {z} b k inv =
    put b k (z.order k ++ b ∷ []) (marked (z.pages b) k) (Inserted-last b (z.order k))
      (
        page_is_free-marked (z.pages b) k,
        page_order-marked (z.pages b) k (omega (arith, inv.work.0.3)),
      )
      inv

pub sum_orders-empty :
    (w : ℕ → ℕ → ℕ → ℕ) (n : ℕ) (f : ℕ → List ℕ) (g : ℕ)
    → ((k : ℕ) → f k ≡ [])
    → sum_orders w n f g ≡ 0
unfolding sum_orders
sum_orders-empty w zero f g e = refl
sum_orders-empty w (suc n) f g e = rw (e n) (omega (arith, sum_orders-empty w n f g e))

-- With a round for each page the loop ends, and all pages of the range are on the lists.
free_range_loop-Inv :
    {T : ℕ → ℕ} {A : List Block} (f : ℕ) (z : Zone) (p n : ℕ)
    → n < f
    → z.begin ≤ p
    → p + n ≤ z.end
    → Inv T z (singles n p) A
    → (z' : Zone) × (free_range_loop f z p (p + n) ≡ ok z') × Inv T z' [] A
unfolding free_range_loop
free_range_loop-Inv zero z p n h lo hi inv = absurd (omega arith)
free_range_loop-Inv {T} {A} (suc f) z p zero h lo hi inv =
    let e : (p == p + 0) ≡ true = ground arith in (z, rw e, inv)
free_range_loop-Inv {T} {A} (suc f) z p (suc n) h lo hi inv =
    let more : (p == p + suc n) ≡ false = ground arith in
    let end = p + suc n in
    let k = fit_order max_order p end 0 in
    let fit = fit_order-Fits max_order p end 0 refl tt (omega arith) in
    let rest = end - (p + 2 ^ k) in
    let e : p + 2 ^ k + rest ≡ end = omega (arith, fit.ends) in
    let cut =
      regroup ((p, k) ∷ singles rest (p + 2 ^ k)) inv
        (
          (lo, omega (arith, fit.ends), fit.aligned, fit.upto),
          singles-IsBlock z rest (p + 2 ^ k) (omega arith) (omega (arith, fit.ends)),
        )
        (λ g. omega (
          arith,
          singles-cover (suc n) p g,
          singles-cover rest (p + 2 ^ k) g,
          ap (λ i. in_range (p + 2 ^ k) i g) e,
          range_split p end k g fit.ends,
        )) in
    let (z', d, i) =
      free_range_loop-Inv f (appended z p k) (p + 2 ^ k) rest (omega (arith, pow_pos k))
        (omega arith) (omega arith) (appended-Inv p k cut) in
    (
      z',
      rw (more, mark_free-appended z p k fit.upto)
          (subst (λ i. free_range_loop f (appended z p k) (p + 2 ^ k) i ≡ ok z') e d),
      i,
    )

-- Under the invariant, a range of pages of the zone that is not empty and that nothing covers is put
-- on the lists: the operation ends without a `BUG`, and afterwards the invariant holds with the pages
-- of the range covered, too.
pub zone_free-Inv :
    {T : ℕ → ℕ} {A : List Block} (z : Zone) (b e : ℕ)
    → z.begin ≤ b
    → b < e
    → e ≤ z.end
    → ((g : ℕ) → T g + in_range b e g ≤ 1)
    → Inv T z [] A
    → (z' : Zone) × (zone_free b e z ≡ ok z') × Inv (λ g. T g + in_range b e g) z' [] A
unfolding zone_free
zone_free-Inv {T} {A} z b e lo l hi free inv =
    let end : b + (e - b) ≡ e = omega arith in
    let (z', d, i) =
      free_range_loop-Inv (suc (e - b)) z b (e - b) (omega arith) lo (omega arith) (record {
        listed = inv.listed;
        work = singles-IsBlock z (e - b) b lo (omega arith);
        held = inv.held;
        total = λ g.
            omega (arith, inv.total g, singles-cover (e - b) b g, ap (λ i. in_range b i g) end);
        once = free;
        known = λ p x y f. omega (arith, inv.known p x y f);
      }) in
    (
      z',
      rw
          (
            ge→ltb b z.begin lo,
            gt→leb z.end b (omega arith),
            gt→leb e z.begin (omega arith),
            ge→ltb z.end e hi,
          )
          (subst (λ i. free_range_loop (suc (e - b)) z b i ≡ ok z') end d),
      i,
    )

-- A zone with empty lists and no page marked free satisfies the invariant, with no page managed.
pub empty_zone-Inv :
    (z : Zone)
    → ((k : ℕ) → z.order k ≡ [])
    → ((p : ℕ) → page_is_free (z.pages p) ≡ false)
    → Inv (λ _. 0) z [] []
empty_zone-Inv z empty busy = record {
  listed = λ k _. rw (empty k) tt;
  work = tt;
  held = tt;
  total = λ g. omega (arith, sum_orders-empty covers 19 z.order g empty);
  once = λ g. omega arith;
  known = λ p _ _ f. absurd (marked_busy (busy p) f);
}
  where
    marked_busy : {b : Bool} → b ≡ false → b ≡ true → ⊥
    marked_busy e f = cc
