-- ===== src/PageAlloc/Alloc.antt =====
-- `page_alloc_zone` keeps the invariant and hands out a block of the order asked for.
use native.Mathlib.Decide.{dec_lt}
use native.Mathlib.Nat.{pow-suc}
use spbau_os_hw.Prelude.{
  ℕ, zero, suc, ◌+◌, ◌-◌, ◌^◌, ◌≤◌, ◌<◌, ◌≡◌, ◌≢◌, refl, sym, subst, ◌∙◌, Bool, true, false, arith,
  ◌==◌, List, [], ◌∷◌, update, ==_ne, ==_iff, ==_refl, Bool-cases, inl, inr, ◌⊎◌, ◌&&◌, lt→ltb,
  ge→ltb, none, some, leb,
}
use spbau_os_hw.Prelude.Bits.{flip_bit}
use spbau_os_hw.Prelude.Run.{ok}
use spbau_os_hw.PageAlloc.{
  Zone, max_order, page_is_free, page_set_busy, page_set_free, mark_free, is_empty, find_order,
  split_down, take_first, page_alloc_zone, take_out,
}
use spbau_os_hw.PageAlloc.Blocks.{pow_pos, flip_bit-lower, Aligned-add, Aligned-le}
use spbau_os_hw.PageAlloc.Flags.{
  marked, page_set_order-ok, page_is_free-marked, page_order-marked, page_is_free-busy,
}
use spbau_os_hw.PageAlloc.Cover.{covers_halves, covers_self}
use spbau_os_hw.PageAlloc.Invariant.{Block, Inv}
use spbau_os_hw.PageAlloc.Moves.{
  regroup, hold, unlist, make_busy, put, Inserted-first, take_out_first,
}

-- The zone with the block put on its list.
pub listed_zone : Zone → (b k : ℕ) → Zone
listed_zone z b k = record z {
  order = update z.order k (b ∷ z.order k);
  pages = update z.pages b (marked (z.pages b) k);
}

-- Putting a block at work on its list succeeds.
pub mark_free-ok :
    (z : Zone) (b k : ℕ)
    → k ≤ max_order
    → mark_free (record z { order = update z.order k (b ∷ z.order k) }) b k ≡ ok (listed_zone z b k)
unfolding mark_free listed_zone marked page_set_free
mark_free-ok z b k h = rw (page_set_order-ok (z.pages b) k (omega arith))

pub listed_zone_other :
    (z : Zone) (b k p : ℕ)
    → p ≢ b
    → page_is_free (z.pages p) ≡ false
    → page_is_free ((listed_zone z b k).pages p) ≡ false
unfolding listed_zone
listed_zone_other z b k p h e = rw (==_ne p b h) e

pub listed_zone-Inv :
    {T : ℕ → ℕ} {z : Zone} {W A : List Block} (b k : ℕ)
    → Inv T z ((b, k) ∷ W) A
    → Inv T (listed_zone z b k) W A
unfolding listed_zone
listed_zone-Inv {z} b k inv =
    put b k (b ∷ z.order k) (marked (z.pages b) k) (Inserted-first b (z.order k))
      (
        page_is_free-marked (z.pages b) k,
        page_order-marked (z.pages b) k (omega (arith, inv.work.0.3)),
      )
      inv

-- The block at work, split: its upper half goes on the list of the order below.
split_halves :
    {T : ℕ → ℕ} {z : Zone} {A : List Block} (p c : ℕ)
    → Inv T z ((p, suc c) ∷ []) A
    → Inv T (listed_zone z (flip_bit p c) c) ((p, c) ∷ []) A
split_halves {z} p c inv =
    let w = inv.work.0 in
    let e : flip_bit p c ≡ p + 2 ^ c = flip_bit-lower p c w.2 in
    listed_zone-Inv (flip_bit p c) c (
      rw e (
        regroup ((p + 2 ^ c, c) ∷ (p, c) ∷ []) inv
          (
            (
              omega (arith, w.0),
              omega (arith, w.1, pow-suc 2 c),
              Aligned-add p c w.2,
              omega (arith, w.3),
            ),
            (
              (
                w.0,
                omega (arith, w.1, pow-suc 2 c),
                Aligned-le p c (suc c) (omega arith) w.2,
                omega (arith, w.3),
              ),
              tt,
            ),
          )
          (λ g. omega (arith, covers_halves p c g))))

ne_upper : (p c : ℕ) → p ≢ p + 2 ^ c
ne_upper p c t = omega (arith, pow_pos c)

-- From a block of order `c` that is marked busy, the loop leaves the block of order `order` at
-- work, still marked busy.
split_down-Inv :
    {T : ℕ → ℕ} {A : List Block} (z : Zone) (p order c : ℕ)
    → order ≤ c
    → page_is_free (z.pages p) ≡ false
    → Inv T z ((p, c) ∷ []) A
    → (z' : Zone) × (split_down z p order c ≡ ok z')
      × Inv T z' ((p, order) ∷ []) A
      × (page_is_free (z'.pages p) ≡ false)
unfolding split_down
split_down-Inv {T} {A} z p order zero h busy inv =
    let e : 0 ≡ order = omega arith in (z, refl, subst (λ k. Inv T z ((p, k) ∷ []) A) e inv, busy)
split_down-Inv {T} {A} z p order (suc c) h busy inv = elim (Bool-cases (suc c == order)) [
  | inl stop ↦
      (z, rw stop, subst (λ k. Inv T z ((p, k) ∷ []) A) ((==_iff (suc c) order).0 stop) inv, busy)
  | inr go ↦
      let b = flip_bit p c in
      let e : b ≡ p + 2 ^ c = flip_bit-lower p c inv.work.0.2 in
      let (z', d, i, f) =
        split_down-Inv (listed_zone z b c) p order c (ground arith)
          (listed_zone_other z b c p (λ t. ne_upper p c (t ∙ e)) busy) (split_halves p c inv) in
      (z', rw (go, mark_free-ok z b c (omega (arith, inv.work.0.3))) d, i, f)
]

-- What the search finds: the first list from `current` on that is not empty, or 19.
pub record Found (z : Zone) (current c : ℕ) : Type 0 where
  pub from : current ≤ c
  pub upto : c ≤ 19
  pub skipped : (j : ℕ) → current ≤ j → j < c → z.order j ≡ []
  pub stopped : (is_empty (z.order c) ≡ false) ⊎ (c ≡ 19)

empty_eq : (xs : List ℕ) → is_empty xs ≡ true → xs ≡ []
empty_eq [] h = refl
empty_eq (x ∷ xs) h = cc

stop_cases : (b : Bool) (c : ℕ) → (b && leb c max_order) ≡ false → c ≤ 19 → (b ≡ false) ⊎ (c ≡ 19)
stop_cases b c h l = ground arith

skip :
    (z : Zone) (current c j : ℕ)
    → z.order current ≡ []
    → ((i : ℕ) → suc current ≤ i → i < c → z.order i ≡ [])
    → current ≤ j
    → j < c
    → z.order j ≡ []
skip z current c j e h a b = elim (dec_lt current j) [
  | yes later ↦ h j (omega arith) b
  | no first ↦ let t : j ≡ current = omega arith in subst (λ i. z.order i ≡ []) (sym t) e
]

-- With a round for each order from `current` to 19 the search ends.
find_order-Found :
    (f : ℕ) (z : Zone) (current : ℕ)
    → current ≤ 19
    → 20 ≤ current + f
    → (c : ℕ) × (find_order f z current ≡ some c) × Found z current c
unfolding find_order
find_order-Found zero z current h l = absurd (omega arith)
find_order-Found (suc f) z current h l =
    elim (Bool-cases (is_empty (z.order current) && leb current max_order)) [
      | inl more ↦
          let (c, e, r) = find_order-Found f z (suc current) (ground arith) (omega arith) in
          (
            c,
            rw more e,
            record {
              from = omega (arith, r.from);
              upto = r.upto;
              skipped = λ j a b.
                  skip z current c j (empty_eq (z.order current) (ground arith)) r.skipped a b;
              stopped = r.stopped;
            },
          )
      | inr stop ↦ (
        current,
        rw stop,
        record {
          from = omega arith;
          upto = h;
          skipped = λ j a b. absurd (omega arith);
          stopped = stop_cases (is_empty (z.order current)) current stop h;
        },
      )
    ]

-- The first block of the list of order `c` is taken to work, and marked busy.
take_first-Inv :
    {T : ℕ → ℕ} {A : List Block} (z : Zone) (order c : ℕ)
    → order ≤ c
    → c ≤ max_order
    → (ps : List ℕ) → z.order c ≡ ps
    → is_empty ps ≡ false
    → Inv T z [] A
    → (p : ℕ) × (z' : Zone) × (take_first z order c ps ≡ ok (some p, z'))
      × Inv T z' [] ((p, order) ∷ A)
unfolding take_first
take_first-Inv z order c h l [] e n inv = cc
take_first-Inv {T} {A} z order c h l (p ∷ rest) e n inv =
    let taken =
      unlist p c rest l (subst (λ ps. take_out p ps ≡ ok rest) (sym e) (take_out_first p rest))
        inv in
    let busy =
      make_busy p (page_set_busy (z.pages p)) (page_is_free-busy (z.pages p))
        (omega (arith, covers_self p c)) taken in
    let (z', d, i, f) =
      split_down-Inv _ p order c h (rw (==_refl p) (page_is_free-busy (z.pages p))) busy in
    (p, z', rw d, hold p order f i)

-- Under the invariant, an allocation of order at most 18 does not stop in a `BUG`. Either every
-- list from that order on is empty, and it reports failure and changes nothing; or it returns the
-- first page of a block of the order, and the invariant holds with the block among those held.
pub page_alloc_zone-Inv :
    {T : ℕ → ℕ} {A : List Block} (z : Zone) (order : ℕ)
    → order ≤ max_order
    → Inv T z [] A
    → ((page_alloc_zone z order ≡ ok (none, z))
        × ((j : ℕ) → order ≤ j → j ≤ max_order → z.order j ≡ []))
      ⊎ ((p : ℕ) × (z' : Zone) × (page_alloc_zone z order ≡ ok (some p, z'))
          × Inv T z' [] ((p, order) ∷ A))
unfolding page_alloc_zone
page_alloc_zone-Inv z order h inv =
    let (c, e, r) = find_order-Found (20 - order) z order (omega arith) (omega arith) in
    elim (dec_lt 18 c) [
      | yes none_left ↦ inl (
        rw (e, page_alloc_zone) (rw (lt→ltb 18 c none_left)),
        λ j a b. r.skipped j a (omega arith),
      )
      | no some_left ↦
          let (p, z', d, i) =
            take_first-Inv z order c r.from (omega arith) (z.order c) refl
              (not_last r.stopped (omega arith)) inv in
          inr (p, z', rw (e, page_alloc_zone) (rw (ge→ltb 18 c (omega arith)) d), i)
    ]
  where
    not_last : {b : Bool} {c : ℕ} → (b ≡ false) ⊎ (c ≡ 19) → c ≤ 18 → b ≡ false
    not_last (inl t) l = t
    not_last (inr t) l = absurd (omega arith)
