-- ===== src/Spinlock.antt =====
-- The spinlock of src/src/spinlock.c, taken by any number of processors whose atomic steps
-- interleave. Each step is one atomic operation of `lock` or `unlock` on the one location, on whose
-- order all processors agree.
mod Tests
use native.Mathlib.Decide.{ℕ_discrete}
use spbau_os_hw.Prelude.{
  ℕ, ◌≡◌, ◌≢◌, refl, sym, subst, ap, ◌∙◌, Bool, true, false, update, ==_refl, ==_ne, ==_iff, ◌==◌,
  if◌then◌else◌, List, [], ◌∷◌, ◌⊎◌, inl, inr,
}

-- Where a processor stands: not in `lock`, before the load of the inner loop, before the exchange
-- of the outer loop, or between `lock` and `unlock`.
pub data Place : Type 0 where
  away spinning exchanging inside : Place

pub record Shared : Type 0 where
  pub locked : Bool
  pub place : ℕ → Place

-- `lock` called, a load, an exchange (which writes LOCKED and returns the value before), a store.
pub data Action : Type 0 where
  enter load exchange store : Action

abbrev pub after_load : Bool → Place
after_load true = spinning
after_load false = exchanging

abbrev pub after_exchange : Bool → Place
after_exchange true = spinning
after_exchange false = inside

-- The step of processor `p`; an action that does not fit its place changes nothing.
unfoldable pub act : ℕ → Place → Action → Shared → Shared
act p away enter s = record s { place = update s.place p spinning }
act p spinning load s = record s { place = update s.place p (after_load s.locked) }
act p exchanging exchange s = record s {
  locked = true;
  place = update s.place p (after_exchange s.locked);
}
act p inside store s = record s { locked = false; place = update s.place p away }
act p _ _ s = s

unfoldable pub run : List (ℕ × Action) → Shared → Shared
run [] s = s
run ((p, a) ∷ rest) s = run rest (act p (s.place p) a s)

abbrev pub unlocked : Shared
unlocked = record { locked = false; place = λ _. away }

-- The lock is free and nobody is inside, or it is held and at most one processor is inside.
pub record IsExclusive (s : Shared) : Type 0 where
  pub free : s.locked ≡ false → (p : ℕ) → s.place p ≢ inside
  pub one : (p q : ℕ) → s.place p ≡ inside → s.place q ≡ inside → p ≡ q

abbrev is_inside : Place → Bool
is_inside inside = true
is_inside _ = false

not_inside : (t : Place) → is_inside t ≡ false → t ≢ inside
not_inside t h e = let b : true ≡ false = subst (λ (x : Place). is_inside x ≡ false) e h in cc

placed :
    (f : ℕ → Place) (p q : ℕ) (t : Place)
    → update f p t q ≡ inside
    → ((q ≡ p) × (t ≡ inside)) ⊎ ((q ≢ p) × (f q ≡ inside))
placed f p q t h = elim (ℕ_discrete q p) [
  | yes e ↦ inl (e, subst (λ (b : Bool). (if b then t else f q) ≡ inside) ((==_iff q p).1 e) h)
  | no n ↦ inr (n, subst (λ (b : Bool). (if b then t else f q) ≡ inside) (==_ne q p n) h)
]

-- A processor that moves to a place outside leaves the others as they are.
outside :
    (s : Shared) (p : ℕ) (t : Place) (b : Bool)
    → IsExclusive s
    → t ≢ inside
    → ((q : ℕ) → b ≡ false → q ≢ p → s.place q ≢ inside)
    → IsExclusive (record s { locked = b; place = update s.place p t })
outside s p t b h n k = record {
  free = λ e q i. elim (placed s.place p q t i) [ inl x ↦ n x.1 | inr x ↦ k q e x.0 x.1 ];
  one = λ q r i j. elim (placed s.place p q t i) [
    | inl x ↦ absurd (n x.1)
    | inr x ↦ elim (placed s.place p r t j) [ inl y ↦ absurd (n y.1) | inr y ↦ h.one q r x.1 y.1 ]
  ];
}

taken :
    (s : Shared) (p : ℕ)
    → IsExclusive s
    → s.locked ≡ false
    → IsExclusive (record s { locked = true; place = update s.place p inside })
taken s p h e = record { free = λ f. absurd (cc); one = λ q r i j. only q i ∙ sym (only r j) }
  where
    only : (q : ℕ) → update s.place p inside q ≡ inside → q ≡ p
    only q i = elim (placed s.place p q inside i) [ inl x ↦ x.0 | inr x ↦ absurd (h.free e q x.1) ]

load_outside : (b : Bool) → after_load b ≢ inside
load_outside true = not_inside spinning refl
load_outside false = not_inside exchanging refl

exchanged :
    (s : Shared) (p : ℕ) (b : Bool)
    → IsExclusive s
    → s.locked ≡ b
    → IsExclusive (record s { locked = true; place = update s.place p (after_exchange b) })
exchanged s p true h e = outside s p spinning true h (not_inside spinning refl) (λ q f. absurd (cc))
exchanged s p false h e = taken s p h e

act-IsExclusive :
    (p : ℕ) (t : Place) (a : Action) (s : Shared)
    → s.place p ≡ t
    → IsExclusive s
    → IsExclusive (act p t a s)
unfolding act
act-IsExclusive p away enter s e h =
    outside s p spinning s.locked h (not_inside spinning refl) (λ q f n. h.free f q)
act-IsExclusive p spinning load s e h =
    outside s p (after_load s.locked) s.locked h (load_outside s.locked) (λ q f n. h.free f q)
act-IsExclusive p exchanging exchange s e h = exchanged s p s.locked h refl
act-IsExclusive p inside store s e h =
    outside s p away false h (not_inside away refl) (λ q f n i. n (h.one q p i e))
act-IsExclusive p _ _ s e h = h

run-IsExclusive :
    (steps : List (ℕ × Action)) (s : Shared) → IsExclusive s → IsExclusive (run steps s)
unfolding run
run-IsExclusive [] s h = h
run-IsExclusive ((p, a) ∷ rest) s h =
    run-IsExclusive rest (act p (s.place p) a s) (act-IsExclusive p (s.place p) a s refl h)

-- Whatever the processors do and in whatever order, from the unlocked lock on: two that are both
-- between `lock` and `unlock` are the same, and while the lock is free none is.
pub run_exclusive :
    (steps : List (ℕ × Action))
    → ((p q : ℕ)
        → (run steps unlocked).place p ≡ inside
        → (run steps unlocked).place q ≡ inside
        → p ≡ q)
      × ((run steps unlocked).locked ≡ false → (p : ℕ) → (run steps unlocked).place p ≢ inside)
run_exclusive steps =
    let none_inside : IsExclusive unlocked = record {
      free = λ e p. not_inside away refl;
      one = λ p q i. absurd (not_inside away refl i);
    } in
    let h = run-IsExclusive steps unlocked none_inside in (h.one, h.free)

-- If the lock is free, a processor that waits in the inner loop is inside after its next load and
-- exchange, provided that no other one acts between.
pub run_free :
    (p : ℕ) (s : Shared)
    → s.locked ≡ false
    → s.place p ≡ spinning
    → (run ((p, load) ∷ (p, exchange) ∷ []) s).place p ≡ inside
unfolding run act
run_free p s f e =
    let s1 : Shared = record { locked = false; place = update s.place p exchanging } in
    let first : act p (s.place p) load s ≡ s1 =
      ap (λ (t : Place). act p t load s) e
      ∙ ap (λ (b : Bool). record { locked = b; place = update s.place p (after_load b) }) f in
    let second : s1.place p ≡ exchanging =
      ap (λ (b : Bool). if b then exchanging else s.place p) (==_refl p) in
    subst (λ (x : Shared). (run ((p, exchange) ∷ []) x).place p ≡ inside) (sym first)
      (ap (λ (t : Place). (act p t exchange s1).place p) second
        ∙ ap (λ (b : Bool). if b then inside else s1.place p) (==_refl p))
