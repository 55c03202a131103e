-- ===== src/Threads/Healthy.antt =====
-- The invariant of the scheduler: the ring is not empty, its threads are different, and none is dead.
use spbau_os_hw.Prelude.{
  ℕ, ◌≡◌, ◌≢◌, refl, sym, subst, Bool, true, false, List, [], ◌∷◌, ◌++◌, update, All, All-append,
  All-map, All-zip, Avoids, Distinct, append-Distinct, ==_ne, if◌then◌else◌, ◌⊎◌, inl, inr, is_nil,
}
use spbau_os_hw.Prelude.Run.{ok}
use spbau_os_hw.Threads.{State, dead, running, dying, is_dead, System, switch_threads}
use spbau_os_hw.Threads.Switch.{
  IsGoing, switch_threads_running, switch_threads_dying, switch_threads_only,
}

pub record IsHealthy (s : System) : Type 0 where
  pub is_going : IsGoing s
  pub occupied : is_nil s.ring ≡ false
  pub distinct : Distinct s.ring
  pub alive : All (λ th. is_dead (s.state th) ≡ false) s.ring

alive-cases : (t : State) → is_dead t ≡ false → (t ≡ running) ⊎ (t ≡ dying)
alive-cases dead h = absurd (cc)
alive-cases running h = inl refl
alive-cases dying h = inr refl

-- A new state of one thread leaves the states of the others.
pub alive_update :
    (f : ℕ → State) (th : ℕ) (t : State) (xs : List ℕ)
    → Avoids th xs
    → All (λ x. is_dead (f x) ≡ false) xs
    → All (λ x. is_dead (update f th t x) ≡ false) xs
alive_update f th t xs a h =
    All-zip
      (λ x (n : th ≢ x) (l : is_dead (f x) ≡ false).
        subst (λ (b : Bool). is_dead (if b then t else f x) ≡ false)
          (sym (==_ne x th (λ e. n (sym e)))) l)
      xs a h

pub Distinct-last : (x : ℕ) (xs : List ℕ) → Avoids x xs → Distinct xs → Distinct (xs ++ x ∷ [])
Distinct-last x xs a d =
    append-Distinct xs (x ∷ []) d (tt, tt) (All-map (λ y (n : x ≢ y). ((λ e. n (sym e)), tt)) xs a)

pub nil_last : (x : ℕ) (xs : List ℕ) → is_nil (xs ++ x ∷ []) ≡ false
nil_last x [] = refl
nil_last x (y ∷ xs) = refl

-- In a healthy system `switch_threads` ends without a `BUG`, in a healthy system.
pub switch_threads-IsHealthy :
    (s : System) → IsHealthy s → (t : System) × (switch_threads s ≡ ok t) × IsHealthy t
switch_threads-IsHealthy s h = switch s.ring s refl h
  where
    switch :
        (r : List ℕ) (s : System)
        → s.ring ≡ r
        → IsHealthy s
        → (t : System) × (switch_threads s ≡ ok t) × IsHealthy t
    switch [] s e h =
        let b : true ≡ false = subst (λ (r : List ℕ). is_nil r ≡ false) e h.occupied in cc
    switch (x ∷ []) s e h = (s, switch_threads_only s x h.is_going e, h)
    switch (x ∷ y ∷ r) s e h =
        let d = subst (λ (l : List ℕ). Distinct l) e h.distinct in
        let a = subst (λ (l : List ℕ). All (λ th. is_dead (s.state th) ≡ false) l) e h.alive in
        elim (alive-cases (s.state x) a.0) [
          | inl c ↦ (
            record s { ring = y ∷ r ++ x ∷ [] },
            switch_threads_running s x y r h.is_going e c a.1.0,
            record {
              is_going = record { started = h.is_going.started; going = h.is_going.going };
              occupied = refl;
              distinct = Distinct-last x (y ∷ r) d.0 d.1;
              alive = All-append _ (y ∷ r) (x ∷ []) a.1 (a.0, tt);
            },
          )
          | inr c ↦ (
            record s { ring = y ∷ r; state = update s.state x dead },
            switch_threads_dying s x y r h.is_going e d.0 c a.1.0,
            record {
              is_going = record { started = h.is_going.started; going = h.is_going.going };
              occupied = refl;
              distinct = d.1;
              alive = alive_update s.state x dead (y ∷ r) d.0 a.1;
            },
          )
        ]
