-- ===== src/Threads/Reach.antt =====
-- The runs of the scheduler as a relation of steps, and the turns that the threads take.
use mathlib.Core.List.{append_assoc, append-nil}
use spbau_os_hw.Prelude.{
  ℕ, ◌≡◌, ◌≢◌, refl, sym, subst, ap, ◌∙◌, ◌⊎◌, inl, inr, none, some, Bool, true, false, List, [],
  ◌∷◌, ◌++◌, update, All, All-append, Avoids, Distinct, ==_refl, ==_ne, Bool-cases, if◌then◌else◌,
  length, is_nil,
}
use spbau_os_hw.Prelude.Run.{Run, ok, ◌>>=◌}
use spbau_os_hw.Threads.{
  State, dead, running, dying, is_dead, System, thread_setup, switch_threads, mark_dying,
  thread_kill, kill_locked, new_thread_init, thread_add, take_lock, unlock, after_lock,
}
use spbau_os_hw.Threads.Switch.{
  IsGoing, switch_threads_running, switch_threads_only, switch_threads_dying, switches,
}
use spbau_os_hw.Threads.Healthy.{
  IsHealthy, alive_update, Distinct-last, nil_last, switch_threads-IsHealthy,
}

-- The lock has no part in what is healthy.
relock : (b : Bool) (s : System) → IsHealthy s → IsHealthy (record s { locked = b })
relock b s h = record {
  is_going = record { started = h.is_going.started; going = h.is_going.going };
  occupied = h.occupied;
  distinct = h.distinct;
  alive = h.alive;
}

-- A thread that is not in the ring of a healthy system joins it as a running thread.
pub new_thread_init-IsHealthy :
    (th : ℕ) (s : System) → Avoids th s.ring → IsHealthy s → IsHealthy (new_thread_init th s)
unfolding new_thread_init thread_add
new_thread_init-IsHealthy th s a h = record {
  is_going = record { started = h.is_going.started; going = h.is_going.going };
  occupied = nil_last th s.ring;
  distinct = Distinct-last th s.ring a h.distinct;
  alive = All-append _ s.ring (th ∷ []) (alive_update s.state th running s.ring a h.alive) (
    subst (λ (b : Bool). is_dead (if b then running else s.state th) ≡ false) (sym (==_refl th))
        refl,
    tt,
  );
}

-- The system in which the head, `x`, is marked dying.
abbrev with_dying : ℕ → System → System
with_dying x s = record s { state = update s.state x dying }

update_here : (s : System) (x : ℕ) (t : State) → update s.state x t x ≡ t
update_here s x t = rw (==_refl x) refl

with_dying-IsHealthy :
    (s : System) (x : ℕ) (xs : List ℕ) → s.ring ≡ x ∷ xs → IsHealthy s → IsHealthy (with_dying x s)
with_dying-IsHealthy s x xs e h =
    let d = subst (λ (l : List ℕ). Distinct l) e h.distinct in
    let a = subst (λ (l : List ℕ). All (λ th. is_dead (s.state th) ≡ false) l) e h.alive in
    record {
      is_going = record { started = h.is_going.started; going = h.is_going.going };
      occupied = h.occupied;
      distinct = h.distinct;
      alive =
          subst (λ (l : List ℕ). All (λ th. is_dead (update s.state x dying th) ≡ false) l) (sym e)
            (ap is_dead (update_here s x dying), alive_update s.state x dying xs d.0 a.1);
    }

-- The head of a healthy system can be marked, and the system stays healthy.
marked : (s : System) → IsHealthy s → (t : System) × (mark_dying s.ring s ≡ ok t) × IsHealthy t
unfolding mark_dying
marked s h = mark s.ring refl
  where
    mark : (r : List ℕ) → s.ring ≡ r → (t : System) × (mark_dying r s ≡ ok t) × IsHealthy t
    mark [] e = let b : true ≡ false = subst (λ (r : List ℕ). is_nil r ≡ false) e h.occupied in cc
    mark (x ∷ xs) e = (with_dying x s, refl, with_dying-IsHealthy s x xs e h)

head_marked :
    (s : System) (x : ℕ) (xs : List ℕ)
    → s.ring ≡ x ∷ xs
    → mark_dying s.ring (record s { locked = true })
      ≡ ok (record s { state = update s.state x dying; locked = true })
unfolding mark_dying
head_marked s x xs e = ap (λ (r : List ℕ). mark_dying r (record s { locked = true })) e

-- Where the lock is free, `thread_kill` marks the head and switches.
kill_free :
    (s u : System)
    → s.locked ≡ false
    → mark_dying s.ring (record s { locked = true }) ≡ ok u
    → thread_kill s ≡ some (switch_threads (unlock u))
unfolding thread_kill kill_locked take_lock
kill_free s u b e =
    ap
      (λ (l : Bool). after_lock kill_locked (if l then none else some (record s { locked = true })))
      b
    ∙ ap (λ (r : Run System). some (r >>= λ v. switch_threads (unlock v))) e

kill_waits : (s : System) → s.locked ≡ true → thread_kill s ≡ none
unfolding thread_kill take_lock
kill_waits s b =
    ap
      (λ (l : Bool). after_lock kill_locked (if l then none else some (record s { locked = true })))
      b

-- In a healthy system `thread_kill` waits, and then the lock is taken, or it ends without a `BUG`.
kill_ends :
    (s : System)
    → IsHealthy s
    → ((s.locked ≡ true) × (thread_kill s ≡ none))
      ⊎ ((s.locked ≡ false) × ((t : System) × (thread_kill s ≡ some (ok t))))
unfolding unlock
kill_ends s h = elim (Bool-cases s.locked) [
  | inl b ↦ inl (b, kill_waits s b)
  | inr b ↦
      let (u, e, k) = marked (record s { locked = true }) (relock true s h) in
      let (t, f, l) = switch_threads-IsHealthy (record u { locked = false }) (relock false u k) in
      inr (b, (t, kill_free s u b e ∙ ap some f))
]

-- If a system is healthy, the lock free and `x` the head of the ring, `thread_kill` ends without a
-- `BUG`, in a healthy system with the lock free, and the states of the other threads are as before.
-- If there are other threads, the ring is these, in their order, and `x` is dead. If there are none,
-- the ring is as before, and `x` is dying.
pub thread_kill-IsHealthy :
    (s : System) (x : ℕ) (rest : List ℕ)
    → IsHealthy s
    → s.ring ≡ x ∷ rest
    → s.locked ≡ false
    → (t : System) × (thread_kill s ≡ some (ok t))
      × IsHealthy t
      × (t.ring ≡ (if is_nil rest then x ∷ [] else rest))
      × (t.state x ≡ (if is_nil rest then dying else dead))
      × ((y : ℕ) → y ≢ x → t.state y ≡ s.state y)
      × (t.locked ≡ false)
unfolding unlock mark_dying
thread_kill-IsHealthy s x [] h e b =
    let u : System = record s { state = update s.state x dying; locked = false } in
    let k : IsHealthy u = relock false (with_dying x s) (with_dying-IsHealthy s x [] e h) in
    let f = switch_threads_only u x k.is_going e in
    (
      u,
      kill_free s (record u { locked = true }) b (head_marked s x [] e) ∙ ap some f,
      k,
      e,
      update_here s x dying,
      (λ y n. rw (==_ne y x n) refl),
      refl,
    )
thread_kill-IsHealthy s x (z ∷ rest) h e b =
    let u : System = record s { state = update s.state x dying; locked = false } in
    let k : IsHealthy u = relock false (with_dying x s) (with_dying-IsHealthy s x (z ∷ rest) e h) in
    let d = subst (λ (l : List ℕ). Distinct l) e k.distinct in
    let a = subst (λ (l : List ℕ). All (λ th. is_dead (u.state th) ≡ false) l) e k.alive in
    let t : System = record u { ring = z ∷ rest; state = update u.state x dead } in
    (
      t,
      kill_free s (record u { locked = true }) b (head_marked s x (z ∷ rest) e)
          ∙ ap some
              (switch_threads_dying u x z rest k.is_going e d.0 (update_here s x dying) a.1.0),
      record {
        is_going = record { started = h.is_going.started; going = h.is_going.going };
        occupied = refl;
        distinct = d.1;
        alive = alive_update u.state x dead (z ∷ rest) d.0 a.1;
      },
      refl,
      update_here u x dead,
      (λ y n. rw (==_ne y x n) refl),
      refl,
    )

-- Before `thread_setup` nothing runs.
abbrev pub boot : System
boot = record {
  ring = [];
  state = λ _. dead;
  all_started = false;
  all_proc_ended = false;
  locked = false;
}

-- The scheduler from `thread_setup` on, with the steps of `thread_create` and `thread_kill` one by
-- one: a switch by the timer may come between any two, whether the lock is held or not. Which thread
-- holds the lock is not kept, so that where it is held, any of the steps under the lock may come.
pub data Reach (kernel : ℕ) : System → Type 0 where
  set_up : Reach kernel (thread_setup kernel boot)
  switched : {s t : System} → Reach kernel s → switch_threads s ≡ ok t → Reach kernel t
  lock_taken : {s t : System} → Reach kernel s → take_lock s ≡ some t → Reach kernel t
  added :
      {s : System} (th : ℕ)
      → Reach kernel s
      → s.locked ≡ true
      → Avoids th s.ring
      → Reach kernel (new_thread_init th s)
  head_dying :
      {s t : System}
      → Reach kernel s
      → s.locked ≡ true
      → mark_dying s.ring s ≡ ok t
      → Reach kernel t
  lock_given : {s : System} → Reach kernel s → s.locked ≡ true → Reach kernel (unlock s)

into :
    {s : System} {r : Run System}
    → ((t : System) × (r ≡ ok t) × IsHealthy t)
    → r ≡ ok s
    → IsHealthy s
into {s} (t, e, h) f = subst IsHealthy (cc) h

take_lock-IsHealthy : (s t : System) → IsHealthy s → take_lock s ≡ some t → IsHealthy t
unfolding take_lock
take_lock-IsHealthy s t h e = elim (Bool-cases s.locked) [
  | inl b ↦ absurd (let n : none ≡ some t = rw b at e in cc)
  | inr b ↦
      let n : some (record s { locked = true }) ≡ some t = rw b at e in
      subst IsHealthy (cc) (relock true s h)
]

-- Every system that is reached is healthy.
pub Reach-IsHealthy : {kernel : ℕ} {s : System} → Reach kernel s → IsHealthy s
unfolding thread_setup thread_add unlock
Reach-IsHealthy {kernel} set_up = record {
  is_going = record { started = refl; going = refl };
  occupied = refl;
  distinct = (tt, tt);
  alive = (
    subst (λ (b : Bool). is_dead (if b then running else dead) ≡ false) (sym (==_refl kernel)) refl,
    tt,
  );
}
Reach-IsHealthy (switched {s} r e) = into (switch_threads-IsHealthy s (Reach-IsHealthy r)) e
Reach-IsHealthy (lock_taken {s} {t} r e) = take_lock-IsHealthy s t (Reach-IsHealthy r) e
Reach-IsHealthy (added {s} th r l a) = new_thread_init-IsHealthy th s a (Reach-IsHealthy r)
Reach-IsHealthy (head_dying {s} r l e) = into (marked s (Reach-IsHealthy r)) e
Reach-IsHealthy (lock_given {s} r l) = relock false s (Reach-IsHealthy r)

-- In every system that the scheduler reaches from `thread_setup` on, by switches of the timer and by
-- the steps of `thread_create` and `thread_kill` one by one, `switch_threads` ends without a `BUG`;
-- `thread_kill` waits where the lock is taken, and ends without a `BUG` where it is free; no thread
-- of the ring is dead; and `all_proc_ended` is not set.
pub Reach-safe :
    {kernel : ℕ} (s : System)
    → Reach kernel s
    → ((t : System) × (switch_threads s ≡ ok t))
      × (((s.locked ≡ true) × (thread_kill s ≡ none))
          ⊎ ((s.locked ≡ false) × ((t : System) × (thread_kill s ≡ some (ok t)))))
      × All (λ th. is_dead (s.state th) ≡ false) s.ring
      × (s.all_proc_ended ≡ false)
Reach-safe s r =
    let h = Reach-IsHealthy r in
    let a = switch_threads-IsHealthy s h in ((a.0, a.1), kill_ends s h, h.alive, h.is_going.going)

switch_threads_turn :
    (s : System) (x : ℕ) (zs : List ℕ)
    → IsGoing s
    → s.ring ≡ x ∷ zs
    → All (λ th. s.state th ≡ running) (x ∷ zs)
    → switch_threads s ≡ ok (record s { ring = zs ++ x ∷ [] })
switch_threads_turn s x [] g e a =
    switch_threads_only s x g e ∙ ap (λ (l : List ℕ). ok (record s { ring = l })) e
switch_threads_turn s x (y ∷ zs) g e a = switch_threads_running s x y zs g e a.0 (rw a.1.0 refl)

-- If the threads were set up and have not all ended, and all of the ring are running, one switch per thread of a front part of the ring puts
-- that part behind the rest: each thread comes to the head in its turn, and as many switches as
-- there are threads bring the ring back.
pub switches_turn :
    (xs ys : List ℕ) (s : System)
    → IsGoing s
    → s.ring ≡ xs ++ ys
    → All (λ th. s.state th ≡ running) (xs ++ ys)
    → switches (length xs) s ≡ ok (record s { ring = ys ++ xs })
unfolding switches
switches_turn [] ys s g e a =
    ap (λ (l : List ℕ). ok (record s { ring = l })) (e ∙ sym (append-nil ys))
switches_turn (x ∷ xs) ys s g e a =
    let p = append_assoc xs ys (x ∷ []) in
    let q = append_assoc ys (x ∷ []) xs in
    rw (switch_threads_turn s x (xs ++ ys) g e a) (
      switches_turn xs (ys ++ x ∷ []) (record s { ring = (xs ++ ys) ++ x ∷ [] })
        (record { started = g.started; going = g.going }) p
        (subst (λ (l : List ℕ). All (λ th. s.state th ≡ running) l) p
          (All-append _ (xs ++ ys) (x ∷ []) a.1 (a.0, tt)))
      ∙ ap (λ (l : List ℕ). ok (record s { ring = l })) q)
