-- ===== src/Threads/Switch.antt =====
-- What `switch_threads` and `thread_kill` do on each branch, and how the ring turns.
use spbau_os_hw.Prelude.{
  ℕ, zero, suc, ◌≡◌, sym, ap, ◌∙◌, true, false, List, [], ◌∷◌, ◌++◌, update, Avoids, ==_ne,
}
use spbau_os_hw.Prelude.Without.{without_last}
use spbau_os_hw.Prelude.Run.{Run, ok, ◌>>=◌}
use spbau_os_hw.Threads.{
  dead, running, dying, is_dead, System, thread_del, switch_to, switch_ring, switch_threads,
}

-- Deleting a thread that the ring holds last leaves the others, and does not end all threads.
thread_del_last :
    (s : System) (x y : ℕ) (ys : List ℕ)
    → Avoids x (y ∷ ys)
    → thread_del x (record s { ring = y ∷ ys ++ x ∷ [] }) ≡ record s { ring = y ∷ ys }
unfolding thread_del
thread_del_last s x y ys a =
    let n = ==_ne y x (λ t. a.0 (sym t)) in
    rw (n, n) (ap (λ (r : List ℕ). record s { ring = r }) (without_last x (y ∷ ys) a))

-- A system in which threads were set up and have not all ended.
pub record IsGoing (s : System) : Type 0 where
  pub started : s.all_started ≡ true
  pub going : s.all_proc_ended ≡ false

switch_threads_going :
    (s : System) (curr next : ℕ) (rest : List ℕ)
    → IsGoing s
    → s.ring ≡ curr ∷ next ∷ rest
    → switch_threads s ≡ switch_to curr next (record s { ring = next ∷ rest ++ curr ∷ [] })
unfolding switch_threads switch_ring
switch_threads_going s curr next rest g e = simp (g.started, g.going, e)

-- If the head and the thread behind it are not dead, and the head is not dying, the switch puts
-- the head behind the last thread.
pub switch_threads_running :
    (s : System) (curr next : ℕ) (rest : List ℕ)
    → IsGoing s
    → s.ring ≡ curr ∷ next ∷ rest
    → s.state curr ≡ running
    → is_dead (s.state next) ≡ false
    → switch_threads s ≡ ok (record s { ring = next ∷ rest ++ curr ∷ [] })
unfolding switch_to
switch_threads_running s curr next rest g e c n =
    switch_threads_going s curr next rest g e ∙ simp (c, n)

-- If the threads were set up and have not all ended, the head is dying, the ring holds it once, and
-- the thread behind it is not dead, the switch removes the head
-- from the ring and marks it dead.
pub switch_threads_dying :
    (s : System) (curr next : ℕ) (rest : List ℕ)
    → IsGoing s
    → s.ring ≡ curr ∷ next ∷ rest
    → Avoids curr (next ∷ rest)
    → s.state curr ≡ dying
    → is_dead (s.state next) ≡ false
    → switch_threads s ≡ ok (record s { ring = next ∷ rest; state = update s.state curr dead })
unfolding switch_to
switch_threads_dying s curr next rest g e a c n =
    switch_threads_going s curr next rest g e
    ∙ rw (c, n)
        (ap (λ (q : System). ok (record q { state = update q.state curr dead }))
          (thread_del_last s curr next rest a))

-- The only thread stays: there is nothing to switch to.
pub switch_threads_only :
    (s : System) (curr : ℕ) → IsGoing s → s.ring ≡ curr ∷ [] → switch_threads s ≡ ok s
unfolding switch_threads switch_ring
switch_threads_only s curr g e = rw (g.started, g.going, e)

-- `n` switches, one after the other.
unfoldable pub switches : ℕ → System → Run System
switches zero s = ok s
switches (suc n) s = switch_threads s >>= switches n
