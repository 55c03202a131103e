-- ===== src/Threads.antt =====
-- The threads of src/src/thread.c: a ring of threads, the first of which runs, and the switch.
-- A thread is named by its address. The ring is the list of its threads from `threads_head` on;
-- a NULL `threads_head` is the empty ring. (IntrusiveList shows what the pointers of such a ring
-- do.) `threads_lock` is a field: Spinlock shows what `lock` and `unlock` do, and a thread that finds
-- the lock taken waits, that is, does not go on. The flag of the processor that lets interrupts in is
-- not modelled: Reach has a switch by the timer between any two steps, also where the code has
-- disabled interrupts. A step itself, such as the change of the list, is taken to be whole.
-- The stacks and the switch of the processor's registers are left out.
pub mod Switch
pub mod Healthy
pub mod Reach
mod Tests
use spbau_os_hw.Prelude.{
  ℕ, zero, suc, Option, none, some, Bool, true, false, not, ◌&&◌, ◌||◌, List, [], ◌∷◌, ◌++◌, update,
  is_nil, ◌==◌, if◌then◌else◌,
}
use spbau_os_hw.Prelude.Without.{without}
use spbau_os_hw.Prelude.Run.{Run, ok, bug, ◌>>=◌, ◌>>◌, bug_on}

-- TH_DEAD, TH_RUNNING and TH_DYING
pub data State : Type 0 where
  dead running dying : State

abbrev pub is_dead : State → Bool
is_dead dead = true
is_dead running = false
is_dead dying = false

abbrev pub is_dying : State → Bool
is_dying dead = false
is_dying running = false
is_dying dying = true

pub record System : Type 0 where
  pub ring : List ℕ
  pub state : ℕ → State
  pub all_started : Bool
  pub all_proc_ended : Bool
  pub locked : Bool

-- `lock(&threads_lock)`: `none` where the lock is taken and the caller waits.
unfoldable pub take_lock : System → Option System
take_lock s = if s.locked then none else some (record s { locked = true })

-- `unlock(&threads_lock)`
unfoldable pub unlock : System → System
unlock s = record s { locked = false }

-- What is done under the lock, if it is not waited for.
abbrev pub after_lock {ℓ} : {A : Type ℓ} → (System → A) → Option System → Option A
after_lock f none = none
after_lock f (some s) = some (f s)

-- `thread_add`: behind the last thread, which is before the head.
unfoldable pub thread_add : ℕ → System → System
thread_add th s = record s { ring = s.ring ++ th ∷ [] }

-- The part of `new_thread_init` that the scheduler sees; `mem_alloc` returned `th`.
unfoldable pub new_thread_init : ℕ → System → System
unfolding thread_add
new_thread_init th s = thread_add th (record s { state = update s.state th running })

-- `thread_setup`, with the thread of the kernel.
unfoldable pub thread_setup : ℕ → System → System
unfolding thread_add
thread_setup kernel s =
    record (thread_add kernel (record s { state = update s.state kernel running })) {
      all_started = true;
    }

-- `thread_create`, where no other thread runs in between; `none` where it waits for the lock.
unfoldable pub thread_create : ℕ → System → Option System
thread_create th s = after_lock (λ s'. unlock (new_thread_init th s')) (take_lock s)

abbrev pub rotate : List ℕ → List ℕ
rotate [] = []
rotate (x ∷ xs) = xs ++ x ∷ []

abbrev pub heads_with : ℕ → List ℕ → Bool
heads_with th [] = false
heads_with th (x ∷ xs) = x == th

-- `thread_del`: where the thread heads the ring, the head moves on first; if it still heads the
-- ring, it was the only one.
unfoldable pub thread_del : ℕ → System → System
thread_del th s =
    let ring = if heads_with th s.ring then rotate s.ring else s.ring in
    if heads_with th ring
    then record s { ring = ring; all_proc_ended = true }
    else record s { ring = without th ring }

-- `switch_threads` from the checks of the two threads on: `curr` gave way to `next`, the head.
unfoldable pub switch_to : (curr next : ℕ) → System → Run System
switch_to curr next s = do
  bug_on (is_dead (s.state curr))
  bug_on (is_dead (s.state next))
  ok (
      if is_dying (s.state curr)
      then (let s' = thread_del curr s in record s' { state = update s'.state curr dead })
      else s)

-- The switch with the head and what is behind it.
unfoldable pub switch_ring : List ℕ → System → Run System
switch_ring [] s = bug
switch_ring (curr ∷ []) s = ok s
switch_ring (curr ∷ next ∷ rest) s =
    switch_to curr next (record s { ring = next ∷ rest ++ curr ∷ [] })

unfoldable pub switch_threads : System → Run System
switch_threads s =
    let switched : Run System = bug_on (not s.all_started) >> switch_ring s.ring s in
    if s.all_proc_ended || (s.all_started && is_nil s.ring)
    then ok (record s { all_proc_ended = true })
    else switched

-- The running thread is dying.
unfoldable pub mark_dying : List ℕ → System → Run System
mark_dying [] s = bug
mark_dying (x ∷ xs) s = ok (record s { state = update s.state x dying })

-- `thread_kill` behind `lock`.
unfoldable pub kill_locked : System → Run System
kill_locked s = do s' ← mark_dying s.ring s; switch_threads (unlock s')

-- `thread_kill`, where no other thread runs in between; `none` where it waits for the lock.
unfoldable pub thread_kill : System → Option (Run System)
thread_kill s = after_lock kill_locked (take_lock s)
