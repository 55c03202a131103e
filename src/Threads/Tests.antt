-- ===== src/Threads/Tests.antt =====
-- Uses of the scheduler's theorems.
use spbau_os_hw.Prelude.{
  ℕ, ◌≡◌, ◌≢◌, refl, arith, ◌⊎◌, none, some, true, false, [], ◌∷◌, All, update, is_nil,
  if◌then◌else◌,
}
use spbau_os_hw.Prelude.Run.{ok}
use spbau_os_hw.Threads.{
  dead, running, dying, is_dead, System, thread_setup, thread_create, switch_threads, thread_kill,
  thread_add, new_thread_init, take_lock, unlock,
}
use spbau_os_hw.Threads.Switch.{IsGoing, switches}
use spbau_os_hw.Threads.Healthy.{IsHealthy}
use spbau_os_hw.Threads.Reach.{
  Reach, set_up, lock_taken, added, lock_given, boot, thread_kill-IsHealthy, Reach-IsHealthy,
  Reach-safe, switches_turn,
}

-- The kernel's thread is at 1.
kernel_only : Reach 1 (thread_setup 1 boot)
kernel_only = set_up

-- The lock is taken to create a second thread at 2, and given back.
abbrev creating : System
creating = record (thread_setup 1 boot) { locked = true }

creating-Reach : Reach 1 creating
unfolding take_lock thread_setup thread_add
creating-Reach = lock_taken kernel_only refl

abbrev pair : System
pair = unlock (new_thread_init 2 creating)

pair-Reach : Reach 1 pair
unfolding new_thread_init thread_setup thread_add
pair-Reach = lock_given (added 2 creating-Reach refl (omega arith, tt)) refl

creates_pair : thread_create 2 (thread_setup 1 boot) ≡ some pair
unfolding thread_create take_lock thread_setup thread_add
creates_pair = refl

Reach-safe_example :
    ((t : System) × (switch_threads pair ≡ ok t))
    × (((pair.locked ≡ true) × (thread_kill pair ≡ none))
        ⊎ ((pair.locked ≡ false) × ((t : System) × (thread_kill pair ≡ some (ok t)))))
    × All (λ th. is_dead (pair.state th) ≡ false) pair.ring
    × (pair.all_proc_ended ≡ false)
Reach-safe_example = Reach-safe pair pair-Reach

pair-IsHealthy : IsHealthy pair
pair-IsHealthy = Reach-IsHealthy pair-Reach

pair_ring : pair.ring ≡ 1 ∷ 2 ∷ []
unfolding unlock new_thread_init thread_setup thread_add
pair_ring = refl

pair_unlocked : pair.locked ≡ false
unfolding unlock
pair_unlocked = refl

thread_kill-IsHealthy_example :
    (t : System) × (thread_kill pair ≡ some (ok t))
    × IsHealthy t
    × (t.ring ≡ (if is_nil {A = ℕ} (2 ∷ []) then 1 ∷ [] else 2 ∷ []))
    × (t.state 1 ≡ (if is_nil {A = ℕ} (2 ∷ []) then dying else dead))
    × ((y : ℕ) → y ≢ 1 → t.state y ≡ pair.state y)
    × (t.locked ≡ false)
thread_kill-IsHealthy_example =
    thread_kill-IsHealthy pair 1 (2 ∷ []) pair-IsHealthy pair_ring pair_unlocked

abbrev three : System
three = record {
  ring = 1 ∷ 2 ∷ 3 ∷ [];
  state = λ _. running;
  all_started = true;
  all_proc_ended = false;
  locked = false;
}

three-IsGoing : IsGoing three
three-IsGoing = record { started = refl; going = refl }

switches_turn_example : switches 2 three ≡ ok (record three { ring = 3 ∷ 1 ∷ 2 ∷ [] })
switches_turn_example =
    switches_turn (1 ∷ 2 ∷ []) (3 ∷ []) three three-IsGoing refl (refl, (refl, (refl, tt)))

-- The head is dying.
abbrev ending : System
ending = record three { state = update (λ _. running) 1 dying }
