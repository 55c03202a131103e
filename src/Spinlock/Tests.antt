-- ===== src/Spinlock/Tests.antt =====
-- Uses of the lock's theorems.
use spbau_os_hw.Prelude.{ℕ, ◌≡◌, ◌≢◌, refl, false, List, [], ◌∷◌}
use spbau_os_hw.Spinlock.{
  spinning, inside, Action, enter, load, exchange, Shared, unlocked, run, act, run_exclusive,
}

-- Two processors enter and load, and then both try the exchange.
abbrev race : List (ℕ × Action)
race = (1, enter) ∷ (2, enter) ∷ (1, load) ∷ (2, load) ∷ (2, exchange) ∷ (1, exchange) ∷ []

run_exclusive_example :
    ((p q : ℕ)
      → (run race unlocked).place p ≡ inside
      → (run race unlocked).place q ≡ inside
      → p ≡ q)
    × ((run race unlocked).locked ≡ false → (p : ℕ) → (run race unlocked).place p ≢ inside)
run_exclusive_example = run_exclusive race

-- The second processor is the one that is inside.
race_won : (run race unlocked).place 2 ≡ inside
unfolding run act
race_won = refl

abbrev waiting : Shared
waiting = record { locked = false; place = λ _. spinning }
