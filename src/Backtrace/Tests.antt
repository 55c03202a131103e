-- ===== src/Backtrace/Tests.antt =====
-- A use of the backtrace's theorem.
use spbau_os_hw.Prelude.{
  ℕ, ◌-◌, ◌≤◌, ◌<◌, ◌≡◌, ◌^◌, arith, refl, List, [], ◌∷◌, some, length, ◌==◌, if◌then◌else◌,
}
use spbau_os_hw.Backtrace.{backtrace_loop, backtrace_loop_lem}

-- A frame at 4096 whose caller's is at 4128.
abbrev stack : ℕ → ℕ
stack a = if a == 4096 then 4128 else if a == 4104 then 77 else 0

stack_words : (a : ℕ) → stack a < 2 ^ 64
stack_words a = ground arith

two_frames : backtrace_loop 3 4096 4096 8192 stack ≡ some (77 ∷ [])
unfolding backtrace_loop
two_frames = refl

backtrace_loop_lem_example :
    (rips : List ℕ) × (backtrace_loop (2 ^ 64 - 4096) 4096 4096 8192 stack ≡ some rips)
    × (length rips ≤ 2 ^ 64 - 4096)
backtrace_loop_lem_example =
    backtrace_loop_lem (2 ^ 64 - 4096) 4096 4096 8192 stack stack_words (omega arith) (omega arith)
