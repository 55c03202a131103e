-- ===== src/Backtrace.antt =====
-- `__backtrace` of src/src/backtrace.c: the walk along the frames of a stack. A word of memory is
-- read at its address; the result is the list of the return addresses that are printed.
mod Tests
use spbau_os_hw.Prelude.{
  ℕ, zero, suc, ◌+◌, ◌%◌, ◌^◌, ◌≤◌, ◌<◌, ◌≡◌, refl, arith, Bool, true, false, ◌&&◌, Option, none,
  some, List, [], ◌∷◌, leb, if◌then◌else◌, length, Bool-cases, inl, inr, leb→le,
}

-- One more frame in front of those that follow.
abbrev pub printed : ℕ → Option (List ℕ) → Option (List ℕ)
printed rip none = none
printed rip (some rips) = some (rip ∷ rips)

unfoldable pub backtrace_loop : (fuel rbp stack_begin stack_end : ℕ) → (ℕ → ℕ) → Option (List ℕ)
backtrace_loop zero rbp stack_begin stack_end word = none
backtrace_loop (suc f) rbp stack_begin stack_end word =
    let rest = backtrace_loop f (word rbp) stack_begin stack_end word in
    if leb stack_begin rbp && leb ((rbp + 16) % 2 ^ 64) stack_end
    then (if leb (word rbp) rbp then some [] else printed (word (rbp + 8)) rest)
    else some []

-- The walk ends, since the frames rise: on words of 64 bits, with a round for each address from
-- `rbp` on, it prints at most one line for each of them.
pub backtrace_loop_lem :
    (f rbp stack_begin stack_end : ℕ) (word : ℕ → ℕ)
    → ((a : ℕ) → word a < 2 ^ 64)
    → rbp < 2 ^ 64
    → 2 ^ 64 ≤ rbp + f
    → (rips : List ℕ) × (backtrace_loop f rbp stack_begin stack_end word ≡ some rips)
      × (length rips ≤ f)
unfolding backtrace_loop
backtrace_loop_lem zero rbp b e word w l h = absurd (omega arith)
backtrace_loop_lem (suc f) rbp b e word w l h =
    elim (Bool-cases (leb b rbp && leb ((rbp + 16) % 2 ^ 64) e)) [
      | inr out ↦ ([], rw out, omega arith)
      | inl in_stack ↦ elim (Bool-cases (leb (word rbp) rbp)) [
        | inl stop ↦ ([], rw (in_stack, stop), omega arith)
        | inr go ↦
            let up : rbp < word rbp = ground (arith, go) in
            let (rips, q, n) =
              backtrace_loop_lem f (word rbp) b e word w (w rbp) (omega (arith, up)) in
            (word (rbp + 8) ∷ rips, rw (in_stack, go, q), omega (arith, n))
      ]
    ]
