-- ===== src/Text/Tests.antt =====
-- Uses of the theorems on text at concrete bytes.
use spbau_os_hw.Prelude.{
  ℕ, suc, ◌+◌, ◌-◌, ◌/◌, ◌%◌, ◌^◌, ◌≤◌, ◌<◌, ◌≡◌, arith, some, ◌⊎◌, ◌==◌, if◌then◌else◌,
}
use spbau_os_hw.Text.Memory.{Bytes}
use spbau_os_hw.Text.Strtoul.{strtoul}
use spbau_os_hw.Text.Strtoul.Reads.{strtoul-ulltoa, strtoul-lltoa}
use spbau_os_hw.Text.Digits.{digit, ulltoa, lltoa, ulltoa_lem}

-- The string "hi" at address 10.
abbrev greeting : Bytes
greeting a = if a == 10 then 104 else if a == 11 then 105 else 0

ulltoa_lem_example :
    (j : ℕ) × (k : Bytes) × (ulltoa 255 20 16 greeting ≡ some k)
    × (255 < 16 ^ suc j)
    × ((j ≡ 0) ⊎ (16 ^ j ≤ 255))
    × ((i : ℕ) → i ≤ j → k (20 + i) ≡ digit (255 / 16 ^ (j - i) % 16))
    × (k (20 + suc j) ≡ 0)
    × ((a : ℕ) → (a < 20) ⊎ (20 + suc j < a) → k a ≡ greeting a)
ulltoa_lem_example = ulltoa_lem 255 20 16 greeting (omega arith) (omega arith)

strtoul-ulltoa_example :
    (k : Bytes) × (j : ℕ) × (ulltoa 255 20 16 greeting ≡ some k)
    × ((e : ℕ) × (strtoul (suc (suc j)) 20 16 k ≡ some (255, e)))
strtoul-ulltoa_example = strtoul-ulltoa 255 20 16 greeting (omega arith) (omega arith) (omega arith)

strtoul-lltoa_example :
    (k : Bytes) × (j : ℕ) × (lltoa (2 ^ 64 - 5) 20 10 greeting ≡ some k)
    × ((e : ℕ) × (strtoul (suc (suc j)) 20 10 k ≡ some (2 ^ 64 - 5, e)))
strtoul-lltoa_example =
    strtoul-lltoa (2 ^ 64 - 5) 20 10 greeting (omega arith) (omega arith) (omega arith)
