-- ===== src/Balloc/Tests.antt =====
-- Uses of the theorems on the boot allocator at concrete ranges.
use spbau_os_hw.Prelude.{
  ℕ, suc, ◌+◌, ◌≤◌, ◌≡◌, refl, arith, ◌⊎◌, inl, inr, false, not, ◌&&◌, ◌||◌, [], ◌∷◌, All,
}
use spbau_os_hw.Prelude.Run.{ok}
use spbau_os_hw.Balloc.{Ranges, add_range, remove_range, balloc_alloc_aligned, balloc_free}
use spbau_os_hw.Balloc.Sets.{inside, has, IsSeparated, all_nodes}
use spbau_os_hw.Balloc.Add.{add_range-covers}
use spbau_os_hw.Balloc.Remove.{remove_range_lem}
use spbau_os_hw.Balloc.Alloc.{IsFull, Taken, balloc_alloc_aligned_lem}
use spbau_os_hw.Balloc.Canonical.{balloc_free-Taken}
use spbau_os_hw.Balloc.Setup.{MmapEntry, MbootInfo, Trees, balloc_setup}
use spbau_os_hw.Balloc.Parse.{entries, in_map, in_reserved, IsValid}
use spbau_os_hw.Balloc.Ready.{map_entries, IsBootable, balloc_setup_lem}

abbrev two_ranges : Ranges
two_ranges = record {
  nodes = 5;
  set = record { begin = 10; end = 20 } ∷ record { begin = 30; end = 40 } ∷ [];
}

two_ranges-IsSeparated : IsSeparated two_ranges.set
two_ranges-IsSeparated = (omega arith, omega arith, (omega arith, omega arith, tt))

add_range-covers_example :
    (t : Ranges) × (add_range 20 25 two_ranges ≡ ok t)
    × IsSeparated t.set
    × ((x : ℕ) → has t.set x ≡ (has two_ranges.set x || inside 20 25 x))
    × (all_nodes t ≡ all_nodes two_ranges)
    × (two_ranges.nodes ≤ suc t.nodes)
add_range-covers_example =
    add_range-covers 20 25 two_ranges (omega arith) (omega arith) two_ranges-IsSeparated
      (inl (omega arith), (inr (omega arith), tt))

remove_range_lem_example :
    (t : Ranges) × (remove_range 15 35 two_ranges ≡ ok t)
    × IsSeparated t.set
    × ((x : ℕ) → has t.set x ≡ (has two_ranges.set x && not (inside 15 35 x)))
    × (all_nodes t ≡ all_nodes two_ranges)
    × (two_ranges.nodes ≤ suc t.nodes)
remove_range_lem_example =
    remove_range_lem 15 35 two_ranges (omega arith) (omega arith) two_ranges-IsSeparated

balloc_alloc_aligned_lem_example :
    ((addr : ℕ) × (t : Ranges) × (balloc_alloc_aligned 8 8 12 100 two_ranges ≡ ok (addr, t))
      × Taken 8 8 12 100 two_ranges addr t)
    ⊎ ((balloc_alloc_aligned 8 8 12 100 two_ranges ≡ ok (100, two_ranges))
        × All (IsFull 8 8 12 100) two_ranges.set)
balloc_alloc_aligned_lem_example =
    balloc_alloc_aligned_lem 8 8 12 100 two_ranges (omega arith) (3, refl) (omega arith)
      (omega arith) two_ranges-IsSeparated (omega arith, (omega arith, tt))

-- What is left of the second range when eight bytes at 32 are taken.
abbrev less_a_block : Ranges
less_a_block = record {
  nodes = 5;
  set = record { begin = 10; end = 20 } ∷ record { begin = 30; end = 32 } ∷ [];
}

less_a_block-Taken : Taken 8 8 12 100 two_ranges 32 less_a_block
less_a_block-Taken = record {
  aligned = refl;
  low_le = omega arith;
  high_ge = omega arith;
  was_free = λ x i. ground arith;
  separated = (omega arith, omega arith, (omega arith, omega arith, tt));
  covers = λ x. ground arith;
  kept_nodes = refl;
}

balloc_free-Taken_example : balloc_free 32 (32 + 8) less_a_block ≡ ok two_ranges
balloc_free-Taken_example =
    balloc_free-Taken 8 8 12 100 32 two_ranges less_a_block (omega arith) (omega arith)
      two_ranges-IsSeparated less_a_block-Taken

-- A memory map of one entry, the memory below 1000.
abbrev one_entry : ℕ → MmapEntry
one_entry a = record { size = 20; addr = 0; bytes = 1000; kind = 1 }

abbrev one_info : MbootInfo
one_info = record { flags = 64; mmap_size = 24; mmap_addr = 0 }

one_entry-IsBootable : IsBootable one_entry 100 200 one_info
unfolding entries
one_entry-IsBootable = record {
  flagged = refl;
  addr_small = omega arith;
  size_small = omega arith;
  sizes = λ a. omega arith;
  proper = ((omega arith, omega arith), tt);
  few = omega arith;
  kernel = omega arith;
}

balloc_setup_lem_example :
    (s : Trees) × (balloc_setup one_entry 100 200 one_info ≡ ok s)
    × IsValid s
    × ((x : ℕ) → (has s.free_ranges x && not (in_map (map_entries one_entry one_info) x)) ≡ false)
    × ((x : ℕ) → (has s.free_ranges x && in_reserved (map_entries one_entry one_info) x) ≡ false)
    × ((x : ℕ) → (has s.free_ranges x && inside 100 200 x) ≡ false)
balloc_setup_lem_example = balloc_setup_lem one_entry 100 200 one_info one_entry-IsBootable
