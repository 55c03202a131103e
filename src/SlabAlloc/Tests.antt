-- ===== src/SlabAlloc/Tests.antt =====
-- Uses of the slab allocator's theorems at a pool of 64 objects.
use spbau_os_hw.Prelude.{
  none, ℕ, ◌+◌, ◌*◌, ◌<◌, ◌≡◌, ◌≢◌, refl, arith, true, false, [], ◌∷◌, some, inr,
}
use spbau_os_hw.Prelude.Bits.{test_bit}
use spbau_os_hw.Prelude.Run.{ok, bug}
use spbau_os_hw.SlabAlloc.{
  Layout, Pool, align_up, layout_setup, meta_size, ceil, mem_pool_alloc, mem_pool_free,
}
use spbau_os_hw.SlabAlloc.Caches.{Cache, mem_cache_alloc}
use spbau_os_hw.SlabAlloc.Caches.Invariant.{IsCache, IsHanded, mem_cache_alloc-IsCache}
use spbau_os_hw.SlabAlloc.Sizes.{IsLayout, min_size, layout_setup-IsLayout}
use spbau_os_hw.SlabAlloc.Objects.{bit_at, used, Taken, IsPool, mem_pool_alloc-IsPool}
use spbau_os_hw.SlabAlloc.Release.{mem_pool_free-IsPool, mem_pool_free-bug}

abbrev layout : Layout
layout = record { meta_offs = 4032; obj_count = 64; mask_words = 1; obj_size = 63; pool_order = 0 }

abbrev idle : Pool
idle = record { page = 2; base = 8192; free = 64; bitmask = 0 ∷ [] }

idle-IsPool : IsPool layout idle
unfolding used test_bit
idle-IsPool = record {
  length_eq = refl;
  enough = omega arith;
  words = (omega arith, tt);
  tail_on = λ j a b. absurd (omega arith);
  counted = refl;
}

-- The first object is in use.
abbrev one_used : Pool
one_used = record { page = 2; base = 8192; free = 63; bitmask = 1 ∷ [] }

one_used-IsPool : IsPool layout one_used
unfolding used test_bit
one_used-IsPool = record {
  length_eq = refl;
  enough = omega arith;
  words = (omega arith, tt);
  tail_on = λ j a b. absurd (omega arith);
  counted = refl;
}

first_on : bit_at (1 ∷ []) 0 ≡ true
unfolding test_bit
first_on = refl

second_off : bit_at (1 ∷ []) 1 ≡ false
unfolding test_bit
second_off = refl

mem_pool_alloc-IsPool_example :
    (i : ℕ) × (q : Pool) × (mem_pool_alloc layout one_used ≡ ok (8192 + i * 63, q))
    × (i < 64)
    × Taken (1 ∷ []) q.bitmask i
    × (q.free + 1 ≡ 63)
    × IsPool layout q
    × (q.base ≡ 8192)
mem_pool_alloc-IsPool_example = mem_pool_alloc-IsPool layout one_used one_used-IsPool (omega arith)

mem_pool_free-IsPool_example :
    (q : Pool) × (mem_pool_free layout one_used (8192 + (0 * 63 + 5)) ≡ ok q)
    × IsPool layout q
    × (bit_at q.bitmask 0 ≡ false)
    × ((j : ℕ) → j ≢ 0 → bit_at q.bitmask j ≡ bit_at (1 ∷ []) j)
    × (q.free ≡ 63 + 1)
mem_pool_free-IsPool_example =
    mem_pool_free-IsPool layout one_used 0 5 one_used-IsPool (omega arith) (omega arith) first_on

mem_pool_free-bug_example : mem_pool_free layout one_used (8192 + (1 * 63 + 0)) ≡ bug
mem_pool_free-bug_example = mem_pool_free-bug layout one_used 1 0 (omega arith) (inr second_off)

small_min : min_size 512 64 ≡ 4144
unfolding meta_size align_up ceil
small_min = refl

layout_setup-IsLayout_example : (c : Layout) × (layout_setup 512 64 ≡ some c) × IsLayout 512 64 c
layout_setup-IsLayout_example =
    layout_setup-IsLayout 512 64 (omega arith) (omega arith) (omega (arith, small_min))

-- A cache with one pool, which is partial.
abbrev one_pool : Cache
one_pool = record {
  free_pools = [];
  partial_pools = 8192 ∷ [];
  busy_pools = [];
  layout = layout;
  pools = λ _. one_used;
  owned = λ _. true;
}

one_pool-IsCache : IsCache one_pool
one_pool-IsCache = record {
  objects = omega arith;
  free_ok = tt;
  partial_ok = ((one_used-IsPool, omega arith, omega arith), tt);
  busy_ok = tt;
  free_once = tt;
  partial_once = (tt, tt);
  busy_once = tt;
  free_apart = tt;
  partial_apart = (tt, tt);
}

mem_cache_alloc-IsCache_example :
    (p : ℕ) × (c' : Cache) × (mem_cache_alloc none one_pool ≡ ok (some p, c'))
    × IsHanded one_pool c' p
    × IsCache c'
mem_cache_alloc-IsCache_example = mem_cache_alloc-IsCache none one_pool one_pool-IsCache refl
