-- ===== src/SlabAlloc/Caches.antt =====
-- The caches of src/src/alloc.c: a cache keeps its pools on three lists, and `mem_alloc` picks a cache
-- by size. A pool is named by the address of its first page; addresses are those of the direct
-- mapping, counted from its start. `__page_alloc` and `__page_free` are at the border: the page that
-- the one returns is an argument, and the pages for the other are a result. The locks are left out.
pub mod Order
pub mod Invariant
use spbau_os_hw.Prelude.{
  ℕ, zero, suc, ◌+◌, ◌*◌, ◌^◌, Bool, true, false, not, Option, none, some, List, [], ◌∷◌, update,
  is_nil, leb, ◌==◌, if◌then◌else◌,
}
use spbau_os_hw.Prelude.Without.{without}
use spbau_os_hw.Prelude.Run.{Run, ok, bug, ◌>>=◌, ◌>>◌, bug_on}
use spbau_os_hw.PageAlloc.{page_shift, page_size, max_order}
use spbau_os_hw.SlabAlloc.{
  Layout, Pool, align_down, layout_setup, bitmap_setup, mem_pool_alloc, mem_pool_free,
}

-- `struct mem_cache`, the pools, and the pages that carry PAGE_CACHE_BIT and the cache.
pub record Cache : Type 0 where
  pub free_pools : List ℕ
  pub partial_pools : List ℕ
  pub busy_pools : List ℕ
  pub layout : Layout
  pub pools : ℕ → Pool
  pub owned : ℕ → Bool

-- The loops over the pages of a pool.
unfoldable pub own : (left page : ℕ) → Bool → (ℕ → Bool) → ℕ → Bool
own zero page b f = f
own (suc n) page b f = own n (suc page) b (update f page b)

unfoldable pub mem_pool_create : Option ℕ → Cache → Option (ℕ × Cache)
mem_pool_create none c = none
mem_pool_create (some page) c =
    let addr = page * page_size in
    let pool : Pool = record {
      page = page;
      base = addr;
      free = c.layout.obj_count;
      bitmask = bitmap_setup c.layout;
    } in
    some (
      addr,
      record c {
        pools = update c.pools addr pool;
        owned = own (2 ^ c.layout.pool_order) page true c.owned;
      },
    )

-- `mem_pool_destroy`, with the page that goes to `__page_free`.
unfoldable pub mem_pool_destroy : ℕ → Cache → Run (ℕ × Cache)
mem_pool_destroy pool c = do
  bug_on (not ((c.pools pool).free == c.layout.obj_count))
  let page = (c.pools pool).page
  ok (page, record c { owned = own (2 ^ c.layout.pool_order) page false c.owned })

unfoldable pub destroy_all : List ℕ → Cache → Run (List ℕ × Cache)
destroy_all [] c = ok ([], c)
destroy_all (pool ∷ rest) c = do
  (page, c') ← mem_pool_destroy pool c
  (pages, c'') ← destroy_all rest c'
  ok (page ∷ pages, c'')

-- The lists of a cache whose layout is made are empty.
abbrev pub with_layout : Cache → Option Layout → Option Cache
with_layout c none = none
with_layout c (some layout) =
    some (record c { layout = layout; free_pools = []; partial_pools = []; busy_pools = [] })

unfoldable pub mem_cache_setup : (size align : ℕ) → Cache → Option Cache
mem_cache_setup size align c = with_layout c (layout_setup size align)

unfoldable pub mem_cache_shrink : Cache → Run (List ℕ × Cache)
mem_cache_shrink c = destroy_all c.free_pools (record c { free_pools = [] })

-- The list of free pools is left as it is.
unfoldable pub mem_cache_release : Cache → Run (List ℕ × Cache)
mem_cache_release c = do
  bug_on (not (is_nil c.busy_pools))
  bug_on (not (is_nil c.partial_pools))
  destroy_all c.free_pools c

-- `mem_pool_alloc` in a pool of the cache.
unfoldable pub alloc_in : ℕ → Cache → Run (ℕ × Cache)
alloc_in pool c = do
  (data_ptr, p) ← mem_pool_alloc c.layout (c.pools pool)
  ok (data_ptr, record c { pools = update c.pools pool p })

-- `list_del(&pool->ll)`: a pool is on one of the lists.
unfoldable pub unlist : ℕ → Cache → Cache
unlist pool c = record c {
  free_pools = without pool c.free_pools;
  partial_pools = without pool c.partial_pools;
  busy_pools = without pool c.busy_pools;
}

abbrev pub to_busy : ℕ → Cache → Cache
to_busy pool c = let c' = unlist pool c in record c' { busy_pools = pool ∷ c'.busy_pools }

abbrev pub to_partial : ℕ → Cache → Cache
to_partial pool c = let c' = unlist pool c in record c' { partial_pools = pool ∷ c'.partial_pools }

abbrev pub to_free : ℕ → Cache → Cache
to_free pool c = let c' = unlist pool c in record c' { free_pools = pool ∷ c'.free_pools }

unfoldable pub alloc_partial : ℕ → Cache → Run (Option ℕ × Cache)
alloc_partial pool c = do
  (data_ptr, c') ← alloc_in pool c
  ok (some data_ptr, if (c'.pools pool).free == 0 then to_busy pool c' else c')

unfoldable pub alloc_free : ℕ → Cache → Run (Option ℕ × Cache)
alloc_free pool c = do
  (data_ptr, c') ← alloc_in pool c
  ok (some data_ptr, if (c'.pools pool).free == c'.layout.obj_count then c' else to_partial pool c')

unfoldable pub alloc_new : Cache → Option (ℕ × Cache) → Run (Option ℕ × Cache)
alloc_new c none = ok (none, c)
alloc_new c (some (pool, created)) = do
  (data_ptr, c') ← alloc_in pool created
  ok (some data_ptr, record c' { partial_pools = pool ∷ c'.partial_pools })

-- The branches of `mem_cache_alloc`, by the partial and the free pools.
unfoldable pub alloc_from : (partial free : List ℕ) → Option ℕ → Cache → Run (Option ℕ × Cache)
alloc_from (pool ∷ rest) free page c = alloc_partial pool c
alloc_from [] (pool ∷ rest) page c = alloc_free pool c
alloc_from [] [] page c = alloc_new c (mem_pool_create page c)

-- `mem_cache_alloc`, where `__page_alloc` returns `page` if it is called.
unfoldable pub mem_cache_alloc : Option ℕ → Cache → Run (Option ℕ × Cache)
mem_cache_alloc page c = alloc_from c.partial_pools c.free_pools page c

unfoldable pub mem_cache_free : ℕ → Cache → Run Cache
mem_cache_free ptr c = do
  let pool = align_down ptr (2 ^ (c.layout.pool_order + page_shift))
  p ← mem_pool_free c.layout (c.pools pool) ptr
  let c1 : Cache = record c { pools = update c.pools pool p }
  let c2 : Cache = if p.free == 1 then to_partial pool c1 else c1
  ok (if p.free == c.layout.obj_count then to_free pool c2 else c2)

abbrev pub mem_pool_size : List ℕ
mem_pool_size =
    64 ∷ 128 ∷ 192 ∷ 256 ∷ 320 ∷ 384 ∷ 448 ∷ 512 ∷ 576 ∷ 640 ∷ 704 ∷ 768 ∷ 832 ∷ 896 ∷ 960 ∷ 1024
    ∷ 1152 ∷ 1280 ∷ 1408 ∷ 1536 ∷ 1664 ∷ 1792 ∷ 1920 ∷ 2048 ∷ 2304 ∷ 2560 ∷ 2816 ∷ 3072 ∷ 3584
    ∷ 4096 ∷ 5120 ∷ 6144 ∷ 7168 ∷ 8192 ∷ []

-- The loop of `mem_pool_lookup` from place `i` on.
unfoldable pub lookup_from : (i : ℕ) → List ℕ → ℕ → Option ℕ
lookup_from i [] size = none
lookup_from i (s ∷ sizes) size =
    let rest = lookup_from (suc i) sizes size in if leb size s then some i else rest

unfoldable pub mem_pool_lookup : ℕ → Option ℕ
mem_pool_lookup size = lookup_from 0 mem_pool_size size

-- The loop of `mem_order_calculate`, with the rounds that are left.
unfoldable pub order_from : (left order size : ℕ) → ℕ
order_from zero order size = order
order_from (suc n) order size =
    let rest = order_from n (suc order) size in
    if leb size (2 ^ (order + page_shift)) then order else rest

unfoldable pub mem_order_calculate : ℕ → ℕ
mem_order_calculate size = order_from (max_order + 1) 0 size
