-- ===== src/SlabAlloc.antt =====
-- The slab allocator of src/src/alloc.c: the layout of a pool, and the objects of one pool.
-- Sizes are `size_t`, 64 bits; where a subtraction can go below 0 the wrap is written out.
pub mod Sizes
pub mod Bitmap
pub mod Objects
pub mod Release
pub mod Caches
mod Tests
use spbau_os_hw.Prelude.{
  ℕ, zero, suc, ◌+◌, ◌-◌, ◌*◌, ◌/◌, ◌%◌, ◌^◌, Bool, true, false, not, ◌&&◌, ◌||◌, Option, none,
  some, List, [], ◌∷◌, get_or, set, replicate, ltb, leb, ◌==◌, if◌then◌else◌,
}
use spbau_os_hw.Prelude.Bits.{test_bit, set_bit, clear_bit}
use spbau_os_hw.Prelude.Run.{Run, ok, bug, ◌>>=◌, ◌>>◌, bug_on}
use spbau_os_hw.PageAlloc.{page_shift}

-- `OBJS_PER_WORD`
abbrev pub objs_per_word : ℕ
objs_per_word = 64

abbrev pub min_pool_objs : ℕ
min_pool_objs = 8

-- `~0ul`
abbrev pub all_ones : ℕ
all_ones = 2 ^ 64 - 1

-- The loop of `ilog2`; `val` becomes 0 where it is shifted out of its 64 bits.
unfoldable pub ilog2_loop : (fuel : ℕ) → (x val power : ℕ) → Option ℕ
ilog2_loop zero x val power = none
ilog2_loop (suc f) x val power =
    let rest = ilog2_loop f x (val * 2 % 2 ^ 64) (suc power) in
    if ltb val x then rest else some power

-- At most 63 shifts make a power of two of 64 bits, so 64 rounds are enough.
unfoldable pub ilog2 : ℕ → Option ℕ
ilog2 x = ilog2_loop 64 x 1 0

unfoldable pub ceil : ℕ → ℕ → ℕ
ceil divident divisor = (divident + divisor - 1) / divisor

unfoldable pub floor : ℕ → ℕ → ℕ
floor divident divisor = divident / divisor

unfoldable pub align_up : ℕ → ℕ → ℕ
align_up size align = align * ceil size align

unfoldable pub align_down : ℕ → ℕ → ℕ
align_down size align = align * floor size align

-- `sizeof(struct mem_pool)` and its alignment.
abbrev pub pool_bytes : ℕ
pool_bytes = 48

abbrev pub meta_align : ℕ
meta_align = 8

-- For no objects at all `ceil(objs, 64) - 1` wraps.
unfoldable pub meta_size : ℕ → ℕ
meta_size objs =
    align_up ((pool_bytes + (ceil objs objs_per_word + 2 ^ 64 - 1) % 2 ^ 64 * 8 % 2 ^ 64) % 2 ^ 64)
      meta_align

pub record Layout : Type 0 where
  pub meta_offs : ℕ
  pub obj_count : ℕ
  pub mask_words : ℕ
  pub obj_size : ℕ
  pub pool_order : ℕ

-- `while (obj_size * objs + meta_size(objs) > pool_size) --objs;`
unfoldable pub fit_objs : (pool_size obj_size objs : ℕ) → ℕ
fit_objs pool_size obj_size zero = zero
fit_objs pool_size obj_size (suc n) =
    let rest = fit_objs pool_size obj_size n in
    if ltb pool_size (obj_size * suc n + meta_size (suc n)) then rest else suc n

-- `mem_cache_layout_setup`, for a size and an alignment that are not 0. For these the code divides by
-- 0, which is undefined; what the division on ℕ gives there is no account of the code.
unfoldable pub layout_setup : (size align : ℕ) → Option Layout
layout_setup size align =
    let obj_size = align_up size align in
    let min_size = obj_size * min_pool_objs + meta_size min_pool_objs in
    elim (ilog2 (min_size / 2 ^ page_shift)) [
      | none ↦ none
      | some pool_order ↦
          let pool_size = 2 ^ (pool_order + page_shift) in
          let objs = fit_objs pool_size obj_size (pool_size / obj_size) in
          some (record {
            meta_offs = pool_size - meta_size objs;
            obj_count = objs;
            mask_words = ceil objs objs_per_word;
            obj_size = obj_size;
            pool_order = pool_order;
          })
    ]

-- `struct mem_pool`, less its list links: the page, the address of the first object, the number of
-- free objects, and the words of the bitmap.
pub record Pool : Type 0 where
  pub page : ℕ
  pub base : ℕ
  pub free : ℕ
  pub bitmask : List ℕ

-- `mem_pool_bitmap_setup`: the bits behind the last object are set. The loop over the words behind
-- `word` sets them to `~0ul`.
unfoldable pub fill_from : ℕ → List ℕ → List ℕ
fill_from w [] = []
fill_from zero (x ∷ xs) = all_ones ∷ fill_from zero xs
fill_from (suc w) (x ∷ xs) = x ∷ fill_from w xs

unfoldable pub bitmap_setup : Layout → List ℕ
bitmap_setup cache =
    let pos = cache.obj_count % objs_per_word in
    let word = cache.obj_count / objs_per_word in
    let zeros = replicate cache.mask_words 0 in
    fill_from (word + 1) (if pos == 0 then zeros else set zeros word (2 ^ 64 - 2 ^ pos))

-- The first byte of `x` from `byte` on that is not 0, of the bytes left; 8 if there is none.
unfoldable pub first_byte : (left : ℕ) → (x byte : ℕ) → ℕ
first_byte zero x byte = byte
first_byte (suc n) x byte =
    let rest = first_byte n (x / 256) (suc byte) in if x % 256 == 0 then rest else byte

-- The first bit of `x` from bit `at` on that is set, of the bits left.
unfoldable pub first_bit : (left : ℕ) → (x at bit : ℕ) → ℕ
first_bit zero x at bit = bit
first_bit (suc n) x at bit =
    let rest = first_bit n x at (suc bit) in if test_bit x (at + bit) then bit else rest

unfoldable pub ffs : ℕ → ℕ
ffs bitmask = let byte = first_byte 8 bitmask 0 in byte * 8 + first_bit 8 bitmask (byte * 8) 0

-- The words, with `w` in front.
abbrev pub behind : ℕ → Option (ℕ × List ℕ) → Option (ℕ × List ℕ)
behind w none = none
behind w (some (pos, ws)) = some (pos, w ∷ ws)

-- The scan of `mem_pool_alloc`: the first word that is not full gets its lowest free bit set. The
-- result is the position of the bit, and the words.
unfoldable pub take_bit : (word : ℕ) → List ℕ → Option (ℕ × List ℕ)
take_bit word [] = none
take_bit word (w ∷ ws) =
    let rest = behind w (take_bit (suc word) ws) in
    let bit = ffs (all_ones - w) in
    if w == all_ones then rest else some (objs_per_word * word + bit, set_bit w bit ∷ ws)

-- The object at the position that the scan found; none is the `BUG` at the end.
abbrev pub give_object : Layout → Pool → Option (ℕ × List ℕ) → Run (ℕ × Pool)
give_object cache pool none = bug
give_object cache pool (some (pos, ws)) =
    ok (pool.base + pos * cache.obj_size, record pool { bitmask = ws; free = pool.free - 1 })

unfoldable pub mem_pool_alloc : Layout → Pool → Run (ℕ × Pool)
mem_pool_alloc cache pool = do
  bug_on (pool.free == 0)
  give_object cache pool (take_bit 0 pool.bitmask)

-- `mem_pool_free`; `ptr` is not below the pool's first object.
unfoldable pub mem_pool_free : Layout → Pool → (ptr : ℕ) → Run Pool
mem_pool_free cache pool ptr = do
  let pos = (ptr - pool.base) / cache.obj_size
  let word = pos / objs_per_word
  let bit = pos % objs_per_word
  let w = get_or pool.bitmask word 0
  bug_on (leb cache.obj_count pos)
  bug_on (not (test_bit w bit))
  bug_on (ltb cache.obj_count (pool.free + 1))
  ok (record pool { bitmask = set pool.bitmask word (clear_bit w bit); free = pool.free + 1 })
