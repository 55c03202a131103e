-- ===== src/PageAlloc.antt =====
-- The page allocator of src/src/memory.c and src/inc/memory.h: buddy blocks in zones.
-- A `struct page *` is represented by the number of its page, `zone->begin + (page - zone->pages)`,
-- so `zone->pages` is a function of the page number, and an intrusive list of pages is the list of
-- their numbers (IntrusiveList shows that the pointer operations do what the operations on lists
-- do here). The lock around each operation is left out: an operation is one step.
pub mod Blocks
pub mod Flags
pub mod Cover
pub mod Invariant
pub mod Moves
pub mod Alloc
pub mod Free
pub mod Setup
mod Tests
use spbau_os_hw.Prelude.{
  ℕ, zero, suc, ◌+◌, ◌-◌, ◌*◌, ◌/◌, ◌%◌, ◌^◌, Bool, true, false, not, ◌&&◌, ◌||◌, Option, none,
  some, List, [], ◌∷◌, ◌++◌, update, ltb, leb, ◌==◌, if◌then◌else◌,
}
use spbau_os_hw.Prelude.Bits.{test_bit, set_bit, clear_bit, flip_bit}
use spbau_os_hw.Prelude.Run.{Run, ok, bug, ◌>>=◌, ◌>>◌, bug_on}

abbrev pub max_order : ℕ
max_order = 18

abbrev pub page_shift : ℕ
page_shift = 12

abbrev pub page_size : ℕ
page_size = 2 ^ page_shift

-- `u` is the word that `u.order` and `u.cache` share.
pub record Page : Type 0 where
  pub flags : ℕ
  pub u : ℕ

-- The lowest eight bits of the flags hold an order.
unfoldable pub page_order : Page → ℕ
page_order p = p.flags % 256

unfoldable pub page_set_order : Page → ℕ → Run Page
page_set_order p order = do
  bug_on (ltb 255 order)
  ok (record p { flags = p.flags / 256 * 256 + order })

unfoldable pub page_is_free : Page → Bool
page_is_free p = test_bit p.flags 8

unfoldable pub page_set_free : Page → Page
page_set_free p = record p { flags = set_bit p.flags 8 }

unfoldable pub page_set_busy : Page → Page
page_set_busy p = record p { flags = clear_bit p.flags 8 }

unfoldable pub page_set_bit : Page → ℕ → Page
page_set_bit p bit = record p { flags = set_bit p.flags (bit + 16) }

unfoldable pub page_clear_bit : Page → ℕ → Page
page_clear_bit p bit = record p { flags = clear_bit p.flags (bit + 16) }

unfoldable pub page_test_bit : Page → ℕ → Bool
page_test_bit p bit = test_bit p.flags (bit + 16)

pub record Zone : Type 0 where
  pub begin : ℕ
  pub end : ℕ
  pub order : ℕ → List ℕ
  pub pages : ℕ → Page

abbrev pub is_empty : List ℕ → Bool
is_empty [] = true
is_empty (x ∷ xs) = false

-- `list_del` of an entry; an entry of no list is a write through stale pointers.
unfoldable pub take_out : ℕ → List ℕ → Run (List ℕ)
take_out p [] = bug
take_out p (x ∷ xs) =
    let rest = take_out p xs in if x == p then ok xs else (rest >>= λ r. ok (x ∷ r))

-- `page_set_order(page, order); page_set_free(page);`
unfoldable pub mark_free : Zone → ℕ → ℕ → Run Zone
mark_free z p order = do
  page ← page_set_order (z.pages p) order
  ok (record z { pages = update z.pages p (page_set_free page) })

-- The search for the first list from `current` on that is not empty. The list of order 19, which
-- the last test of the loop reads, lies behind the array; its content does not matter.
unfoldable pub find_order : (fuel : ℕ) → Zone → (current : ℕ) → Option ℕ
find_order zero z current = none
find_order (suc f) z current =
    let rest = find_order f z (suc current) in
    if is_empty (z.order current) && leb current max_order then rest else some current

-- `while (current != order)`: put the upper halves back, from `current` down to `order`.
unfoldable pub split_down : Zone → (page order current : ℕ) → Run Zone
split_down z page order zero = ok z
split_down z page order (suc c) =
    let rest : Run Zone = (do
      let buddy = flip_bit page c
      z' ← mark_free (record z { order = update z.order c (buddy ∷ z.order c) }) buddy c
      split_down z' page order c) in
    if suc c == order then ok z else rest

-- The page is the first of its list, so `list_del` leaves the rest of the list.
unfoldable pub take_first : Zone → (order current : ℕ) → List ℕ → Run (Option ℕ × Zone)
take_first z order current [] = bug
take_first z order current (page ∷ rest) = do
  z' ←
      split_down
        (record z {
          order = update z.order current rest;
          pages = update z.pages page (page_set_busy (z.pages page));
        })
        page order current
  ok (some page, z')

-- The loop reads orders up to 19, so `20 - order` rounds are enough.
unfoldable pub page_alloc_zone : Zone → ℕ → Run (Option ℕ × Zone)
page_alloc_zone z order = elim (find_order (20 - order) z order) [
  | none ↦ bug
  | some current ↦
      if ltb max_order current then ok (none, z) else take_first z order current (z.order current)
]

-- A round of the loop of `page_free_zone` goes on exactly if the buddy is a free block of the same
-- order in the zone.
unfoldable pub can_merge : Zone → (idx order : ℕ) → Bool
can_merge z idx order =
    let bidx = flip_bit idx order in
    not (ltb bidx z.begin || leb z.end bidx)
    && not (not (page_is_free (z.pages bidx)) || not (page_order (z.pages bidx) == order))

-- The loop `while (order < MAX_ORDER)`, on the rounds left, `MAX_ORDER - order`.
unfoldable pub merge_up : (rounds : ℕ) → Zone → (idx order : ℕ) → Run (ℕ × ℕ × Zone)
merge_up zero z idx order = ok (idx, order, z)
merge_up (suc n) z idx order =
    let rest : Run (ℕ × ℕ × Zone) = (do
      let bidx = flip_bit idx order
      others ← take_out bidx (z.order order)
      merge_up n (record z { order = update z.order order others })
          (if ltb bidx idx then bidx else idx) (suc order)) in
    if can_merge z idx order then rest else ok (idx, order, z)

unfoldable pub page_free_zone : Zone → (page order : ℕ) → Run Zone
page_free_zone z page order = do
  bug_on (not (page % 2 ^ order == 0))
  (idx, k, z') ← merge_up (max_order - order) z page order
  mark_free (record z' { order = update z'.order k (idx ∷ z'.order k) }) idx k

-- The loop of `page_alloc` and `__page_alloc` over the zones. The result is the page's number.
unfoldable pub alloc_zones : List Zone → ℕ → Run (Option ℕ × List Zone)
alloc_zones [] order = ok (none, [])
alloc_zones (z ∷ zs) order = do
  (found, z') ← page_alloc_zone z order
  elim found [
    | none ↦ (do (result, zs') ← alloc_zones zs order; ok (result, z' ∷ zs'))
    | some page ↦ ok (some page, z' ∷ zs)
  ]

-- `__page_alloc`
unfoldable pub page_alloc_page : List Zone → ℕ → Run (Option ℕ × List Zone)
page_alloc_page zs order = if ltb max_order order then ok (none, zs) else alloc_zones zs order

-- `page_alloc`: the address of the first page, or 0.
unfoldable pub page_alloc : List Zone → ℕ → Run (ℕ × List Zone)
page_alloc zs order = do
  (found, zs') ← page_alloc_page zs order
  elim found [ none ↦ ok (0, zs') | some page ↦ ok (page * page_size, zs') ]

-- `page_alloc_zone_find` and the free in the zone that it finds; no zone is a `BUG_ON`.
unfoldable pub free_zones : List Zone → (idx order : ℕ) → Run (List Zone)
free_zones [] idx order = bug
free_zones (z ∷ zs) idx order =
    let rest : Run (List Zone) = (do zs' ← free_zones zs idx order; ok (z ∷ zs')) in
    if leb z.begin idx && ltb idx z.end
    then (do z' ← page_free_zone z idx order; ok (z' ∷ zs))
    else rest

unfoldable pub page_free : List Zone → (addr order : ℕ) → Run (List Zone)
page_free zs addr order = if addr == 0 then ok zs else free_zones zs (addr / page_size) order

-- The bytes of a `struct page_alloc_zone` and of a `struct page`.
abbrev pub zone_bytes : ℕ
zone_bytes = 368

abbrev pub page_bytes : ℕ
page_bytes = 32

-- The first whole page of a range of addresses, and the page behind the last whole one.
unfoldable pub first_page : ℕ → ℕ
first_page a = (a + page_size - 1) % 2 ^ 64 / page_size

unfoldable pub last_page : ℕ → ℕ
last_page a = a / page_size

-- `memset` over the first `n` pages from page `p` on.
unfoldable pub clear_pages : ℕ → ℕ → (ℕ → Page) → ℕ → Page
clear_pages n p pages i = if leb p i && ltb i (p + n) then record { flags = 0; u = 0 } else pages i

-- `__page_alloc_zone_setup`. `alloc` is what `balloc_alloc` does for a size: nothing, or memory,
-- read as a zone, with whatever it holds. The size of the `memset` is taken from that memory.
unfoldable pub zone_setup :
    (alloc : ℕ → Option Zone) → (zbegin zend : ℕ) → List Zone → Run (List Zone)
zone_setup alloc zbegin zend zs =
    let begin = first_page zbegin in
    let end = last_page zend in
    if leb end begin then ok zs else elim (alloc (zone_bytes + page_bytes * (end - begin))) [
      | none ↦ bug
      | some raw ↦ ok (
          zs
          ++ (record {
            begin = begin;
            end = end;
            order = λ _. [];
            pages = clear_pages (raw.end - raw.end) begin raw.pages;
          })
            ∷ [])
    ]

-- The order of the largest block that starts at `page` and ends by `end`, from `order` on; the
-- loop runs while `order < MAX_ORDER`.
unfoldable pub fit_order : (rounds : ℕ) → (page end order : ℕ) → ℕ
fit_order zero page end order = order
fit_order (suc n) page end order =
    let rest = fit_order n page end (suc order) in
    if test_bit page order then order else if ltb end (page + 2 ^ suc order) then order else rest

-- The loop of `__page_alloc_zone_free`: each round puts a block behind the others of its order.
unfoldable pub free_range_loop : (fuel : ℕ) → Zone → (page end : ℕ) → Run Zone
free_range_loop zero z page end = bug
free_range_loop (suc f) z page end =
    let order = fit_order max_order page end 0 in
    let rest : Run Zone = (do
      z' ←
          mark_free (record z { order = update z.order order (z.order order ++ page ∷ []) }) page
            order
      free_range_loop f z' (page + 2 ^ order) end) in
    if page == end then ok z else rest

-- `__page_alloc_zone_free` in the zone that holds `begin`. Page 0 is never freed.
unfoldable pub zone_free : (begin end : ℕ) → Zone → Run Zone
zone_free begin end z = do
  bug_on (ltb begin z.begin || leb z.end begin)
  bug_on (leb end z.begin || ltb z.end end)
  free_range_loop (suc (end - begin)) z begin end

unfoldable pub free_range_zones : (begin end : ℕ) → List Zone → Run (List Zone)
free_range_zones begin end [] = bug
free_range_zones begin end (z ∷ zs) =
    let rest : Run (List Zone) = (do zs' ← free_range_zones begin end zs; ok (z ∷ zs')) in
    if leb z.begin begin && ltb begin z.end
    then (do z' ← zone_free begin end z; ok (z' ∷ zs))
    else rest

unfoldable pub page_alloc_zone_free : (zbegin zend : ℕ) → List Zone → Run (List Zone)
page_alloc_zone_free zbegin zend zs =
    let begin = if first_page zbegin == 0 then 1 else first_page zbegin in
    let end = last_page zend in if leb end begin then ok zs else free_range_zones begin end zs
