-- ===== src/Kmap.antt =====
-- The ranges of virtual pages that `kmap` of src/src/paging.c hands out: an array with an entry for
-- each page, where the first and the last page of a range say how long it is, and lists of the free
-- ranges by order. A range is named by the index of its first page.
mod Tests
pub mod Tiles
pub mod Lists
pub mod Search
pub mod Release
pub mod Refile
pub mod Cut
pub mod Alloc
pub mod Mapping
use spbau_os_hw.Prelude.{
  ℕ, zero, suc, ◌+◌, ◌-◌, ◌*◌, ◌/◌, ◌^◌, Bool, true, false, not, ◌&&◌, List, [], ◌∷◌, Option, none,
  some, ltb, leb, ◌==◌, if◌then◌else◌, update,
}
use spbau_os_hw.Prelude.Partial.{◌>>=◌}
use spbau_os_hw.Prelude.Without.{without}

-- KMAP_ORDERS, and KMAP_PAGES: KMAP_SIZE is 0x80000000, a page has 2^12 bytes.
abbrev pub kmap_orders : ℕ
kmap_orders = 16

abbrev pub kmap_pages : ℕ
kmap_pages = 2 ^ 19

-- `linked` says whether `list_empty` of the entry's links fails; `list_del` leaves it so.
pub record Kmap : Type 0 where
  pub pages : ℕ → ℕ
  pub linked : ℕ → Bool
  pub free_ranges : ℕ → List ℕ

unfoldable pub order_loop : (fuel order pages : ℕ) → ℕ
order_loop zero order pages = order
order_loop (suc f) order pages =
    let rest = order_loop f (suc order) pages in if ltb (2 ^ order) pages then rest else order

-- The loop ends at KMAP_ORDERS.
unfoldable pub kmap_order : ℕ → ℕ
kmap_order pages = order_loop kmap_orders 0 pages

-- `list_del` of its links.
unfoldable pub take_off : ℕ → Kmap → Kmap
take_off r st = record st { free_ranges = λ o. without r (st.free_ranges o) }

-- What is freed so far: its first page, how many pages it has, and the state.
pub record Freed : Type 0 where
  pub range : ℕ
  pub count : ℕ
  pub st : Kmap

unfoldable pub join_prev : Freed → Freed
join_prev f =
    let prev = f.range - f.st.pages (f.range - 1) in
    if ltb 0 f.range && f.st.linked prev
    then record { range = prev; count = f.count + f.st.pages prev; st = take_off prev f.st }
    else f

unfoldable pub join_next : Freed → Freed
join_next f =
    let next = f.range + f.count in
    if ltb next kmap_pages && f.st.linked next
    then record { range = f.range; count = f.count + f.st.pages next; st = take_off next f.st }
    else f

-- The range is marked at both ends and goes on its list.
unfoldable pub put_free : Freed → Kmap
put_free f =
    let order = kmap_order (f.count + 1) - 1 in
    record {
      pages = update (update f.st.pages f.range f.count) (f.range + f.count - 1) f.count;
      linked = update f.st.linked f.range true;
      free_ranges = update f.st.free_ranges order (f.range ∷ f.st.free_ranges order);
    }

unfoldable pub kmap_free_range : (range pages : ℕ) → Kmap → Kmap
kmap_free_range range pages st =
    put_free (join_next (join_prev (record { range = range; count = pages; st = st })))

unfoldable pub find_in : (pages : ℕ) → Kmap → List ℕ → Option ℕ
find_in pages st [] = none
find_in pages st (r ∷ rs) =
    let rest = find_in pages st rs in if leb pages (st.pages r) then some r else rest

unfoldable pub kmap_find_free : (order pages : ℕ) → Kmap → Option ℕ
kmap_find_free order pages st = find_in pages st (st.free_ranges order)

-- The first result, unless there is none.
abbrev pub or_else {ℓ} : {A : Type ℓ} → Option A → Option A → Option A
or_else (some a) b = some a
or_else none b = b

-- The loop over the orders from `order` on.
unfoldable pub find_order_from : (fuel order pages : ℕ) → Kmap → Option ℕ
find_order_from zero order pages st = none
find_order_from (suc f) order pages st =
    or_else (kmap_find_free order pages st) (find_order_from f (suc order) pages st)

-- The range that is found is cut, and what is left of it is freed.
unfoldable pub cut_range : (range pages : ℕ) → Kmap → Kmap
cut_range range pages st =
    let range_pages = st.pages range in
    let taken : Kmap = record {
      pages = update (update st.pages range pages) (range + pages - 1) pages;
      linked = update st.linked range false;
      free_ranges = (take_off range st).free_ranges;
    } in
    if ltb pages range_pages
    then kmap_free_range (range + pages) (range_pages - pages) taken
    else taken

unfoldable pub kmap_alloc_range : (pages : ℕ) → Kmap → Option (ℕ × Kmap)
kmap_alloc_range pages st =
    let start = kmap_order pages in
    let below = if ltb pages (2 ^ start) then kmap_find_free (start - 1) pages st else none in
    or_else (find_order_from (kmap_orders - start) start pages st) below >>= λ r.
    some (r, cut_range r pages st)
