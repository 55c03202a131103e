-- ===== src/PageTables.antt =====
-- The page tables of src/src/paging.c: `__pt_map_pages` and what calls it. A table is named by its
-- physical address, and `tables` has its 512 entries, words of 64 bits. Addresses are words of 64 bits
-- too. A page comes from the allocator `take` of a pool, which is out of pages where `take` is `none`;
-- both `get_page` functions of the code stop there, and clear the page that they return.
pub mod Cells
pub mod Translation
pub mod Sound
pub mod Compose
pub mod Entry
pub mod Grow
pub mod Ready
pub mod Whole
pub mod Rounds
pub mod Map
pub mod Ranges
pub mod Setup
pub mod Prepared
pub mod Page
pub mod Window
pub mod Clear
pub mod Sample
mod Tests
use spbau_os_hw.Prelude.{
  ℕ, zero, suc, ◌+◌, ◌-◌, ◌*◌, ◌/◌, ◌%◌, ◌^◌, Bool, true, false, not, ◌&&◌, ◌||◌, List, [], ◌∷◌,
  Option, none, some, ltb, leb, ◌==◌, if◌then◌else◌, get_or, update,
}
use spbau_os_hw.Prelude.Words.{word_or}
use spbau_os_hw.Prelude.Run.{Run, ok, bug, ◌>>=◌, ◌>>◌, bug_on}

abbrev pub Tables : Type 0
Tables = (table index : ℕ) → ℕ

pub record Paging {ℓ} (S : Type ℓ) : Type ℓ where
  pub tables : Tables
  pub pool : S

abbrev pub pml_shift : ℕ → ℕ
pml_shift level = get_or (0 ∷ 12 ∷ 21 ∷ 30 ∷ 39 ∷ []) level 0

abbrev pub pml_size : ℕ → ℕ
pml_size level = 2 ^ pml_shift level

-- For a level from 1 to 4, where the mask is 0x1ff.
abbrev pub pml_offs : (addr level : ℕ) → ℕ
pml_offs addr level = addr / pml_size level % 512

-- __PTE_PRESENT, __PTE_LARGE and PTE_PHYS_MASK of an entry.
abbrev pub is_present : ℕ → Bool
is_present pte = pte % 2 == 1

abbrev pub is_large : ℕ → Bool
is_large pte = pte / 2 ^ 7 % 2 == 1

abbrev pub phys_of : ℕ → ℕ
phys_of pte = pte / 2 ^ 12 % 2 ^ 40 * 2 ^ 12

-- __PTE_PRESENT | PTE_WRITE | PTE_USER
abbrev pub pde_flags : ℕ
pde_flags = 7

abbrev pub set_entry : (table index pte : ℕ) → Tables → Tables
set_entry table index pte t = update t table (update (t table) index pte)

abbrev pub set_pte {ℓ} : {S : Type ℓ} → (table index pte : ℕ) → Paging S → Paging S
set_pte table index pte st = record st { tables = set_entry table index pte st.tables }

abbrev pub Take {ℓ} : Type ℓ → Type ℓ
Take S = S → Option (ℕ × S)

-- `paging_setup_get_page` and `kmap_setup_get_page`
abbrev pub cleared_page {ℓ} : {S : Type ℓ} → Paging S → Option (ℕ × S) → Run (ℕ × Paging S)
cleared_page st none = bug
cleared_page st (some (page, pool)) =
    ok (page, record { tables = update st.tables page (λ i. 0); pool = pool })

unfoldable pub get_page {ℓ} : {S : Type ℓ} → Take S → Paging S → Run (ℕ × Paging S)
get_page take st = cleared_page st (take st.pool)

-- What a round of the loop maps: up to the end of the entry of `begin`, or to `end`. Both ends are in
-- the range.
abbrev pub map_end : (level begin end : ℕ) → ℕ
map_end level begin end =
    let size = pml_size level in
    let entry_end = ((begin + size) % 2 ^ 64 / size * size + (2 ^ 64 - 1)) % 2 ^ 64 in
    if ltb entry_end end then entry_end else end

abbrev pub tomap : (level begin end : ℕ) → ℕ
tomap level begin end = (map_end level begin end + 2 ^ 64 - begin + 1) % 2 ^ 64

-- `pte_large` at a level.
abbrev pub has_large : (level flags : ℕ) → Bool
has_large level flags = (level == 3 || level == 2) && is_large flags

-- Whether the entry maps memory itself, when it is free.
unfoldable pub maps_whole : (level begin end phys flags : ℕ) → Bool
maps_whole level begin end phys flags =
    let size = pml_size level in
    not (level == 4)
    && (tomap level begin end == size)
    && (begin % size == 0 && (phys % size == 0))
    && (has_large level flags || (level == 1))

-- (pte_t)phys | flags | pte_large
abbrev pub leaf_entry : (level phys flags : ℕ) → ℕ
leaf_entry level phys flags =
    word_or 64 (word_or 64 phys flags) (if has_large level flags then 2 ^ 7 else 0)

-- `below` maps a range in the table of the next level.
abbrev pub MapBelow {ℓ} : Type ℓ → Type ℓ
MapBelow S = (table begin end phys : ℕ) → Paging S → Run (Paging S)

-- The entry is free and cannot map the range itself: it gets a table.
abbrev pub new_table {ℓ} :
    {S : Type ℓ} (take : Take S) (table index : ℕ) → Paging S → Run (ℕ × Paging S)
new_table take table index st = get_page take st >>= λ r.
    bug_on (r.0 == 0)
    >> ok (word_or 64 r.0 pde_flags, set_pte table index (word_or 64 r.0 pde_flags) r.1)

-- A round of the loop, for the entry `index`.
unfoldable pub map_entry {ℓ} :
    {S : Type ℓ} (take : Take S) (below : MapBelow S) (level table index begin end phys flags : ℕ)
    → Paging S
    → Run (Paging S)
map_entry take below level table index begin end phys flags st =
    let pte = st.tables table index in
    let last = map_end level begin end in
    let deeper = bug_on (level == 1) >> below (phys_of pte) begin last phys st in
    let fresh =
      bug_on (level == 1)
      >> (new_table take table index st >>= λ r. below (phys_of r.0) begin last phys r.1) in
    if is_present pte
    then deeper
    else if maps_whole level begin end phys flags
    then ok (set_pte table index (leaf_entry level phys flags) st)
    else fresh

-- The loop: `n` rounds from the entry `index` on.
unfoldable pub map_loop {ℓ} :
    {S : Type ℓ} (take : Take S) (below : MapBelow S) (n level table index begin end phys flags : ℕ)
    → Paging S
    → Run (Paging S)
map_loop take below zero level table index begin end phys flags st = ok st
map_loop take below (suc n) level table index begin end phys flags st =
    map_entry take below level table index begin end phys flags st >>= λ s.
    map_loop take below n level table (suc index) ((begin + tomap level begin end) % 2 ^ 64) end
      ((phys + tomap level begin end) % 2 ^ 64) flags s

-- `__pt_map_pages`; the level is one that `pml_shift` has.
unfoldable pub map_level {ℓ} : {S : Type ℓ} (take : Take S) (flags level : ℕ) → MapBelow S
map_level take flags zero table begin end phys st = bug
map_level take flags (suc l) table begin end phys st =
    bug_on (ltb 4 (suc l))
    >> map_loop take (map_level take flags l) (suc (pml_offs end (suc l)) - pml_offs begin (suc l))
        (suc l) table (pml_offs begin (suc l)) begin end phys flags st

-- `end` is the address behind the range, and wraps to 0.
unfoldable pub pt_map_pages {ℓ} :
    {S : Type ℓ} (take : Take S) (pml4 begin end phys flags : ℕ) → Paging S → Run (Paging S)
pt_map_pages take pml4 begin end phys flags st =
    bug_on (not (begin % 4096 == 0))
    >> (bug_on (not (end % 4096 == 0))
        >> map_level take (word_or 64 (word_or 64 flags 1) (2 ^ 7)) 4 pml4 begin
            ((end + (2 ^ 64 - 1)) % 2 ^ 64) phys st)

unfoldable pub pt_populate_pages {ℓ} :
    {S : Type ℓ} (take : Take S) (pml4 begin end : ℕ) → Paging S → Run (Paging S)
pt_populate_pages take pml4 begin end st =
    bug_on (not (begin % 4096 == 0))
    >> (bug_on (not (end % 4096 == 0))
        >> map_level take 0 4 pml4 begin ((end + (2 ^ 64 - 1)) % 2 ^ 64) 0 st)

-- HIGHER_BASE, VIRTUAL_BASE and MAX_PMEM_SIZE
abbrev pub higher_base : ℕ
higher_base = 0xffff800000000000

abbrev pub virtual_base : ℕ
virtual_base = 0xffffffff80000000

abbrev pub max_pmem_size : ℕ
max_pmem_size = 0x00007fff00000000

-- How much memory `paging_setup` maps; `memory` is `balloc_memory()`.
abbrev pub mem_size : ℕ → ℕ
mem_size memory =
    let limit = memory / 4096 * 4096 in if ltb limit max_pmem_size then limit else max_pmem_size

-- `paging_setup`: the first table of all, which goes to cr3, and the tables.
unfoldable pub paging_setup {ℓ} :
    {S : Type ℓ} (take : Take S) (memory : ℕ) → Paging S → Run (ℕ × Paging S)
paging_setup take memory st = get_page take st >>= λ r.
    pt_map_pages take r.0 higher_base ((higher_base + mem_size memory) % 2 ^ 64) 0 2 r.1 >>= λ s.
    pt_map_pages take r.0 virtual_base 0 0 2 s >>= λ t. ok (r.0, t)

-- The entry that the last loop of `kunmap` finds for an address: its table and its index.
unfoldable pub slot : (t : Tables) (level table addr : ℕ) → ℕ × ℕ
slot t zero table addr = (table, 0)
slot t (suc zero) table addr = (table, pml_offs addr 1)
slot t (suc (suc l)) table addr =
    slot t (suc l) (phys_of (t table (pml_offs addr (suc (suc l))))) addr

-- `kunmap` of one page, and of the pages from `addr` on.
unfoldable pub unmap_page : (pml4 addr : ℕ) → Tables → Tables
unmap_page pml4 addr t = let s = slot t 4 (phys_of pml4) addr in set_entry s.0 s.1 0 t

unfoldable pub unmap_pages : (count pml4 addr : ℕ) → Tables → Tables
unmap_pages zero pml4 addr t = t
unmap_pages (suc n) pml4 addr t =
    unmap_pages n pml4 ((addr + 4096) % 2 ^ 64) (unmap_page pml4 addr t)

-- The loop of `kmap`: each page is mapped by itself, without a pool.
abbrev pub no_pool {ℓ} : {S : Type ℓ} → Take S
no_pool s = none

unfoldable pub map_each {ℓ} :
    {S : Type ℓ} (pages : List ℕ) (pml4 addr : ℕ) → Paging S → Run (Paging S)
map_each [] pml4 addr st = ok st
map_each (p ∷ ps) pml4 addr st =
    pt_map_pages no_pool pml4 addr ((addr + 4096) % 2 ^ 64) p 2 st >>= λ s.
    map_each ps pml4 ((addr + 4096) % 2 ^ 64) s
