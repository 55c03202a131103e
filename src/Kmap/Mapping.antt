-- ===== src/Kmap/Mapping.antt =====
-- `kmap` and `kunmap` of src/src/paging.c: a range of the window, and the tables for its pages. What
-- they do to the TLB has no model. cr3 holds the address of the first table.
use spbau_os_hw.Prelude.{
  ℕ, ◌+◌, ◌-◌, ◌*◌, ◌/◌, ◌%◌, ◌^◌, ◌≤◌, ◌<◌, ◌≡◌, refl, arith, ◌⊎◌, ◌∙◌, ◌++◌, false, ◌||◌, List,
  [], ◌∷◌, length, get_or, Option, none, some, ltb, leb, if◌then◌else◌,
}
use spbau_os_hw.Prelude.Run.{Run, ok, ◌>>=◌}
use spbau_os_hw.Kmap.{Kmap, kmap_pages, kmap_alloc_range, kmap_free_range}
use spbau_os_hw.Kmap.Tiles.{Tile, Marked, Tiled}
use spbau_os_hw.Kmap.Release.{released, kmap_free_range-Tiled}
use spbau_os_hw.Kmap.Refile.{kmap_free_range-Holds}
use spbau_os_hw.Kmap.Lists.{Holds, filed, filed-append}
use spbau_os_hw.PageTables.{Paging, higher_base, virtual_base, map_each, unmap_pages}
use spbau_os_hw.PageTables.Translation.{Labels, translate}
use spbau_os_hw.PageTables.Clear.{IsCovered, unmap_pages_lem}
use spbau_os_hw.PageTables.Window.{IsWindow, map_each_lem}

pub record Window {ℓ} (S : Type ℓ) : Type ℓ where
  pub ranges : Kmap
  pub paging : Paging S

-- KMAP_BEGIN
abbrev pub kmap_begin : ℕ
kmap_begin = virtual_base - 0x80000000

abbrev pub kmap_addr : ℕ → ℕ
kmap_addr range = kmap_begin + range * 4096

abbrev pub addr_kmap : ℕ → ℕ
addr_kmap addr = (addr - kmap_begin) / 4096

abbrev pub va : ℕ → ℕ
va phys = (phys + higher_base) % 2 ^ 64

-- `kmap` of some pages behind the choice of the range.
abbrev pub kmap_in {ℓ} :
    {S : Type ℓ} (pages : List ℕ) (cr3 : ℕ)
    → Window S
    → Option (ℕ × Kmap)
    → Run (Option ℕ × Window S)
kmap_in pages cr3 st none = ok (none, st)
kmap_in pages cr3 st (some (range, ranges)) =
    map_each pages cr3 (kmap_addr range) st.paging >>= λ s.
    ok (some (kmap_addr range), record { ranges = ranges; paging = s })

unfoldable pub kmap {ℓ} :
    {S : Type ℓ} (pages : List ℕ) (cr3 : ℕ) → Window S → Run (Option ℕ × Window S)
kmap [] cr3 st = ok (none, st)
kmap (p ∷ []) cr3 st = ok (some (va p), st)
kmap (p ∷ q ∷ ps) cr3 st =
    kmap_in (p ∷ q ∷ ps) cr3 st (kmap_alloc_range (length (p ∷ q ∷ ps)) st.ranges)

unfoldable pub kunmap {ℓ} : {S : Type ℓ} (ptr cr3 : ℕ) → Window S → Window S
kunmap ptr cr3 st =
    let range = addr_kmap ptr in
    let count = st.ranges.pages range in
    if ltb ptr kmap_begin || leb virtual_base ptr then st else record {
      ranges = kmap_free_range range count st.ranges;
      paging = record st.paging { tables = unmap_pages count cr3 ptr st.paging.tables };
    }

-- `kmap` of two pages or more from a range that is taken gives the range's address, where the tables
-- for the range are there. It leaves the ranges as they are then, each address of the range is
-- translated to its place in the page that the list has for it, and every other address of the half
-- as before.
pub kmap_lem {ℓ} :
    {S : Type ℓ} (label : Labels) (cr3 p q : ℕ) (ps : List ℕ) (st : Window S) (range : ℕ)
    (ranges : Kmap)
    → let pages = p ∷ q ∷ ps in
      let a = kmap_addr range in
      kmap_alloc_range (length pages) st.ranges ≡ some (range, ranges)
      → IsWindow label st.paging.tables cr3 a pages
      → (s : Paging S) × (kmap pages cr3 st ≡ ok (some a, record { ranges = ranges; paging = s }))
        × ((x : ℕ)
            → a ≤ x
            → x < a + length pages * 4096
            → translate s.tables 4 cr3 x ≡ some (get_or pages ((x - a) / 4096) 0 + (x - a) % 4096))
        × ((x : ℕ)
            → x / 2 ^ 48 ≡ a / 2 ^ 48
            → (x < a) ⊎ (a + length pages * 4096 ≤ x)
            → translate s.tables 4 cr3 x ≡ translate st.paging.tables 4 cr3 x)
unfolding kmap
kmap_lem label cr3 p q ps st range ranges e w =
    let (s, run, mapped, others) =
      map_each_lem label cr3 (kmap_addr range) (p ∷ q ∷ ps) st.paging w in
    (s, rw (e, run) refl, mapped, others)

-- If tiles fill the window and the lists hold the free ones, `kunmap` of the address of a busy tile
-- frees it: tiles fill the window again, where it is merged with the free ones beside it, and the lists
-- hold the free ones, each once and on the list of its order, and nothing else. Where the tables for
-- the tile are there, no address of it is translated then, and every other address of the half as
-- before.
pub kunmap-Tiled {ℓ} :
    {S : Type ℓ} (label : Labels) (cr3 range : ℕ) (pre post : List Tile) (tile : Tile)
    (st : Window S)
    → range < kmap_pages
    → Tiled st.ranges 0 pre range
    → Marked st.ranges range tile
    → Tiled st.ranges (range + tile.size) post kmap_pages
    → tile.is_free ≡ false
    → Holds st.ranges (filed 0 (pre ++ tile ∷ post))
    → IsCovered label st.paging.tables cr3 (kmap_addr range) tile.size
    → let a = kmap_addr range in
      let after = kunmap a cr3 st in
      Tiled after.ranges 0 (released pre tile.size post) kmap_pages
      × Holds after.ranges (filed 0 (released pre tile.size post))
      × ((x : ℕ) → a ≤ x → x < a + tile.size * 4096 → translate after.paging.tables 4 cr3 x ≡ none)
      × ((x : ℕ)
          → x / 2 ^ 48 ≡ a / 2 ^ 48
          → (x < a) ⊎ (a + tile.size * 4096 ≤ x)
          → translate after.paging.tables 4 cr3 x ≡ translate st.paging.tables 4 cr3 x)
unfolding kunmap
kunmap-Tiled label cr3 range pre post tile st l h m k busy lists there =
    let inside : (ltb (kmap_addr range) kmap_begin || leb virtual_base (kmap_addr range)) ≡ false =
      ground (arith, l) in
    let back : addr_kmap (kmap_addr range) ≡ range = omega arith in
    let without_it : Holds st.ranges (λ o i. filed 0 pre o i + filed (range + tile.size) post o i) =
      λ o i.
        lists o i ∙ filed-append st.ranges 0 pre range (tile ∷ post) o i h ∙ ground (arith, busy) in
    let (cleared, others) =
      unmap_pages_lem label cr3 (kmap_addr range) tile.size st.paging.tables there in
    rw (inside, back, m.first_page)
      (
        kmap_free_range-Tiled st.ranges pre post range tile.size m.some_pages h k,
        kmap_free_range-Holds st.ranges pre post range tile.size h k without_it,
        cleared,
        others,
      )
