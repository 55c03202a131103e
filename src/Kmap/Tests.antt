-- ===== src/Kmap/Tests.antt =====
-- Uses of the theorems on the ranges of `kmap` at three ranges, of which the middle one is not free.
use spbau_os_hw.Prelude.{
  ℕ, zero, suc, ◌*◌, ◌-◌, ◌+◌, ◌/◌, ◌%◌, ◌^◌, ◌<◌, get_or, ◌≤◌, ◌||◌, ◌≡◌, refl, arith, ◌⊎◌, inl,
  inr, true, false, List, [], ◌∷◌, ◌==◌, if◌then◌else◌, not, none, some, Bool-cases, All,
}
use spbau_os_hw.Prelude.Run.{ok}
use spbau_os_hw.PageTables.{Paging}
use spbau_os_hw.PageTables.Clear.{IsCovered}
use spbau_os_hw.PageTables.Prepared.{IsWalked}
use spbau_os_hw.PageTables.Translation.{translate}
use spbau_os_hw.PageTables.Sample.{
  four_tables, four_tables-AreLabelled, four_labels, four, four-IsWindow,
}
use spbau_os_hw.Kmap.Mapping.{Window, kmap, kunmap, kmap_addr, kmap_lem, kunmap-Tiled}
use spbau_os_hw.Kmap.{
  Kmap, kmap_pages, kmap_alloc_range, cut_range, kmap_order, order_loop, find_order_from,
  kmap_find_free, find_in,
}
use spbau_os_hw.Kmap.Tiles.{Tile, Marked, Tiled}
use spbau_os_hw.Kmap.Release.{released}
use spbau_os_hw.Kmap.Alloc.{Allocated, kmap_alloc_range-Tiled}
use spbau_os_hw.Kmap.Lists.{Holds, filed}
use spbau_os_hw.Kmap.Search.{fits}

abbrev three : Kmap
three = record {
  pages = λ i. if i == 0 || i == 3 then 4 else if i == 4 || i == 6 then 3 else kmap_pages - 7;
  linked = λ i. not (i == 4);
  free_ranges = λ o. if o == 2 then 0 ∷ [] else if o == 15 then 7 ∷ [] else [];
}

abbrev tile_0 : Tile
tile_0 = record { size = 4; is_free = true }

abbrev tile_4 : Tile
tile_4 = record { size = 3; is_free = false }

abbrev tile_7 : Tile
tile_7 = record { size = kmap_pages - 7; is_free = true }

tile_0-Marked : Marked three 0 tile_0
tile_0-Marked = record {
  some_pages = omega arith;
  first_page = refl;
  last_page = refl;
  on_list = refl;
}

tile_4-Marked : Marked three 4 tile_4
tile_4-Marked = record {
  some_pages = omega arith;
  first_page = refl;
  last_page = refl;
  on_list = refl;
}

tile_7-Marked : Marked three 7 tile_7
tile_7-Marked = record {
  some_pages = omega arith;
  first_page = refl;
  last_page = refl;
  on_list = refl;
}

abbrev three_tiles : List Tile
three_tiles = tile_0 ∷ tile_4 ∷ tile_7 ∷ []

three-Tiled : Tiled three 0 three_tiles kmap_pages
three-Tiled = (tile_0-Marked, (tile_4-Marked, (tile_7-Marked, refl)))

three-Holds : Holds three (filed 0 three_tiles)
unfolding kmap_order order_loop
three-Holds o i = elim (Bool-cases (o == 2)) [
  | inl t ↦ let u : (o == 15) ≡ false = ground (arith, t) in rw (t, u) (ground arith)
  | inr t ↦ elim (Bool-cases (o == 15)) [
    | inl u ↦ rw (t, u) (ground arith)
    | inr u ↦ rw (t, u) (ground arith)
  ]
]

kmap_alloc_range-Tiled_example :
    ((kmap_alloc_range 100 three ≡ none) × All (λ t. fits 100 t ≡ false) three_tiles)
    ⊎ ((r : ℕ) × (t : Kmap) × (kmap_alloc_range 100 three ≡ some (r, t))
        × Allocated three t three_tiles 100 r)
kmap_alloc_range-Tiled_example =
    kmap_alloc_range-Tiled three three_tiles 100 (omega arith) three-Tiled three-Holds

abbrev window_3 : Window (List ℕ)
window_3 = record { ranges = three; paging = four }

kmap_lem_example :
    (s : Paging (List ℕ)) × (kmap (0xb000 ∷ 0xa000 ∷ []) 0x1000 window_3
      ≡ ok (some (kmap_addr 0), record { ranges = cut_range 0 2 three; paging = s }))
    × ((x : ℕ)
        → kmap_addr 0 ≤ x
        → x < kmap_addr 0 + 8192
        → translate s.tables 4 0x1000 x
          ≡ some (
              get_or (0xb000 ∷ 0xa000 ∷ []) ((x - kmap_addr 0) / 4096) 0
              + (x - kmap_addr 0) % 4096))
    × ((x : ℕ)
        → x / 2 ^ 48 ≡ kmap_addr 0 / 2 ^ 48
        → (x < kmap_addr 0) ⊎ (kmap_addr 0 + 8192 ≤ x)
        → translate s.tables 4 0x1000 x ≡ translate four_tables 4 0x1000 x)
unfolding kmap_alloc_range kmap_order order_loop find_order_from kmap_find_free find_in
kmap_lem_example =
    kmap_lem four_labels 0x1000 0xb000 0xa000 [] window_3 0 (cut_range 0 2 three) refl four-IsWindow

-- The tables are there for the pages of the second range.
tile_4-IsWalked : (i : ℕ) → i < 3 → IsWalked four_tables 4 0x1000 (kmap_addr 4 + i * 4096)
tile_4-IsWalked zero h = (
  record { table = refl; present = refl; no_leaf = refl },
  (
    record { table = refl; present = refl; no_leaf = refl },
    (record { table = refl; present = refl; no_leaf = refl }, tt),
  ),
)
tile_4-IsWalked (suc zero) h = (
  record { table = refl; present = refl; no_leaf = refl },
  (
    record { table = refl; present = refl; no_leaf = refl },
    (record { table = refl; present = refl; no_leaf = refl }, tt),
  ),
)
tile_4-IsWalked (suc (suc zero)) h = (
  record { table = refl; present = refl; no_leaf = refl },
  (
    record { table = refl; present = refl; no_leaf = refl },
    (record { table = refl; present = refl; no_leaf = refl }, tt),
  ),
)
tile_4-IsWalked (suc (suc (suc i))) h = absurd (omega (arith, h))

tile_4-IsCovered : IsCovered four_labels four_tables 0x1000 (kmap_addr 4) 3
tile_4-IsCovered = record {
  labelled = four_tables-AreLabelled;
  place = refl;
  root = refl;
  walked = tile_4-IsWalked;
  begin_page = refl;
  top = omega arith;
  half = refl;
}

kunmap-Tiled_example :
    let after = kunmap (kmap_addr 4) 0x1000 window_3 in
    Tiled after.ranges 0 (released (tile_0 ∷ []) 3 (tile_7 ∷ [])) kmap_pages
    × Holds after.ranges (filed 0 (released (tile_0 ∷ []) 3 (tile_7 ∷ [])))
    × ((x : ℕ)
        → kmap_addr 4 ≤ x
        → x < kmap_addr 4 + 3 * 4096
        → translate after.paging.tables 4 0x1000 x ≡ none)
    × ((x : ℕ)
        → x / 2 ^ 48 ≡ kmap_addr 4 / 2 ^ 48
        → (x < kmap_addr 4) ⊎ (kmap_addr 4 + 3 * 4096 ≤ x)
        → translate after.paging.tables 4 0x1000 x ≡ translate four_tables 4 0x1000 x)
kunmap-Tiled_example =
    kunmap-Tiled four_labels 0x1000 4 (tile_0 ∷ []) (tile_7 ∷ []) tile_4 window_3 (omega arith)
      (tile_0-Marked, refl) tile_4-Marked (tile_7-Marked, refl) refl three-Holds tile_4-IsCovered
