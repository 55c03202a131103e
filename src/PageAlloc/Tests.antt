-- ===== src/PageAlloc/Tests.antt =====
-- Uses of the page allocator's theorems at a zone of the pages 1 to 8.
use spbau_os_hw.Prelude.{
  ℕ, ◌+◌, ◌≤◌, ◌≡◌, refl, sym, ◌∙◌, arith, [], ◌∷◌, none, some, ◌⊎◌, true, false,
}
use spbau_os_hw.Prelude.Run.{ok}
use spbau_os_hw.Prelude.Bits.{test_bit}
use spbau_os_hw.PageAlloc.{
  Zone, max_order, page_is_free, page_alloc_zone, page_free_zone, zone_free,
}
use spbau_os_hw.PageAlloc.Cover.{covers}
use spbau_os_hw.PageAlloc.Invariant.{Inv}
use spbau_os_hw.PageAlloc.Alloc.{page_alloc_zone-Inv}
use spbau_os_hw.PageAlloc.Free.{page_free_zone-Inv}
use spbau_os_hw.PageAlloc.Setup.{zone_free-Inv, empty_zone-Inv, in_range, sum_orders-empty}

abbrev small : Zone
small = record { begin = 1; end = 9; order = λ _. []; pages = λ _. record { flags = 0; u = 0 } }

cleared_page : page_is_free (record { flags = 0; u = 0 }) ≡ false
unfolding page_is_free test_bit
cleared_page = refl

range_once : (g : ℕ) → 0 + in_range 1 9 g ≤ 1
unfolding in_range
range_once g = ground arith

no_pages : Inv (λ _. 0) small [] []
no_pages = empty_zone-Inv small (λ _. refl) (λ _. cleared_page)

zone_free-Inv_example :
    (z' : Zone) × (zone_free 1 9 small ≡ ok z') × Inv (λ g. 0 + in_range 1 9 g) z' [] []
zone_free-Inv_example =
    zone_free-Inv small 1 9 (omega arith) (omega arith) (omega arith) range_once no_pages

stocked : (z' : Zone) × (zone_free 1 9 small ≡ ok z') × Inv (λ g. 0 + in_range 1 9 g) z' [] []
stocked = zone_free-Inv small 1 9 (omega arith) (omega arith) (omega arith) range_once no_pages

page_alloc_zone-Inv_example :
    ((page_alloc_zone stocked.0 1 ≡ ok (none, stocked.0))
      × ((j : ℕ) → 1 ≤ j → j ≤ max_order → stocked.0.order j ≡ []))
    ⊎ ((p : ℕ) × (z' : Zone) × (page_alloc_zone stocked.0 1 ≡ ok (some p, z'))
        × Inv (λ g. 0 + in_range 1 9 g) z' [] ((p, 1) ∷ []))
page_alloc_zone-Inv_example = page_alloc_zone-Inv stocked.0 1 (omega arith) stocked.2

-- The zone with the pages 2 and 3 held, as one block, and nothing free.
pair_held : Inv (covers 2 1) small [] ((2, 1) ∷ [])
unfolding covers
pair_held = record {
  listed = λ k _. tt;
  work = tt;
  held = (((omega arith, omega arith, (refl, tt), omega arith), cleared_page), tt);
  total = λ g. omega (arith, sum_orders-empty covers 19 small.order g (λ _. refl));
  once = λ g. ground arith;
  known = λ p _ _ f. let t : true ≡ false = sym f ∙ cleared_page in cc;
}

page_free_zone-Inv_example :
    (z' : Zone) × (page_free_zone small 2 1 ≡ ok z') × Inv (covers 2 1) z' [] []
page_free_zone-Inv_example = page_free_zone-Inv small 2 1 pair_held
