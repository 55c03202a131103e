-- ===== src/PageTables/Tests.antt =====
-- The page tables on examples: the pool is a list of pages.
use spbau_os_hw.Prelude.{
  ℕ, zero, suc, ◌+◌, ◌-◌, ◌*◌, ◌/◌, ◌%◌, ap, length, true, false, Avoids, ==_ne, ◌^◌, ◌≤◌, ◌<◌, ◌≡◌,
  refl, arith, ◌⊎◌, List, [], ◌∷◌, none, some, All, Distinct, if◌then◌else◌, ◌==◌, ◌&&◌,
}
use spbau_os_hw.Prelude.Run.{ok}
use spbau_os_hw.PageTables.{
  Tables, Paging, Take, pt_map_pages, paging_setup, no_pool, slot, unmap_page, higher_base,
  virtual_base,
}
use spbau_os_hw.PageTables.Cells.{need}
use spbau_os_hw.PageTables.Translation.{Labels, translate}
use spbau_os_hw.PageTables.Sound.{Supply, view, IsSound, Sound, IsPage}
use spbau_os_hw.PageTables.Ready.{Ready}
use spbau_os_hw.PageTables.Grow.{translate_empty}
use spbau_os_hw.PageTables.Page.{kunmap-kmap}
use spbau_os_hw.PageTables.Sample.{
  window, four_tables, four_labels, four_tables-AreLabelled, four, window-IsPrepared,
}
use spbau_os_hw.PageTables.Ranges.{last_of, pt_map_pages_lem}
use spbau_os_hw.PageTables.Setup.{paging_setup_lem}

abbrev take_list : Take (List ℕ)
take_list [] = none
take_list (p ∷ ps) = some (p, ps)

abbrev lists : Supply take_list
lists = record { pages = λ ps. ps; take_page = gives_first }
  where
    gives_first :
        (s : List ℕ) (p : ℕ) (ps : List ℕ)
        → s ≡ p ∷ ps
        → (r : List ℕ) × (take_list s ≡ some (p, r)) × (r ≡ ps)
    gives_first s p ps e = (ps, rw e refl, refl)

-- `n` pages from the `k`th on.
unfoldable pages_from : (n k : ℕ) → List ℕ
pages_from zero k = []
pages_from (suc n) k = k * 4096 ∷ pages_from n (suc k)

length-pages_from : (n k : ℕ) → length (pages_from n k) ≡ n
unfolding pages_from
length-pages_from zero k = refl
length-pages_from (suc n) k = ap suc (length-pages_from n (suc k))

pages_from-IsPage : (n k : ℕ) → 1 ≤ k → k + n < 2 ^ 40 → All IsPage (pages_from n k)
unfolding pages_from
pages_from-IsPage zero k h m = tt
pages_from-IsPage (suc n) k h m = (
  ((λ z. omega (arith, h, z)), omega arith, omega (arith, m)),
  pages_from-IsPage n (suc k) (omega arith) (omega (arith, m)),
)

pages_from-Avoids : (n k a : ℕ) → a < k * 4096 → Avoids a (pages_from n k)
unfolding pages_from
pages_from-Avoids zero k a h = tt
pages_from-Avoids (suc n) k a h =
    ((λ e. omega (arith, h, e)), pages_from-Avoids n (suc k) a (omega (arith, h)))

pages_from-Distinct : (n k : ℕ) → Distinct (pages_from n k)
unfolding pages_from
pages_from-Distinct zero k = tt
pages_from-Distinct (suc n) k =
    (pages_from-Avoids n (suc k) (k * 4096) (omega arith), pages_from-Distinct n (suc k))

-- 2000 pages from the second on.
abbrev pool_pages : List ℕ
pool_pages = pages_from 2000 2

-- An empty table at 0x1000
abbrev one_table : Labels
one_table x = if x == 0x1000 then (4, 0xffff) else (0, 0)

abbrev no_entries : Tables
no_entries t i = 0

abbrev start_tables : Paging (List ℕ)
start_tables = record { tables = no_entries; pool = pool_pages }

beyond :
    (n k : ℕ)
    → 2 ≤ k
    → k + n < 2 ^ 40
    → All (λ p. IsPage p × ((one_table p).0 ≡ 0)) (pages_from n k)
unfolding pages_from
beyond zero k h m = tt
beyond (suc n) k h m = (
  (
    ((λ z. omega (arith, h, z)), omega arith, omega (arith, m)),
    rw (==_ne (k * 4096) 0x1000 (λ e. omega (arith, h, e))) refl,
  ),
  beyond n (suc k) (omega (arith, h)) (omega (arith, m)),
)

one_table-Sound : Sound one_table no_entries pool_pages
one_table-Sound = record {
  labelled = λ x l key i e k q r. let no : false ≡ true = q in cc;
  pages = beyond 2000 2 (omega arith) (omega arith);
  distinct = pages_from-Distinct 2000 2;
}

-- Three pages from VIRTUAL_BASE on.
three_pages-Ready :
    (phys : ℕ)
    → phys % 4096 ≡ 0
    → phys < 2 ^ 51
    → Ready 4 0x1000 virtual_base
        (last_of (virtual_base + 0x3000))
        phys
        (view lists one_table start_tables)
unfolding need
three_pages-Ready phys a l = record {
  is_level = (omega arith, omega arith);
  sound = one_table-Sound;
  place = refl;
  same_table = refl;
  ordered = omega arith;
  top = omega arith;
  begin_page = refl;
  end_page = refl;
  phys_page = a;
  phys_top = omega (arith, l);
  unmapped = λ a h k. translate_empty no_entries 4 0x1000 a (λ i. refl);
  enough = rw (length-pages_from 2000 2) (omega arith);
}

pt_map_pages_lem_example :
    (s : Paging (List ℕ)) × (after : Labels) × (pt_map_pages take_list 0x1000 virtual_base
        (virtual_base + 0x3000)
        0xa000
        2
        start_tables
      ≡ ok s)
    × IsSound (view lists after s)
    × ((a : ℕ)
        → virtual_base ≤ a
        → a ≤ last_of (virtual_base + 0x3000)
        → translate s.tables 4 0x1000 a ≡ some (0xa000 + (a - virtual_base)))
    × ((a : ℕ)
        → a / 2 ^ 48 ≡ virtual_base / 2 ^ 48
        → (a < virtual_base) ⊎ (last_of (virtual_base + 0x3000) < a)
        → translate s.tables 4 0x1000 a ≡ translate no_entries 4 0x1000 a)
pt_map_pages_lem_example =
    pt_map_pages_lem take_list lists 2 0x1000 virtual_base (virtual_base + 0x3000) 0xa000 one_table
      start_tables (omega arith) refl (three_pages-Ready 0xa000 refl (omega arith))

paging_setup_lem_example :
    (s : Paging (List ℕ)) × (paging_setup take_list 0x3456 start_tables ≡ ok (0x2000, s))
    × ((x : ℕ) → x < 0x3000 → translate s.tables 4 0x2000 (higher_base + x) ≡ some x)
    × ((x : ℕ) → x < 2 ^ 31 → translate s.tables 4 0x2000 (virtual_base + x) ≡ some x)
unfolding need pages_from
paging_setup_lem_example =
    paging_setup_lem take_list lists 0x3456 start_tables 0x2000 (pages_from 1999 3) refl
      (pages_from-IsPage 2000 2 (omega arith) (omega arith)) (pages_from-Distinct 2000 2)
      (omega arith) (rw (length-pages_from 1999 3) (omega arith))

kunmap-kmap_example :
    (s : Paging (List ℕ)) × (pt_map_pages no_pool 0x1000 window (window + 4096) 0xa000 2 four
      ≡ ok s)
    × (s.pool ≡ [])
    × ((x : ℕ)
        → window ≤ x
        → x < window + 4096
        → translate s.tables 4 0x1000 x ≡ some (0xa000 + (x - window)))
    × ((x : ℕ)
        → x / 2 ^ 48 ≡ window / 2 ^ 48
        → (x < window) ⊎ (window + 4096 ≤ x)
        → translate s.tables 4 0x1000 x ≡ translate four_tables 4 0x1000 x)
    × ((y i : ℕ)
        → unmap_page 0x1000 window s.tables y i
          ≡ (if y == 0x4000 && i == 0 then 0 else four_tables y i))
unfolding slot
kunmap-kmap_example =
    kunmap-kmap no_pool 2 0x1000 window 0xa000 four_labels four four_tables-AreLabelled refl
      window-IsPrepared refl refl (omega arith) refl (omega arith) (omega arith)
