-- ===== src/PageTables/Sample.antt =====
-- Page tables for examples: the tables for the window of `kmap`.
use spbau_os_hw.Prelude.{
  ℕ, zero, suc, ◌+◌, ◌*◌, ◌/◌, ◌^◌, ◌<◌, ◌≡◌, refl, arith, ap, true, false, ◌&&◌, ◌==◌,
  if◌then◌else◌, List, [], ◌∷◌, ==_ne,
}
use native.Mathlib.Decide.{ℕ_discrete}
use spbau_os_hw.PageTables.{Tables, Paging}
use spbau_os_hw.PageTables.Translation.{Labels, AreLabelled}
use spbau_os_hw.PageTables.Prepared.{IsPrepared}
use spbau_os_hw.PageTables.Window.{IsWindow}

-- KMAP_BEGIN
abbrev pub window : ℕ
window = 0xffffffff00000000

-- Four tables, one of each level, for the pages from KMAP_BEGIN on.
abbrev pub four_tables : Tables
four_tables x i =
    if x == 0x1000 && i == 511
    then 0x2007
    else if x == 0x2000 && i == 508
    then 0x3007
    else if x == 0x3000 && i == 0
    then 0x4007
    else 0

abbrev pub four_labels : Labels
four_labels x =
    if x == 0x1000
    then (4, 0xffff)
    else if x == 0x2000
    then (3, window / 2 ^ 39)
    else if x == 0x3000
    then (2, window / 2 ^ 30)
    else if x == 0x4000
    then (1, window / 2 ^ 21)
    else (0, 0)

labels_equal :
    (m b l key i f : ℕ)
    → ◌≡◌ {A = ℕ × ℕ} (suc m, b) (suc (suc l), key)
    → f ≡ b * 512 + i
    → ◌≡◌ {A = ℕ × ℕ} (m, f) (suc l, key * 512 + i)
labels_equal m b l key i f h k =
    let level : m ≡ suc l = omega (arith, ap (λ (p : ℕ × ℕ). p.0) h) in
    let place : f ≡ key * 512 + i = omega (arith, k, ap (λ (p : ℕ × ℕ). p.1) h) in
    rw (level, place) refl

pub four_tables-AreLabelled : AreLabelled four_labels four_tables
four_tables-AreLabelled x l key i e k q r = elim (ℕ_discrete x 0x1000) [
  | yes u ↦ elim (ℕ_discrete i 511) [
    | yes v ↦ rw (u, v) (labels_equal 3 0xffff l key 511 (window / 2 ^ 39) (rw u at e) refl)
    | no v ↦ let none : false ≡ true = rw (u, ==_ne i 511 v) at q in cc
  ]
  | no u ↦ elim (ℕ_discrete x 0x2000) [
    | yes v ↦ elim (ℕ_discrete i 508) [
      | yes w ↦
          rw (v, w) (labels_equal 2 (window / 2 ^ 39) l key 508 (window / 2 ^ 30) (rw v at e) refl)
      | no w ↦ let none : false ≡ true = rw (v, ==_ne i 508 w) at q in cc
    ]
    | no v ↦ elim (ℕ_discrete x 0x3000) [
      | yes w ↦ elim (ℕ_discrete i 0) [
        | yes z ↦
            rw (w, z) (labels_equal 1 (window / 2 ^ 30) l key 0 (window / 2 ^ 21) (rw w at e) refl)
        | no z ↦ let none : false ≡ true = rw (w, ==_ne i 0 z) at q in cc
      ]
      | no w ↦
          let none : false ≡ true =
            rw (==_ne x 0x1000 u, ==_ne x 0x2000 v, ==_ne x 0x3000 w) at q in
          cc
    ]
  ]
]

abbrev pub four : Paging (List ℕ)
four = record { tables = four_tables; pool = [] }

-- The entries of the first two pages are free.
prepared : (i : ℕ) → i < 2 → IsPrepared four_tables 4 0x1000 (window + i * 4096)
prepared zero h = (
  record { table = refl; present = refl; no_leaf = refl },
  (
    record { table = refl; present = refl; no_leaf = refl },
    (record { table = refl; present = refl; no_leaf = refl }, refl),
  ),
)
prepared (suc zero) h = (
  record { table = refl; present = refl; no_leaf = refl },
  (
    record { table = refl; present = refl; no_leaf = refl },
    (record { table = refl; present = refl; no_leaf = refl }, refl),
  ),
)
prepared (suc (suc i)) h = absurd (omega (arith, h))

pub window-IsPrepared : IsPrepared four_tables 4 0x1000 window
window-IsPrepared = prepared 0 (omega arith)

pub four-IsWindow : IsWindow four_labels four_tables 0x1000 window (0xb000 ∷ 0xa000 ∷ [])
four-IsWindow = record {
  labelled = four_tables-AreLabelled;
  place = refl;
  pages = ((refl, omega arith), ((refl, omega arith), tt));
  prepared = prepared;
  begin_page = refl;
  top = omega arith;
  half = refl;
}
