-- ===== src/PageTables/Sound.antt =====
-- The invariant of the page tables of src/src/paging.c, and what mapping a range does to them.
use spbau_os_hw.Prelude.{
  ℕ, ◌+◌, ◌-◌, ◌/◌, ◌%◌, ◌^◌, ◌≤◌, ◌<◌, ◌≡◌, ◌≢◌, ap, ◌⊎◌, arith, if◌then◌else◌, List, ◌∷◌, length,
  Option, none, some, All, Distinct,
}
use spbau_os_hw.PageTables.{Tables, Paging, Take, is_present}
use spbau_os_hw.PageTables.Cells.{cell, IsLevel, need}
use spbau_os_hw.PageTables.Translation.{Labels, AreLabelled, translate}

-- What an allocator of pages promises: it gives the pages of a list, the first one first.
pub record Supply {ℓ} {S : Type ℓ} (take : Take S) : Type ℓ where
  pub pages : S → List ℕ
  pub take_page :
      (s : S) (p : ℕ) (ps : List ℕ)
      → pages s ≡ p ∷ ps
      → (r : S) × (take s ≡ some (p, r)) × (pages r ≡ ps)

-- An address of a page that PTE_PHYS_MASK leaves as it is, and that is not 0.
abbrev pub IsPage : ℕ → Type 0
IsPage p = (p ≢ 0) × (p % 4096 ≡ 0) × (p < 2 ^ 52)

-- Every table has one place, and no page that the pool will give is a table.
pub record Sound (label : Labels) (t : Tables) (free : List ℕ) : Type 0 where
  pub labelled : AreLabelled label t
  pub pages : All (λ p. IsPage p × ((label p).0 ≡ 0)) free
  pub distinct : Distinct free

-- The translation to `a`, if the flags have __PTE_PRESENT.
abbrev pub given : (flags a : ℕ) → Option ℕ
given flags a = if is_present flags then some a else none

-- Tables with their labels, and the pages that are left.
pub record View : Type 0 where
  pub label : Labels
  pub tables : Tables
  pub free : List ℕ

abbrev pub IsSound : View → Type 0
IsSound v = Sound v.label v.tables v.free

-- The tables that translate `a`, and are in `v`.
abbrev pub Translates : View → (a level table : ℕ) → Type 0
Translates v a level table = IsLevel level × (v.label table ≡ (level, cell level a / 512))

-- A range is mapped in a table: `v` before, and `w` after it.
pub record Mapped (flags level table begin end phys : ℕ) (v w : View) : Type 0 where
  pub sound : IsSound w
  pub kept : (x : ℕ) → (v.label x).0 ≢ 0 → w.label x ≡ v.label x
  pub mapped :
      (a : ℕ)
      → begin ≤ a
      → a ≤ end
      → translate w.tables level table a ≡ given flags (phys + (a - begin))
  pub others :
      (a l x : ℕ)
      → Translates v a l x
      → (a < begin) ⊎ (end < a)
      → translate w.tables l x a ≡ translate v.tables l x a
  pub above : (x index : ℕ) → level < (v.label x).0 → w.tables x index ≡ v.tables x index
  pub used : length v.free ≤ length w.free + need level begin end

pub label_on : (v : View) (a l x : ℕ) → Translates v a l x → (v.label x).0 ≢ 0
label_on v a l x ((h, k), e) z = omega (arith, h, ap (λ (p : ℕ × ℕ). p.0) e, z)

-- The table is the one of its level for each address of the range.
abbrev pub IsFor : View → (level table begin end : ℕ) → Type 0
IsFor v level table begin end = (a : ℕ) → begin ≤ a → a ≤ end → Translates v a level table

abbrev pub view {ℓ} : {S : Type ℓ} {take : Take S} → Supply take → Labels → Paging S → View
view supply label st = record { label = label; tables = st.tables; free = supply.pages st.pool }
