-- ===== src/PageTables/Page.antt =====
-- `kmap` and `kunmap` of src/src/paging.c on one page, whose tables are there.
use spbau_os_hw.Prelude.{
  ℕ, ◌+◌, ◌-◌, ◌/◌, ◌%◌, ◌^◌, ◌≤◌, ◌<◌, ◌≡◌, refl, ◌∙◌, ap, ◌⊎◌, arith, ◌==◌, ◌&&◌, if◌then◌else◌,
  some, ==_ne, ==_refl,
}
use native.Mathlib.Decide.{ℕ_discrete}
use spbau_os_hw.Prelude.Run.{ok}
use spbau_os_hw.PageTables.{
  Tables, Paging, Take, phys_of, leaf_entry, set_entry, set_pte, slot, unmap_page, pt_map_pages,
}
use spbau_os_hw.PageTables.Cells.{cell, IsLevel}
use spbau_os_hw.PageTables.Translation.{Labels, AreLabelled, translate}
use spbau_os_hw.PageTables.Ranges.{map_flags, map_flags_small, map_flags_present}
use spbau_os_hw.PageTables.Prepared.{
  IsPrepared, IsPrepared-IsWalked, map_level-page, slot-Mapped, slot-label, slot-set_entry,
}

cleared_again :
    (x j pte : ℕ) (t : Tables) (y i : ℕ)
    → set_entry x j 0 (set_entry x j pte t) y i ≡ (if y == x && i == j then 0 else t y i)
cleared_again x j pte t y i = elim (ℕ_discrete y x) [
  | no n ↦ rw (==_ne y x n) refl
  | yes e ↦ elim (ℕ_discrete i j) [
    | yes f ↦ rw (e, f, ==_refl x, ==_refl j) refl
    | no n ↦ rw (e, ==_refl x, ==_ne i j n) refl
  ]
]

pub pt_map_pages-page {ℓ} :
    {S : Type ℓ} (take : Take S) (flags pml4 a phys : ℕ) (st : Paging S)
    → IsPrepared st.tables 4 pml4 a
    → a % 4096 ≡ 0
    → a + 4095 < 2 ^ 64
    → phys % 4096 ≡ 0
    → let place = slot st.tables 4 pml4 a in
      pt_map_pages take pml4 a ((a + 4096) % 2 ^ 64) phys flags st
      ≡ ok (set_pte place.0 place.1 (leaf_entry 1 phys (map_flags flags)) st)
unfolding pt_map_pages
pt_map_pages-page take flags pml4 a phys st r h k p =
    let end_page : (a + 4096) % 2 ^ 64 % 4096 ≡ 0 = omega (arith, h) in
    let last : ((a + 4096) % 2 ^ 64 + (2 ^ 64 - 1)) % 2 ^ 64 ≡ a + 4095 = omega (arith, k) in
    rw (h, end_page, last)
      (map_level-page take (map_flags flags) 4 pml4 a phys st (omega arith, omega arith) h k p r)

-- `pt_map_pages` of a page whose tables are there, and whose entry is free, takes no page from the
-- pool. The page is translated to `phys` then, and every other address of the half as before; and
-- `kunmap` of the page leaves each entry as it was, but for that of the page, which it clears.
pub kunmap-kmap {ℓ} :
    {S : Type ℓ} (take : Take S) (flags pml4 a phys : ℕ) (label : Labels) (st : Paging S)
    → AreLabelled label st.tables
    → label pml4 ≡ (4, cell 4 a / 512)
    → IsPrepared st.tables 4 pml4 a
    → phys_of pml4 ≡ pml4
    → a % 4096 ≡ 0
    → a + 4095 < 2 ^ 64
    → phys % 4096 ≡ 0
    → phys < 2 ^ 52
    → flags < 4096
    → let place = slot st.tables 4 pml4 a in
      (s : Paging S) × (pt_map_pages take pml4 a ((a + 4096) % 2 ^ 64) phys flags st ≡ ok s)
      × (s.pool ≡ st.pool)
      × ((x : ℕ) → a ≤ x → x < a + 4096 → translate s.tables 4 pml4 x ≡ some (phys + (x - a)))
      × ((x : ℕ)
          → x / 2 ^ 48 ≡ a / 2 ^ 48
          → (x < a) ⊎ (a + 4096 ≤ x)
          → translate s.tables 4 pml4 x ≡ translate st.tables 4 pml4 x)
      × ((y i : ℕ)
          → unmap_page pml4 a s.tables y i
            ≡ (if y == place.0 && i == place.1 then 0 else st.tables y i))
unfolding unmap_page
kunmap-kmap take flags pml4 a phys label st w e r root h k p q m =
    let il : IsLevel 4 = (omega arith, omega arith) in
    let walked = IsPrepared-IsWalked st.tables 4 pml4 a r in
    let place = slot st.tables 4 pml4 a in
    let pte = leaf_entry 1 phys (map_flags flags) in
    let map =
      slot-Mapped (map_flags flags) 4 pml4 a phys label st.tables il w e h k p q
        (map_flags_small flags m) walked in
    let still =
      slot-set_entry 4 pml4 a place.0 place.1 pte label st.tables il w e walked
        (ap (λ (p : ℕ × ℕ). p.0) (slot-label 4 pml4 a label st.tables il w e walked).0) in
    (
      set_pte place.0 place.1 pte st,
      pt_map_pages-page take flags pml4 a phys st r h k p,
      refl,
      (λ x u v. map.mapped x u (omega (arith, v)) ∙ rw (map_flags_present flags) refl),
      (λ x u v.
          let half : cell 4 a / 512 ≡ cell 4 x / 512 = omega (arith, u) in
          map.others x 4 pml4 (il, e ∙ ap (λ c. (4, c)) half) (omega (arith, v))),
      (λ y i. rw (root, still) (cleared_again place.0 place.1 pte st.tables y i)),
    )
