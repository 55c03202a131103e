-- ===== src/PageTables/Prepared.antt =====
-- The entry of a page whose tables are there: src/src/paging.c.
use spbau_os_hw.Prelude.{
  ℕ, zero, suc, ◌+◌, ◌-◌, ◌/◌, ◌%◌, ◌^◌, ◌<◌, ◌≡◌, ◌≢◌, refl, sym, ◌∙◌, ap, inl, inr, arith, false,
  ltb, List, [],
}
use spbau_os_hw.Prelude.Run.{ok}
use spbau_os_hw.PageTables.{
  Tables, Paging, Take, is_present, phys_of, pml_offs, map_end, map_level, map_loop, map_entry,
  leaf_entry, set_entry, set_pte, slot,
}
use spbau_os_hw.PageTables.Cells.{cell, IsLevel, Round, round, cell_page, cell_le}
use spbau_os_hw.PageTables.Translation.{Labels, AreLabelled, lower, label_below}
use spbau_os_hw.PageTables.Sound.{Mapped, IsFor}
use spbau_os_hw.PageTables.Compose.{Mapped-descend}
use spbau_os_hw.PageTables.Entry.{leaf-Mapped, same_cell, set_entry_other, set_entry-cases}
use spbau_os_hw.PageTables.Grow.{TableEntry}
use spbau_os_hw.PageTables.Whole.{whole_page, no_last}

-- The entries lead to a table of the last level, where the entry is free.
abbrev pub IsPrepared : (t : Tables) (level table addr : ℕ) → Type 0
IsPrepared t zero table addr = Unit
IsPrepared t (suc zero) table addr = is_present (t table (pml_offs addr 1)) ≡ false
IsPrepared t (suc (suc l)) table addr =
    let pte = t table (pml_offs addr (suc (suc l))) in
    TableEntry l (phys_of pte) pte × IsPrepared t (suc l) (phys_of pte) addr

-- The entries lead to a table of the last level.
abbrev pub IsWalked : (t : Tables) (level table addr : ℕ) → Type 0
IsWalked t zero table addr = Unit
IsWalked t (suc zero) table addr = Unit
IsWalked t (suc (suc l)) table addr =
    let pte = t table (pml_offs addr (suc (suc l))) in
    TableEntry l (phys_of pte) pte × IsWalked t (suc l) (phys_of pte) addr

pub IsPrepared-IsWalked :
    (t : Tables) (level table addr : ℕ)
    → IsPrepared t level table addr
    → IsWalked t level table addr
IsPrepared-IsWalked t zero table addr r = tt
IsPrepared-IsWalked t (suc zero) table addr r = tt
IsPrepared-IsWalked t (suc (suc l)) table addr r =
    (r.0, IsPrepared-IsWalked t (suc l) (phys_of (t table (pml_offs addr (suc (suc l))))) addr r.1)

-- The range of the page is one round of each loop.
one_round :
    (level : ℕ)
    → IsLevel level
    → (a : ℕ) → a % 4096 ≡ 0
    → a + 4095 < 2 ^ 64
    → map_end level a (a + 4095) ≡ a + 4095
one_round level il a h k =
    let d : Round level a (a + 4095) (map_end level a (a + 4095)) =
      round level il a (a + 4095) (omega arith) k in
    elim d.progress [
      | inl (c, e) ↦ e
      | inr (c, g, next, z) ↦ absurd (omega (arith, c, cell_page level il a h))
    ]

one_entry :
    (level : ℕ)
    → IsLevel level
    → (a : ℕ) → a % 4096 ≡ 0
    → suc (pml_offs (a + 4095) level) - pml_offs a level ≡ 1
one_entry level il a h = omega (arith, cell_page level il a h)

page-IsFor :
    (level table a : ℕ) (label : Labels) (t : Tables) (free : List ℕ)
    → IsLevel level
    → label table ≡ (level, cell level a / 512)
    → a % 4096 ≡ 0
    → IsFor (record { label = label; tables = t; free = free }) level table a (a + 4095)
page-IsFor level table a label t free il e h x u v =
    let same : cell level a ≡ cell level x =
      omega
        (arith, cell_le level il a x u, cell_le level il x (a + 4095) v, cell_page level il a h) in
    (il, e ∙ ap (λ c. (level, c / 512)) same)

pub map_level-page {ℓ} :
    {S : Type ℓ} (take : Take S) (flags level table a phys : ℕ) (st : Paging S)
    → IsLevel level
    → a % 4096 ≡ 0
    → a + 4095 < 2 ^ 64
    → phys % 4096 ≡ 0
    → IsPrepared st.tables level table a
    → let s = slot st.tables level table a in
      map_level take flags level table a (a + 4095) phys st
      ≡ ok (set_pte s.0 s.1 (leaf_entry 1 phys flags) st)
unfolding map_level map_loop map_entry slot
map_level-page take flags zero table a phys st il h k p r = absurd (omega (arith, il.0))
map_level-page take flags (suc zero) table a phys st il h k p r =
    let w =
      whole_page a (a + 4095) (a + 4095) phys flags (one_round 1 il a h k) (omega arith) k
        (cell_page 1 il a h) h (omega (arith, h)) p in
    rw (one_entry 1 il a h, r, w) refl
map_level-page take flags (suc (suc l)) table a phys st il h k p r =
    let low : ltb 4 (suc (suc l)) ≡ false = ground (arith, il.1) in
    rw
      (
        low,
        one_entry (suc (suc l)) il a h,
        (r.0).present,
        no_last l,
        one_round (suc (suc l)) il a h k,
      )
      (rw
        (map_level-page take flags (suc l) (phys_of (st.tables table (pml_offs a (suc (suc l))))) a
          phys st (lower il) h k p r.1)
        refl)

-- What the entry of the slot then maps.
pub slot-Mapped :
    (flags level table a phys : ℕ) (label : Labels) (t : Tables)
    → IsLevel level
    → AreLabelled label t
    → label table ≡ (level, cell level a / 512)
    → a % 4096 ≡ 0
    → a + 4095 < 2 ^ 64
    → phys % 4096 ≡ 0
    → phys < 2 ^ 52
    → flags < 4096
    → IsWalked t level table a
    → let s = slot t level table a in
      Mapped flags level table a
        (a + 4095)
        phys
        (record { label = label; tables = t; free = [] })
        (record {
          label = label;
          tables = set_entry s.0 s.1 (leaf_entry 1 phys flags) t;
          free = [];
        })
unfolding slot
slot-Mapped flags zero table a phys label t il w e h k p q m r = absurd (omega (arith, il.0))
slot-Mapped flags (suc zero) table a phys label t il w e h k p q m r =
    leaf-Mapped flags 1 table a (a + 4095) phys (record { label = label; tables = t; free = [] })
      (record { labelled = w; pages = tt; distinct = tt }) il
      (page-IsFor 1 table a label t [] il e h) (omega arith) k (omega (arith, k)) h p q m
      (ground arith)
slot-Mapped flags (suc (suc l)) table a phys label t il w e h k p q m r =
    let pte = t table (pml_offs a (suc (suc l))) in
    let s = slot t (suc l) (phys_of pte) a in
    Mapped-descend flags l table a (a + 4095) phys (record { label = label; tables = t; free = [] })
      (record { label = label; tables = set_entry s.0 s.1 (leaf_entry 1 phys flags) t; free = [] })
      il (page-IsFor (suc (suc l)) table a label t [] il e h) (sym (cell_page (suc (suc l)) il a h))
      (r.0).present (r.0).no_leaf
      (slot-Mapped flags (suc l) (phys_of pte) a phys label t (lower il) w
        (label_below label t l table a il w e (r.0).present (r.0).no_leaf) h k p q m r.1)

-- The table of the slot is the one of the last level.
pub slot-label :
    (level table a : ℕ) (label : Labels) (t : Tables)
    → IsLevel level
    → AreLabelled label t
    → label table ≡ (level, cell level a / 512)
    → IsWalked t level table a
    → (label (slot t level table a).0 ≡ (1, cell 1 a / 512))
      × ((slot t level table a).1 ≡ pml_offs a 1)
unfolding slot
slot-label zero table a label t il w e r = absurd (omega (arith, il.0))
slot-label (suc zero) table a label t il w e r = (e, refl)
slot-label (suc (suc l)) table a label t il w e r =
    slot-label (suc l) (phys_of (t table (pml_offs a (suc (suc l))))) a label t (lower il) w
      (label_below label t l table a il w e (r.0).present (r.0).no_leaf) r.1

-- An entry of a table of the last level does not move a slot.
pub slot-set_entry :
    (level table a x j pte : ℕ) (label : Labels) (t : Tables)
    → IsLevel level
    → AreLabelled label t
    → label table ≡ (level, cell level a / 512)
    → IsWalked t level table a
    → (label x).0 ≡ 1
    → slot (set_entry x j pte t) level table a ≡ slot t level table a
unfolding slot
slot-set_entry zero table a x j pte label t il w e r o = refl
slot-set_entry (suc zero) table a x j pte label t il w e r o = refl
slot-set_entry (suc (suc l)) table a x j pte label t il w e r o =
    let i = pml_offs a (suc (suc l)) in
    let same : set_entry x j pte t table i ≡ t table i =
      set_entry_other x j pte t table i
        (inl (λ d. omega (arith, o, ap (λ y. (label y).0) d, ap (λ (p : ℕ × ℕ). p.0) e))) in
    rw same (
      slot-set_entry (suc l) (phys_of (t table i)) a x j pte label t (lower il) w
        (label_below label t l table a il w e (r.0).present (r.0).no_leaf) r.1 o)

-- Nor does it change that the entries lead to a table of the last level.
pub IsWalked-set_entry :
    (level table b x j pte : ℕ) (label : Labels) (t : Tables)
    → IsLevel level
    → AreLabelled label t
    → label table ≡ (level, cell level b / 512)
    → IsWalked t level table b
    → (label x).0 ≡ 1
    → IsWalked (set_entry x j pte t) level table b
IsWalked-set_entry zero table b x j pte label t il w e r o = tt
IsWalked-set_entry (suc zero) table b x j pte label t il w e r o = tt
IsWalked-set_entry (suc (suc l)) table b x j pte label t il w e r o =
    let i = pml_offs b (suc (suc l)) in
    let same : set_entry x j pte t table i ≡ t table i =
      set_entry_other x j pte t table i
        (inl (λ u. omega (arith, o, ap (λ y. (label y).0) u, ap (λ (p : ℕ × ℕ). p.0) e))) in
    rw same (
      r.0,
      IsWalked-set_entry (suc l) (phys_of (t table i)) b x j pte label t (lower il) w
          (label_below label t l table b il w e (r.0).present (r.0).no_leaf) r.1 o,
    )

-- Nor does it change what is prepared for an address in another cell.
pub IsPrepared-set_entry :
    (level table a b x j pte : ℕ) (label : Labels) (t : Tables)
    → IsLevel level
    → AreLabelled label t
    → label table ≡ (level, cell level b / 512)
    → IsPrepared t level table b
    → label x ≡ (1, cell 1 a / 512)
    → j ≡ pml_offs a 1
    → cell 1 b ≢ cell 1 a
    → IsPrepared (set_entry x j pte t) level table b
IsPrepared-set_entry zero table a b x j pte label t il w e r o k d = tt
IsPrepared-set_entry (suc zero) table a b x j pte label t il w e r o k d =
    elim (set_entry-cases x j pte t table (pml_offs b 1)) [
      | inr u ↦ rw u r
      | inl (u, v) ↦ absurd (d (same_cell label table x 1 1 b a e u o (v ∙ k)).1)
    ]
IsPrepared-set_entry (suc (suc l)) table a b x j pte label t il w e r o k d =
    let i = pml_offs b (suc (suc l)) in
    let same : set_entry x j pte t table i ≡ t table i = set_entry_other x j pte t table i (
      inl (λ u.
        omega (
          arith,
          ap (λ (p : ℕ × ℕ). p.0) o,
          ap (λ y. (label y).0) u,
          ap (λ (p : ℕ × ℕ). p.0) e,
        ))) in
    rw same (
      r.0,
      IsPrepared-set_entry (suc l) (phys_of (t table i)) a b x j pte label t (lower il) w
          (label_below label t l table b il w e (r.0).present (r.0).no_leaf) r.1 o k d,
    )
