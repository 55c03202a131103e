-- ===== src/PageTables/Entry.antt =====
-- A free entry of a table gets the address of memory, or a new table: src/src/paging.c.
use spbau_os_hw.Prelude.{
  ℕ, zero, suc, ◌+◌, ◌-◌, ◌*◌, ◌/◌, ◌%◌, ◌^◌, ◌≤◌, ◌<◌, ◌≡◌, ◌≢◌, refl, sym, ◌∙◌, ap, ◌⊎◌, inl, inr,
  arith, ◌==◌, true, false, ◌||◌, ==_ne, ==_refl, Bool-cases,
}
use spbau_os_hw.Prelude.Words.{word_or, word_or-add, word_or-on, word_or_zero}
use native.Mathlib.Decide.{ℕ_discrete}
use spbau_os_hw.PageTables.{
  Tables, pml_offs, pml_size, is_present, is_large, phys_of, has_large, leaf_entry, set_entry,
}
use spbau_os_hw.PageTables.Cells.{cell, IsLevel, whole_cell}
use spbau_os_hw.PageTables.Translation.{Labels, AreLabelled, translate, is_leaf, translate-Agree}
use spbau_os_hw.PageTables.Sound.{given, View, IsSound, Mapped, IsFor}

-- Flags lie below an address of a page.
pub or-page :
    (p flags : ℕ) → p % 4096 ≡ 0 → p < 2 ^ 52 → flags < 4096 → word_or 64 p flags ≡ p + flags
or-page p flags h k m =
    let e : p ≡ p / 2 ^ 12 * 2 ^ 12 = omega (arith, h) in
    let r = word_or-add 64 12 (p / 2 ^ 12) flags m (omega (arith, k)) (omega (arith, m)) in
    (rw (← e) at r)

has_large-cases :
    (level flags : ℕ) → has_large level flags ≡ true → (is_large flags ≡ true) × (level < 4)
has_large-cases level flags h = (ground (arith, h), ground (arith, h))

leaf_entry-add :
    (level phys flags : ℕ)
    → phys % 4096 ≡ 0
    → phys < 2 ^ 52
    → flags < 4096
    → leaf_entry level phys flags ≡ phys + flags
leaf_entry-add level phys flags h k m = elim (Bool-cases (has_large level flags)) [
  | inl c ↦
      let on : is_large flags ≡ true = (has_large-cases level flags c).0 in
      let o : (phys + flags) / 2 ^ 7 % 2 ≡ 1 = ground (arith, h, on) in
      rw (or-page phys flags h k m, c) (word_or-on 64 7 (phys + flags) (omega (arith, k, m)) o)
  | inr c ↦ rw (or-page phys flags h k m, c) (word_or_zero 64 (phys + flags) (omega (arith, k, m)))
]

pub phys_of-page :
    (p flags : ℕ) → p % 4096 ≡ 0 → p < 2 ^ 52 → flags < 4096 → phys_of (p + flags) ≡ p
phys_of-page p flags h k m = omega (arith, h, k, m)

-- The flags of an entry.
pub is_present-page : (p flags : ℕ) → p % 4096 ≡ 0 → is_present (p + flags) ≡ is_present flags
is_present-page p flags h = ground (arith, h)

pub is_large-page : (p flags : ℕ) → p % 4096 ≡ 0 → is_large (p + flags) ≡ is_large flags
is_large-page p flags h = ground (arith, h)

-- What an entry for memory is.
record LeafEntry (level phys flags pte : ℕ) : Type 0 where
  pub frame : phys_of pte ≡ phys
  pub present : is_present pte ≡ is_present flags
  pub leaf : is_leaf level pte ≡ true

leaf_entry_lem :
    (level phys flags : ℕ)
    → (has_large level flags || (level == 1)) ≡ true
    → phys % 4096 ≡ 0
    → phys < 2 ^ 52
    → flags < 4096
    → LeafEntry level phys flags (leaf_entry level phys flags)
leaf_entry_lem level phys flags c h k m = rw (leaf_entry-add level phys flags h k m) (record {
  frame = phys_of-page phys flags h k m;
  present = is_present-page phys flags h;
  leaf = rw (is_large-page phys flags h) (ground (arith, c));
})

pub set_entry_here :
    (table index pte : ℕ) (t : Tables) → set_entry table index pte t table index ≡ pte
set_entry_here table index pte t = rw (==_refl table, ==_refl index) refl

pub set_entry_other :
    (table index pte : ℕ) (t : Tables) (x j : ℕ)
    → (x ≢ table) ⊎ (j ≢ index)
    → set_entry table index pte t x j ≡ t x j
set_entry_other table index pte t x j (inl d) = rw (==_ne x table d) refl
set_entry_other table index pte t x j (inr d) = elim (ℕ_discrete x table) [
  | yes e ↦ rw (e, ==_refl table, ==_ne j index d) refl
  | no n ↦ rw (==_ne x table n) refl
]

-- The entry of a table, or another.
pub set_entry-cases :
    (table index pte : ℕ) (t : Tables) (x j : ℕ)
    → ((x ≡ table) × (j ≡ index)) ⊎ (set_entry table index pte t x j ≡ t x j)
set_entry-cases table index pte t x j = elim (ℕ_discrete x table) [
  | no n ↦ inr (set_entry_other table index pte t x j (inl n))
  | yes e ↦ elim (ℕ_discrete j index) [
    | yes f ↦ inl (e, f)
    | no n ↦ inr (set_entry_other table index pte t x j (inr n))
  ]
]

leaf-AreLabelled :
    (label : Labels) (t : Tables) (level table index pte key : ℕ)
    → label table ≡ (level, key)
    → is_leaf level pte ≡ true
    → AreLabelled label t
    → AreLabelled label (set_entry table index pte t)
leaf-AreLabelled label t level table index pte key e f w x l k j g h p q =
    elim (set_entry-cases table index pte t x j) [
      | inr u ↦ rw u (w x l k j g h (rw u at p) (rw u at q))
      | inl (a, b) ↦
          let same : suc (suc l) ≡ level = ap (λ (p : ℕ × ℕ). p.0) (sym g ∙ ap label a ∙ e) in
          let here : set_entry table index pte t x j ≡ pte =
            rw (a, b) (set_entry_here table index pte t) in
          let clash : true ≡ false = rw (here, same, f) at q in cc
    ]

equal_parts : {a b : ℕ} → a / 512 ≡ b / 512 → a % 512 ≡ b % 512 → a ≡ b
equal_parts h k = omega (arith, h, k)

-- A table has one place: an address that meets the same entry is in the same cell.
pub same_cell :
    (label : Labels) (x table l level a begin : ℕ)
    → label x ≡ (l, cell l a / 512)
    → x ≡ table
    → label table ≡ (level, cell level begin / 512)
    → pml_offs a l ≡ pml_offs begin level
    → (l ≡ level) × (cell level a ≡ cell level begin)
same_cell label x table l level a begin g d m f =
    let both : (l, cell l a / 512) ≡ (level, cell level begin / 512) = sym g ∙ ap label d ∙ m in
    let levels : l ≡ level = ap (λ (p : ℕ × ℕ). p.0) both in
    let keys : cell level a / 512 ≡ cell level begin / 512 =
      rw levels at (ap (λ (p : ℕ × ℕ). p.1) both) in
    let rests : cell level a % 512 ≡ cell level begin % 512 = rw levels at f in
    let cells : cell level a ≡ cell level begin = equal_parts keys rests in (levels, cells)

leaf-translate :
    (level table begin a phys flags pte : ℕ) (t : Tables)
    → IsLevel level
    → LeafEntry level phys flags pte
    → phys / pml_size level * pml_size level ≡ phys
    → cell level a ≡ cell level begin
    → a % pml_size level ≡ a - begin
    → translate (set_entry table (pml_offs begin level) pte t) level table a
      ≡ given flags (phys + (a - begin))
unfolding translate
leaf-translate zero table begin a phys flags pte t (h, k) e r c o = absurd (omega (arith, h))
leaf-translate (suc l) table begin a phys flags pte t il e r c o =
    rw (c, set_entry_here table (pml_offs begin (suc l)) pte t, e.present, e.leaf, e.frame, r, o)
      refl

-- The entry of the cell of `begin` maps the cell.
pub leaf-Mapped :
    (flags level table begin last phys : ℕ) (v : View)
    → IsSound v
    → IsLevel level
    → IsFor v level table begin last
    → begin ≤ last
    → last < 2 ^ 64
    → (last + 2 ^ 64 - begin + 1) % 2 ^ 64 ≡ pml_size level
    → begin % pml_size level ≡ 0
    → phys % pml_size level ≡ 0
    → phys < 2 ^ 52
    → flags < 4096
    → (has_large level flags || (level == 1)) ≡ true
    → Mapped flags level table begin last phys v (record v {
      tables = set_entry table (pml_offs begin level) (leaf_entry level phys flags) v.tables;
    })
leaf-Mapped flags level table begin last phys v s il for h k z b p q m c =
    let i = pml_offs begin level in
    let pte = leaf_entry level phys flags in
    let facts = λ (a : ℕ). whole_cell level il begin last a phys z h k b p in
    let (_, _, _, _, rounded, page) = facts begin in
    let e = leaf_entry_lem level phys flags c page q m in
    let mine = for begin (omega arith) h in
    let w = set_entry table i pte v.tables in
    record {
      sound = record {
        labelled =
            leaf-AreLabelled v.label v.tables level table i pte (cell level begin / 512) mine.1
              e.leaf s.labelled;
        pages = s.pages;
        distinct = s.distinct;
      };
      kept = λ x d. refl;
      mapped = λ a g l.
          let (_, _, inside, offset, _, _) = facts a in
          leaf-translate level table begin a phys flags pte v.tables il e rounded (inside g l)
            (offset g l);
      others = λ a l x t o.
          translate-Agree v.label v.tables w a s.labelled
            (λ x l g. elim (set_entry-cases table i pte v.tables x (pml_offs a (suc l))) [
              | inr u ↦ inl u
              | inl (d, f) ↦
                  let in_cell = (same_cell v.label x table (suc l) level a begin g d mine.1 f).1 in
                  absurd (
                    let (low, high, _, _, _, _) = facts a in
                    elim o [
                      | inl u ↦ omega (arith, u, low in_cell)
                      | inr u ↦ omega (arith, u, high in_cell)
                    ])
            ])
            l x t.0 t.1;
      above = λ x j g. set_entry_other table i pte v.tables x j (
          inl (λ eq. omega (arith, g, ap (λ y. (v.label y).0) eq, ap (λ (p : ℕ × ℕ). p.0) mine.1)));
      used = omega arith;
    }
