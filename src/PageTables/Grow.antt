-- ===== src/PageTables/Grow.antt =====
-- A free entry gets a new table: src/src/paging.c.
use spbau_os_hw.Prelude.{
  ℕ, zero, suc, ◌+◌, ◌*◌, ◌/◌, ◌≤◌, ◌<◌, ◌≡◌, ◌≢◌, refl, sym, ◌∙◌, ap, subst, ◌⊎◌, inl, inr, arith,
  true, false, List, ◌∷◌, length, none, update, ==_ne, ==_refl, All-zip,
}
use spbau_os_hw.Prelude.Words.{word_or}
use native.Mathlib.Decide.{ℕ_discrete}
use spbau_os_hw.PageTables.{Tables, pml_offs, is_present, phys_of, set_entry, pde_flags}
use spbau_os_hw.PageTables.Cells.{cell, IsLevel, need}
use spbau_os_hw.PageTables.Translation.{AreLabelled, translate, is_leaf, translate-Agree}
use spbau_os_hw.PageTables.Sound.{IsPage, View, IsSound, Translates, Mapped, label_on, IsFor}
use spbau_os_hw.PageTables.Compose.{Mapped-descend}
use spbau_os_hw.PageTables.Entry.{
  or-page, phys_of-page, is_present-page, is_large-page, set_entry_here, set_entry_other,
  set_entry-cases, same_cell,
}

-- The entry of the cell of `begin` points to the new table `p` of the level below.
abbrev pub grown : (table l begin p : ℕ) → List ℕ → View → View
grown table l begin p ps v = record {
  label = update v.label p (suc l, cell (suc (suc l)) begin);
  tables =
      set_entry table (pml_offs begin (suc (suc l))) (word_or 64 p pde_flags)
        (update v.tables p (λ i. 0));
  free = ps;
}

-- An entry that points to a table.
pub record TableEntry (l p pte : ℕ) : Type 0 where
  pub table : phys_of pte ≡ p
  pub present : is_present pte ≡ true
  pub no_leaf : is_leaf (suc (suc l)) pte ≡ false

pub table_entry_lem : (l p : ℕ) → IsPage p → TableEntry l p (word_or 64 p pde_flags)
table_entry_lem l p (z, h, k) = rw (or-page p pde_flags h k (omega arith)) (record {
  table = phys_of-page p pde_flags h k (omega arith);
  present = is_present-page p pde_flags h ∙ refl;
  no_leaf = rw (is_large-page p pde_flags h) (ground arith);
})

pub translate_empty :
    (t : Tables) (level table a : ℕ) → ((i : ℕ) → t table i ≡ 0) → translate t level table a ≡ none
unfolding translate
translate_empty t zero table a h = refl
translate_empty t (suc l) table a h = rw (h (pml_offs a (suc l))) refl

-- Where an entry is free, or points to a table that is empty, nothing is translated.
translate_free :
    (t : Tables) (l table a : ℕ)
    → is_present (t table (pml_offs a (suc l))) ≡ false
    → translate t (suc l) table a ≡ none
unfolding translate
translate_free t l table a h = rw h refl

pub translate_table :
    (t : Tables) (l table a p pte : ℕ)
    → TableEntry l p pte
    → t table (pml_offs a (suc (suc l))) ≡ pte
    → translate t (suc (suc l)) table a ≡ translate t (suc l) p a
unfolding translate
translate_table t l table a p pte e h = rw (h, e.present, e.no_leaf, e.table) refl

module _ (table l begin p : ℕ) (ps : List ℕ) (v : View) (sound : IsSound v) (pool : v.free ≡ p ∷ ps)
    (place : v.label table ≡ (suc (suc l), cell (suc (suc l)) begin / 512))
    (free : is_present (v.tables table (pml_offs begin (suc (suc l)))) ≡ false) where
  page : IsPage p × ((v.label p).0 ≡ 0)
  page = let h = rw pool at sound.pages in h.0

  other : (x : ℕ) → (v.label x).0 ≢ 0 → x ≢ p
  other x d e = d (ap (λ y. (v.label y).0) e ∙ page.1)

  pub grown-kept : (x : ℕ) → (v.label x).0 ≢ 0 → (grown table l begin p ps v).label x ≡ v.label x
  grown-kept x d = rw (==_ne x p (other x d)) refl

  -- The entry of a table.
  grown_other :
      (x j : ℕ)
      → (v.label x).0 ≢ 0
      → ((x ≡ table) × (j ≡ pml_offs begin (suc (suc l))))
        ⊎ ((grown table l begin p ps v).tables x j ≡ v.tables x j)
  grown_other x j d =
      elim (set_entry-cases table (pml_offs begin (suc (suc l))) (word_or 64 p pde_flags)
        (update v.tables p (λ i. 0)) x j) [
          | inl h ↦ inl h
          | inr h ↦ inr (h ∙ rw (==_ne x p (other x d)) refl)
        ]

  above_zero : (v.label table).0 ≢ 0
  above_zero z = omega (arith, ap (λ (q : ℕ × ℕ). q.0) place, z)

  entry : TableEntry l p (word_or 64 p pde_flags)
  entry = table_entry_lem l p page.0

  empty : (i : ℕ) → (grown table l begin p ps v).tables p i ≡ 0
  empty i =
      set_entry_other table (pml_offs begin (suc (suc l))) (word_or 64 p pde_flags)
        (update v.tables p (λ i. 0)) p i (inl (λ e. other table above_zero (sym e)))
      ∙ rw (==_refl p) refl

  at_table :
      (a x l' : ℕ)
      → x ≡ table
      → pml_offs a (suc l') ≡ pml_offs begin (suc (suc l))
      → suc l' ≡ suc (suc l)
      → translate (grown table l begin p ps v).tables (suc l') x a ≡ translate v.tables (suc l') x a
  at_table a x l' d f e =
      let here : pml_offs a (suc (suc l)) ≡ pml_offs begin (suc (suc l)) =
        subst (λ k. pml_offs a k ≡ pml_offs begin (suc (suc l))) e f in
      let w = (grown table l begin p ps v).tables in
      let there : w table (pml_offs a (suc (suc l))) ≡ word_or 64 p pde_flags = rw here (
        set_entry_here table (pml_offs begin (suc (suc l))) (word_or 64 p pde_flags)
          (update v.tables p (λ i. 0))) in
      rw (d, e)
        (translate_table w l table a p (word_or 64 p pde_flags) entry there
          ∙ translate_empty w (suc l) p a empty
          ∙ sym (translate_free v.tables (suc l) table a (rw here free)))

  pub grown-same :
      (a level x : ℕ)
      → Translates v a level x
      → translate (grown table l begin p ps v).tables level x a ≡ translate v.tables level x a
  grown-same a level x t =
      translate-Agree v.label v.tables (grown table l begin p ps v).tables a sound.labelled
        (λ x l' g.
          elim (grown_other x (pml_offs a (suc l'))
            (λ z. omega (arith, ap (λ (q : ℕ × ℕ). q.0) g, z))) [
              | inr h ↦ inl h
              | inl (d, f) ↦ inr (
                  at_table a x l' d f
                    (same_cell v.label x table (suc l') (suc (suc l)) a begin g d place f).0)
            ])
        level x t.0 t.1

  grown-above :
      (x j : ℕ)
      → suc (suc l) < (v.label x).0
      → (grown table l begin p ps v).tables x j ≡ v.tables x j
  grown-above x j h = elim (grown_other x j (λ z. omega (arith, h, z))) [
    | inr e ↦ e
    | inl (d, f) ↦
        absurd (omega (arith, h, ap (λ y. (v.label y).0) d, ap (λ (q : ℕ × ℕ). q.0) place))
  ]

  grown-AreLabelled :
      AreLabelled (grown table l begin p ps v).label (grown table l begin p ps v).tables
  grown-AreLabelled x m key j g h q r = elim (ℕ_discrete x p) [
    | yes e ↦ let no : false ≡ true = rw (e, empty j) at q in cc
    | no n ↦
        let g' : v.label x ≡ (suc (suc m), key) = rw (==_ne x p n) at g in
        elim (grown_other x j (λ z. omega (arith, ap (λ (q : ℕ × ℕ). q.0) g', z))) [
          | inr e ↦
              let below = sound.labelled x m key j g' h (rw e at q) (rw e at r) in
              rw e (grown-kept _ (λ z. omega (arith, ap (λ (q : ℕ × ℕ). q.0) below, z)) ∙ below)
          | inl (d, f) ↦
              let both : (suc (suc m), key) ≡ (suc (suc l), cell (suc (suc l)) begin / 512) =
                sym g' ∙ ap v.label d ∙ place in
              let same_level : m ≡ l = omega (arith, ap (λ (q : ℕ × ℕ). q.0) both) in
              let same_key : cell (suc (suc l)) begin ≡ key * 512 + pml_offs begin (suc (suc l)) =
                omega (arith, ap (λ (q : ℕ × ℕ). q.1) both) in
              rw
                (
                  d,
                  f,
                  set_entry_here table (pml_offs begin (suc (suc l))) (word_or 64 p pde_flags)
                      (update v.tables p (λ i. 0)),
                  entry.table,
                  ==_refl p,
                  same_level,
                  ← same_key,
                )
                refl
        ]
  ]

  pub grown-Sound : IsSound (grown table l begin p ps v)
  grown-Sound =
      let pages = rw pool at sound.pages in
      let distinct = rw pool at sound.distinct in
      record {
        labelled = grown-AreLabelled;
        pages = All-zip (λ x a b. (a.0, rw (==_ne x p (λ e. b (sym e))) a.1)) ps pages.1 distinct.0;
        distinct = distinct.1;
      }

  -- Mapping the cell's range in the new table.
  pub grown-Mapped :
      (flags end phys : ℕ) (w : View)
      → IsLevel (suc (suc l))
      → IsFor v (suc (suc l)) table begin end
      → begin ≤ end
      → cell (suc (suc l)) begin ≡ cell (suc (suc l)) end
      → Mapped flags (suc l) p begin end phys (grown table l begin p ps v) w
      → Mapped flags (suc (suc l)) table begin end phys v w
  unfolding need
  grown-Mapped flags end phys w il for h c m =
      let g = grown table l begin p ps v in
      let here : g.tables table (pml_offs begin (suc (suc l))) ≡ word_or 64 p pde_flags =
        set_entry_here table (pml_offs begin (suc (suc l))) (word_or 64 p pde_flags)
          (update v.tables p (λ i. 0)) in
      let later : (a level x : ℕ) → Translates v a level x → Translates g a level x =
        λ a level x t. (t.0, grown-kept x (label_on v a level x t) ∙ t.1) in
      let d =
        Mapped-descend flags l table begin end phys g w il
          (λ a p q. later a (suc (suc l)) table (for a p q)) c (rw here entry.present)
          (rw here entry.no_leaf)
          (subst (λ x. Mapped flags (suc l) x begin end phys g w)
            (sym (ap phys_of here ∙ entry.table)) m) in
      record {
        sound = d.sound;
        kept = λ x n. d.kept x (rw (grown-kept x n) n) ∙ grown-kept x n;
        mapped = d.mapped;
        others = λ a level x t o. d.others a level x (later a level x t) o ∙ grown-same a level x t;
        above = λ x j n.
            d.above x j
              (omega (arith, n, ap (λ (q : ℕ × ℕ). q.0) (grown-kept x (λ z. omega (arith, n, z)))))
            ∙ grown-above x j n;
        used = let e = ap length pool in omega (arith, m.used, e);
      }
