-- ===== src/PageTables/Compose.antt =====
-- Mappings one after the other, and one in the table that an entry points to: the steps of
-- `__pt_map_pages` of src/src/paging.c.
use spbau_os_hw.Prelude.{
  ℕ, suc, ◌+◌, ◌-◌, ◌%◌, ◌≤◌, ◌<◌, ◌≡◌, ◌≢◌, sym, ◌∙◌, ap, inl, arith, true, false,
}
use native.Mathlib.Decide.{dec_lt}
use spbau_os_hw.PageTables.{pml_offs, pml_size, is_present, phys_of}
use spbau_os_hw.PageTables.Cells.{cell, IsLevel, need, need-split, cell_le}
use spbau_os_hw.PageTables.Translation.{translate, is_leaf}
use spbau_os_hw.PageTables.Sound.{given, View, Translates, Mapped, label_on, IsFor}

-- Two ranges in turn.
pub Mapped-Mapped :
    (flags level table begin last end phys next : ℕ) (v w u : View)
    → IsLevel level
    → IsFor v level table begin end
    → begin ≤ last
    → last < end
    → suc last % pml_size level ≡ 0
    → next ≡ phys + (suc last - begin)
    → Mapped flags level table begin last phys v w
    → Mapped flags level table (suc last) end next w u
    → Mapped flags level table begin end phys v u
Mapped-Mapped flags level table begin last end phys next v w u il for h k z n m r =
    let later : (a l x : ℕ) → Translates v a l x → Translates w a l x =
      λ a l x t. (t.0, m.kept x (label_on v a l x t) ∙ t.1) in
    record {
      sound = r.sound;
      kept = λ x d. r.kept x (λ e. d (ap (λ (p : ℕ × ℕ). p.0) (sym (m.kept x d)) ∙ e)) ∙ m.kept x d;
      mapped = λ a p q. elim (dec_lt last a) [
        | yes g ↦ r.mapped a g q ∙ ap (given flags) (omega (arith, n, h, g))
        | no g ↦
            r.others a level table (later a level table (for a p q)) (inl (omega arith))
            ∙ m.mapped a p (omega arith)
      ];
      others = λ a l x t o.
          r.others a l x (later a l x t) (omega (arith, o, h, k))
          ∙ m.others a l x t (omega (arith, o, h, k));
      above = λ x i g.
          let d : (v.label x).0 ≢ 0 = omega (arith, g) in
          r.above x i (rw (m.kept x d) g) ∙ m.above x i g;
      used = omega (arith, m.used, r.used, need-split level il begin last end h k z);
    }

-- A range of one cell whose entry points to a table of the level below.
pub Mapped-descend :
    (flags l table begin end phys : ℕ) (v w : View)
    → IsLevel (suc (suc l))
    → IsFor v (suc (suc l)) table begin end
    → cell (suc (suc l)) begin ≡ cell (suc (suc l)) end
    → let pte = v.tables table (pml_offs begin (suc (suc l))) in
      is_present pte ≡ true
      → is_leaf (suc (suc l)) pte ≡ false
      → Mapped flags (suc l) (phys_of pte) begin end phys v w
      → Mapped flags (suc (suc l)) table begin end phys v w
unfolding translate need
Mapped-descend flags l table begin end phys v w il for c p q m =
    let level = suc (suc l) in
    let at : (a : ℕ)
        → begin ≤ a
        → a ≤ end
        → w.tables table (pml_offs a level) ≡ v.tables table (pml_offs begin level) =
      λ a h k.
        let e : cell level a ≡ cell level begin =
          omega (arith, c, cell_le level il begin a h, cell_le level il a end k) in
        let up : suc l < (v.label table).0 = rw ((for a h k).1) (omega arith) in
        m.above table (pml_offs a level) up ∙ ap (λ x. v.tables table (x % 512)) e in
    record {
      sound = m.sound;
      kept = m.kept;
      mapped = λ a h k. rw (at a h k, p, q) (m.mapped a h k);
      others = m.others;
      above = λ x i g. m.above x i (omega (arith, g));
      used = omega (arith, m.used);
    }
