-- ===== src/PageTables/Ready.antt =====
-- What `__pt_map_pages` of src/src/paging.c asks for, for a range and for the parts of it.
use spbau_os_hw.Prelude.{
  ℕ, suc, ◌+◌, ◌-◌, ◌/◌, ◌%◌, ◌^◌, ◌≤◌, ◌<◌, ◌≡◌, sym, ◌∙◌, ap, inl, inr, arith, length, none,
}
use spbau_os_hw.PageTables.{pml_offs, pml_size}
use spbau_os_hw.PageTables.Cells.{
  cell, IsLevel, need, need-split, cell_le, cell-cell, Round, multiple_of_page,
}
use spbau_os_hw.PageTables.Translation.{translate, lower}
use spbau_os_hw.PageTables.Sound.{View, IsSound, Mapped, IsFor, label_on}
use spbau_os_hw.PageTables.Grow.{TableEntry, translate_table}

-- The range is of pages in the area of the table, is not mapped yet, and there are pages enough.
pub record Ready (level table begin end phys : ℕ) (v : View) : Type 0 where
  pub is_level : IsLevel level
  pub sound : IsSound v
  pub place : v.label table ≡ (level, cell level begin / 512)
  pub same_table : cell level begin / 512 ≡ cell level end / 512
  pub ordered : begin ≤ end
  pub top : end < 2 ^ 64
  pub begin_page : begin % 4096 ≡ 0
  pub end_page : suc end % 4096 ≡ 0
  pub phys_page : phys % 4096 ≡ 0
  pub phys_top : phys + (end - begin) < 2 ^ 52
  pub unmapped : (a : ℕ) → begin ≤ a → a ≤ end → translate v.tables level table a ≡ none
  pub enough : need level begin end ≤ length v.free

pub Ready-IsFor :
    (level table begin end phys : ℕ) (v : View)
    → Ready level table begin end phys v
    → IsFor v level table begin end
Ready-IsFor level table begin end phys v r a h k =
    let up = cell_le level r.is_level begin a h in
    let down = cell_le level r.is_level a end k in
    let same : cell level begin / 512 ≡ cell level a / 512 =
      omega (arith, up, down, r.same_table) in
    (r.is_level, r.place ∙ ap (λ key. (level, key)) same)

-- The part of the first round.
pub Ready-first :
    (level table begin end last phys : ℕ) (v : View)
    → Ready level table begin end phys v
    → Round level begin end last
    → Ready level table begin last phys v
Ready-first level table begin end last phys v r d = record {
  is_level = r.is_level;
  sound = r.sound;
  place = r.place;
  same_table = ap (λ c. c / 512) (sym d.same_cell);
  ordered = d.from_begin;
  top = omega (arith, r.top, d.up_to_end);
  begin_page = r.begin_page;
  end_page = elim d.progress [
    | inl (c, e) ↦ rw e r.end_page
    | inr (c, g, n, z) ↦ multiple_of_page level r.is_level (suc last) z
  ];
  phys_page = r.phys_page;
  phys_top = omega (arith, r.phys_top, d.up_to_end);
  unmapped = λ a h k. r.unmapped a h (omega (arith, k, d.up_to_end));
  enough = elim d.progress [
    | inl (c, e) ↦ rw e r.enough
    | inr (c, g, n, z) ↦
        omega (arith, r.enough, need-split level r.is_level begin last end d.from_begin g z)
  ];
}

-- The part of the others, behind the first round.
pub Ready-next :
    (flags level table begin end last phys : ℕ) (v w : View)
    → Ready level table begin end phys v
    → begin ≤ last
    → last < end
    → suc last % pml_size level ≡ 0
    → cell level (suc last) / 512 ≡ cell level end / 512
    → Mapped flags level table begin last phys v w
    → Ready level table (suc last) end (phys + (suc last - begin)) w
Ready-next flags level table begin end last phys v w r h g z c m =
    let multiple = multiple_of_page level r.is_level (suc last) z in
    let at_next = Ready-IsFor level table begin end phys v r (suc last) (omega (arith, h)) g in
    record {
      is_level = r.is_level;
      sound = m.sound;
      place = m.kept table (label_on v (suc last) level table at_next) ∙ at_next.1;
      same_table = c;
      ordered = g;
      top = r.top;
      begin_page = multiple;
      end_page = r.end_page;
      phys_page = omega (arith, r.phys_page, r.begin_page, multiple, h);
      phys_top = omega (arith, r.phys_top, h, g);
      unmapped = λ a i k.
          m.others a level table
            (Ready-IsFor level table begin end phys v r a (omega (arith, i, h)) k) (inr i)
          ∙ r.unmapped a (omega (arith, i, h)) k;
      enough = omega (arith, r.enough, m.used, need-split level r.is_level begin last end h g z);
    }

-- The same range in the table of the level below, to which the entry then points.
pub Ready-below :
    (l table begin last phys p pte : ℕ) (v w : View)
    → Ready (suc (suc l)) table begin last phys v
    → cell (suc (suc l)) last ≡ cell (suc (suc l)) begin
    → IsSound w
    → ((a : ℕ) → begin ≤ a → a ≤ last → translate w.tables (suc (suc l)) table a ≡ none)
    → w.tables table (pml_offs begin (suc (suc l))) ≡ pte
    → TableEntry l p pte
    → w.label p ≡ (suc l, cell (suc (suc l)) begin)
    → need (suc l) begin last ≤ length w.free
    → Ready (suc l) p begin last phys w
Ready-below l table begin last phys p pte v w r c sound free t e place enough =
    let level = suc (suc l) in
    let key : cell level begin ≡ cell (suc l) begin / 512 =
      cell-cell (suc l) begin r.is_level (omega arith) in
    record {
      is_level = lower r.is_level;
      sound = sound;
      place = place ∙ ap (λ k. (suc l, k)) key;
      same_table = sym key ∙ sym c ∙ cell-cell (suc l) last r.is_level (omega arith);
      ordered = r.ordered;
      top = r.top;
      begin_page = r.begin_page;
      end_page = r.end_page;
      phys_page = r.phys_page;
      phys_top = r.phys_top;
      unmapped = λ a h k.
          let same : cell level a ≡ cell level begin =
            omega
              (arith, c, cell_le level r.is_level begin a h, cell_le level r.is_level a last k) in
          sym (
            translate_table w.tables l table a p pte e
              (ap (λ x. w.tables table (x % 512)) same ∙ t))
          ∙ free a h k;
      enough = enough;
    }
