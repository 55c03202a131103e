-- ===== src/PageTables/Rounds.antt =====
-- A round of the loop of `__pt_map_pages` of src/src/paging.c.
use spbau_os_hw.Prelude.{
  ℕ, zero, suc, ◌+◌, ◌-◌, ◌*◌, ◌/◌, ◌%◌, ◌^◌, ◌<◌, ◌≡◌, refl, sym, ◌∙◌, ap, inl, inr, arith, true,
  false, List, ◌∷◌, length, update, Bool-cases, ==_ne, ==_refl,
}
use spbau_os_hw.Prelude.Words.{word_or}
use spbau_os_hw.Prelude.Run.{Run, ok}
use spbau_os_hw.PageTables.{
  Paging, Take, MapBelow, pml_offs, pml_size, is_present, phys_of, map_end, maps_whole, leaf_entry,
  set_entry, get_page, map_entry, set_pte, pde_flags,
}
use spbau_os_hw.PageTables.Cells.{cell}
use spbau_os_hw.PageTables.Translation.{Labels}
use spbau_os_hw.PageTables.Sound.{Supply, view, Mapped}
use spbau_os_hw.PageTables.Compose.{Mapped-descend}
use spbau_os_hw.PageTables.Entry.{leaf-Mapped, set_entry_here}
use spbau_os_hw.PageTables.Grow.{grown-Mapped, grown-Sound, grown-same, TableEntry, table_entry_lem}
use spbau_os_hw.PageTables.Ready.{Ready, Ready-IsFor, Ready-below}
use spbau_os_hw.PageTables.Whole.{
  present-TableEntry, present_page, maps_whole-Whole, whole_page, no_last, nonempty, need_table,
  need_less, need_below,
}

-- A run that maps the range.
abbrev pub Maps {ℓ} :
    {S : Type ℓ} {take : Take S} (supply : Supply take) (flags level table begin end phys : ℕ)
    → Labels
    → Paging S
    → Run (Paging S)
    → Type ℓ
Maps {S = S} supply flags level table begin end phys label st run =
    (s : Paging S) × (after : Labels) × (run ≡ ok s)
    × Mapped flags level table begin end phys (view supply label st) (view supply after s)

module _ {ℓ} {S : Type ℓ} (take : Take S) (supply : Supply take) (flags : ℕ)
    (small : flags < 4096) where
  abbrev pub MapsBelow : MapBelow S → ℕ → Type ℓ
  MapsBelow below l =
      (table begin end phys : ℕ) (label : Labels) (st : Paging S)
      → Ready l table begin end phys (view supply label st)
      → Maps supply flags l table begin end phys label st (below table begin end phys st)

  get_page_lem :
      (st : Paging S) (p : ℕ) (ps : List ℕ)
      → supply.pages st.pool ≡ p ∷ ps
      → (r : S) × (get_page take st
          ≡ ok (p, record { tables = update st.tables p (λ i. 0); pool = r }))
        × (supply.pages r ≡ ps)
  unfolding get_page
  get_page_lem st p ps e = let (r, t, q) = supply.take_page st.pool p ps e in (r, rw t refl, q)

  -- The entry is free, and gets a table.
  fresh_round :
      (l table begin end last phys : ℕ) (label : Labels) (st : Paging S) (below : MapBelow S)
      → MapsBelow below (suc l)
      → Ready (suc (suc l)) table begin last phys (view supply label st)
      → cell (suc (suc l)) last ≡ cell (suc (suc l)) begin
      → map_end (suc (suc l)) begin end ≡ last
      → is_present (st.tables table (pml_offs begin (suc (suc l)))) ≡ false
      → maps_whole (suc (suc l)) begin end phys flags ≡ false
      → Maps supply flags (suc (suc l)) table begin last phys label st (
          map_entry take below
            (suc (suc l))
            table
            (pml_offs begin (suc (suc l)))
            begin
            end
            phys
            flags
            st)
  unfolding map_entry
  fresh_round l table begin end last phys label st below b r c e n m =
      let level = suc (suc l) in
      let (p, ps, pool) =
        nonempty (supply.pages st.pool)
          (need_table l begin last (length (supply.pages st.pool)) r.enough) in
      let (rest, g, q) = get_page_lem st p ps pool in
      let first : supply.pages st.pool ≡ p ∷ supply.pages rest = pool ∙ ap (λ xs. p ∷ xs) (sym q) in
      let v = view supply label st in
      let page = let h = rw pool at r.sound.pages in h.0 in
      let entry = table_entry_lem l p page.0 in
      let st1 : Paging S = record {
        tables =
            set_entry table (pml_offs begin level) (word_or 64 p pde_flags)
              (update st.tables p (λ i. 0));
        pool = rest;
      } in
      let label1 : Labels = update label p (suc l, cell level begin) in
      let w = view supply label1 st1 in
      let for = Ready-IsFor level table begin last phys v r in
      let ready : Ready (suc l) p begin last phys w =
        Ready-below l table begin last phys p (word_or 64 p pde_flags) v w r c
          (grown-Sound table l begin p (supply.pages rest) v r.sound first r.place n)
          (λ a h k.
            grown-same table l begin p (supply.pages rest) v r.sound first r.place n a level table
              (for a h k)
            ∙ r.unmapped a h k)
          (set_entry_here table (pml_offs begin level) (word_or 64 p pde_flags)
            (update st.tables p (λ i. 0)))
          entry (rw (==_refl p) refl) (need_below l begin last _ r.enough first) in
      let (s, after, run, mapped) = b p begin last phys label1 st1 ready in
      (
        s,
        after,
        rw (n, m, no_last l, g, ==_ne p 0 page.0.0, e, entry.table) run,
        grown-Mapped table l begin p (supply.pages rest) v r.sound first r.place n flags last phys
            (view supply after s) r.is_level for r.ordered (sym c) mapped,
      )

  -- The entry points to a table.
  deeper_round :
      (l table begin end last phys : ℕ) (label : Labels) (st : Paging S) (below : MapBelow S)
      → MapsBelow below (suc l)
      → Ready (suc (suc l)) table begin last phys (view supply label st)
      → cell (suc (suc l)) last ≡ cell (suc (suc l)) begin
      → map_end (suc (suc l)) begin end ≡ last
      → let pte = st.tables table (pml_offs begin (suc (suc l))) in
        TableEntry l (phys_of pte) pte
        → Maps supply flags (suc (suc l)) table begin last phys label st (
            map_entry take below
              (suc (suc l))
              table
              (pml_offs begin (suc (suc l)))
              begin
              end
              phys
              flags
              st)
  unfolding map_entry
  deeper_round l table begin end last phys label st below b r c e entry =
      let level = suc (suc l) in
      let v = view supply label st in
      let pte = st.tables table (pml_offs begin level) in
      let index : cell level begin / 512 * 512 + pml_offs begin level ≡ cell level begin =
        omega arith in
      let below_label : label (phys_of pte) ≡ (suc l, cell level begin) =
        r.sound.labelled table l (cell level begin / 512) (pml_offs begin level) r.place
          (omega arith) entry.present entry.no_leaf
        ∙ ap (λ k. (suc l, k)) index in
      let ready : Ready (suc l) (phys_of pte) begin last phys v =
        Ready-below l table begin last phys (phys_of pte) pte v v r c r.sound r.unmapped refl entry
          below_label (need_less l begin last _ r.enough) in
      let (s, after, run, mapped) = b (phys_of pte) begin last phys label st ready in
      (
        s,
        after,
        rw (entry.present, no_last l, e) run,
        Mapped-descend flags l table begin last phys v (view supply after s) r.is_level
            (Ready-IsFor level table begin last phys v r) (sym c) entry.present entry.no_leaf
            mapped,
      )

  leaf_round :
      (level table begin end last phys : ℕ) (label : Labels) (st : Paging S) (below : MapBelow S)
      → Ready level table begin last phys (view supply label st)
      → map_end level begin end ≡ last
      → is_present (st.tables table (pml_offs begin level)) ≡ false
      → maps_whole level begin end phys flags ≡ true
      → Maps supply flags level table begin last phys label st
          (map_entry take below level table (pml_offs begin level) begin end phys flags st)
  unfolding map_entry
  leaf_round level table begin end last phys label st below r e n m =
      let w = maps_whole-Whole level begin end phys flags m in
      let size : (last + 2 ^ 64 - begin + 1) % 2 ^ 64 ≡ pml_size level = rw e at w.whole in
      (
        set_pte table (pml_offs begin level) (leaf_entry level phys flags) st,
        label,
        rw (n, m) refl,
        leaf-Mapped flags level table begin last phys (view supply label st) r.sound r.is_level
            (Ready-IsFor level table begin last phys (view supply label st) r) r.ordered r.top size
            w.begins w.frame (omega (arith, r.phys_top)) small w.leaf,
      )

  -- A round of the loop.
  pub map_entry-Maps :
      (l table begin end last phys : ℕ) (label : Labels) (st : Paging S) (below : MapBelow S)
      → MapsBelow below l
      → Ready (suc l) table begin last phys (view supply label st)
      → cell (suc l) last ≡ cell (suc l) begin
      → map_end (suc l) begin end ≡ last
      → Maps supply flags
          (suc l)
          table
          begin
          last
          phys
          label
          st
          (map_entry take below (suc l) table (pml_offs begin (suc l)) begin end phys flags st)
  map_entry-Maps zero table begin end last phys label st below b r c e =
      leaf_round 1 table begin end last phys label st below r e
        (present_page st.tables table begin (r.unmapped begin (omega arith) r.ordered))
        (whole_page begin last end phys flags e r.ordered r.top c r.begin_page r.end_page
          r.phys_page)
  map_entry-Maps (suc l) table begin end last phys label st below b r c e =
      elim (Bool-cases (is_present (st.tables table (pml_offs begin (suc (suc l)))))) [
        | inl p ↦ deeper_round l table begin end last phys label st below b r c e (
            present-TableEntry st.tables l table begin p (r.unmapped begin (omega arith) r.ordered))
        | inr n ↦ elim (Bool-cases (maps_whole (suc (suc l)) begin end phys flags)) [
          | inl m ↦ leaf_round (suc (suc l)) table begin end last phys label st below r e n m
          | inr m ↦ fresh_round l table begin end last phys label st below b r c e n m
        ]
      ]
