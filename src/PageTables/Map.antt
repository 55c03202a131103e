-- ===== src/PageTables/Map.antt =====
-- `__pt_map_pages` of src/src/paging.c maps the range that it is given.
use spbau_os_hw.Prelude.{
  ℕ, zero, suc, ◌+◌, ◌-◌, ◌/◌, ◌%◌, ◌^◌, ◌<◌, ◌≡◌, refl, subst, inl, inr, arith, false, ltb,
}
use spbau_os_hw.PageTables.{Paging, Take, MapBelow, pml_offs, map_end, tomap, map_loop, map_level}
use spbau_os_hw.PageTables.Cells.{cell, cell_le, Round, round}
use spbau_os_hw.PageTables.Translation.{Labels}
use spbau_os_hw.PageTables.Sound.{Supply, view, Mapped}
use spbau_os_hw.PageTables.Compose.{Mapped-Mapped}
use spbau_os_hw.PageTables.Ready.{Ready, Ready-IsFor, Ready-first, Ready-next}
use spbau_os_hw.PageTables.Whole.{goes_on}
use spbau_os_hw.PageTables.Rounds.{Maps, MapsBelow, map_entry-Maps}

module _ {ℓ} {S : Type ℓ} (take : Take S) (supply : Supply take) (flags : ℕ)
    (small : flags < 4096) where
  -- The loop, for the entries that are left.
  map_loop-Maps :
      (n l table begin end phys : ℕ) (label : Labels) (st : Paging S) (below : MapBelow S)
      → MapsBelow take supply flags small below l
      → Ready (suc l) table begin end phys (view supply label st)
      → n ≡ cell (suc l) end - cell (suc l) begin
      → Maps supply flags (suc l) table begin end phys label st (
          map_loop take below
            (suc n)
            (suc l)
            table
            (pml_offs begin (suc l))
            begin
            end
            phys
            flags
            st)
  unfolding map_loop
  map_loop-Maps zero l table begin end phys label st below b r k =
      let level = suc l in
      let last = map_end level begin end in
      let v = view supply label st in
      let d : Round level begin end last = round level r.is_level begin end r.ordered r.top in
      let (s, after, run, m) =
        map_entry-Maps take supply flags small l table begin end last phys label st below b
          (Ready-first level table begin end last phys v r d) d.same_cell refl in
      let e : last ≡ end = elim d.progress [
        | inl (c, e) ↦ e
        | inr (c, g, next, z) ↦ absurd (omega (arith, k, c))
      ] in
      (
        s,
        after,
        rw run refl,
        subst (λ x. Mapped flags level table begin x phys v (view supply after s)) e m,
      )
  map_loop-Maps (suc n) l table begin end phys label st below b r k =
      let level = suc l in
      let last = map_end level begin end in
      let v = view supply label st in
      let d : Round level begin end last = round level r.is_level begin end r.ordered r.top in
      let (s, after, run, m) =
        map_entry-Maps take supply flags small l table begin end last phys label st below b
          (Ready-first level table begin end last phys v r d) d.same_cell refl in
      let (c, g, next, z) = goes_on level begin end last d k in
      let nb : (begin + tomap level begin end) % 2 ^ 64 ≡ suc last =
        omega (arith, d.size, d.from_begin, g, r.top) in
      let np : (phys + tomap level begin end) % 2 ^ 64 ≡ phys + (suc last - begin) =
        omega (arith, d.size, d.from_begin, g, r.top, r.phys_top) in
      let ni : suc (pml_offs begin level) ≡ pml_offs (suc last) level =
        omega (arith, next, c, r.same_table) in
      let same : cell level (suc last) / 512 ≡ cell level end / 512 =
        omega (arith, next, c, r.same_table) in
      let r2 =
        Ready-next flags level table begin end last phys v (view supply after s) r d.from_begin g z
          same m in
      let (s2, after2, run2, m2) =
        map_loop-Maps n l table (suc last) end (phys + (suc last - begin)) after s below b r2
          (omega (arith, k, next)) in
      (
        s2,
        after2,
        rw (run, nb, np, ni) run2,
        Mapped-Mapped flags level table begin last end phys (phys + (suc last - begin)) v
            (view supply after s) (view supply after2 s2) r.is_level
            (Ready-IsFor level table begin end phys v r) d.from_begin g z refl m m2,
      )

  -- `__pt_map_pages` ends, and maps what it is given.
  pub map_level-Mapped :
      (level table begin end phys : ℕ) (label : Labels) (st : Paging S)
      → Ready level table begin end phys (view supply label st)
      → Maps supply flags level table begin end phys label st
          (map_level take flags level table begin end phys st)
  unfolding map_level
  map_level-Mapped zero table begin end phys label st r = absurd (omega (arith, r.is_level.0))
  map_level-Mapped (suc l) table begin end phys label st r =
      let low : ltb 4 (suc l) ≡ false = ground (arith, r.is_level.1) in
      let up = cell_le (suc l) r.is_level begin end r.ordered in
      let n : suc (pml_offs end (suc l)) - pml_offs begin (suc l)
          ≡ suc (cell (suc l) end - cell (suc l) begin) =
        omega (arith, up, r.same_table) in
      rw (low, n)
        (map_loop-Maps (cell (suc l) end - cell (suc l) begin) l table begin end phys label st
          (map_level take flags l) (map_level-Mapped l) r refl)
