-- ===== src/PageTables/Ranges.antt =====
-- `pt_map_pages` and `pt_populate_pages` of src/src/paging.c.
use spbau_os_hw.Prelude.{
  ℕ, ◌+◌, ◌-◌, ◌/◌, ◌%◌, ◌^◌, ◌≤◌, ◌<◌, ◌≡◌, refl, sym, ◌∙◌, ap, ◌⊎◌, inl, inr, arith, true, some,
}
use native.Mathlib.Decide.{dec_lt}
use spbau_os_hw.Prelude.Run.{ok}
use spbau_os_hw.Prelude.Words.{word_or, word_or_bound, word_or_odd}
use spbau_os_hw.PageTables.{Paging, Take, is_present, pt_map_pages, pt_populate_pages}
use spbau_os_hw.PageTables.Cells.{cell}
use spbau_os_hw.PageTables.Translation.{Labels, translate}
use spbau_os_hw.PageTables.Sound.{Supply, view, IsSound}
use spbau_os_hw.PageTables.Ready.{Ready}
use spbau_os_hw.PageTables.Rounds.{Maps}
use spbau_os_hw.PageTables.Map.{map_level-Mapped}

-- The last address in front of `end`, which is 0 behind the last address of all.
abbrev pub last_of : ℕ → ℕ
last_of end = (end + (2 ^ 64 - 1)) % 2 ^ 64

abbrev pub map_flags : ℕ → ℕ
map_flags flags = word_or 64 (word_or 64 flags 1) (2 ^ 7)

pub map_flags_small : (flags : ℕ) → flags < 4096 → map_flags flags < 4096
map_flags_small flags h =
    word_or_bound 64 12 (word_or 64 flags 1) (2 ^ 7) (word_or_bound 64 12 flags 1 h (omega arith))
      (omega arith)

pub map_flags_present : (flags : ℕ) → is_present (map_flags flags) ≡ true
map_flags_present flags =
    let a = word_or_odd 63 (word_or 64 flags 1) (2 ^ 7) in
    let b = word_or_odd 63 flags 1 in ground (arith, a, b)

no_flags : 0 < 4096
no_flags = omega arith

module _ {ℓ} {S : Type ℓ} (take : Take S) (supply : Supply take) where
  pub pt_map_pages-Maps :
      (flags pml4 begin end phys : ℕ) (label : Labels) (st : Paging S)
      → flags < 4096
      → end % 4096 ≡ 0
      → Ready 4 pml4 begin (last_of end) phys (view supply label st)
      → Maps supply
          (map_flags flags)
          4
          pml4
          begin
          (last_of end)
          phys
          label
          st
          (pt_map_pages take pml4 begin end phys flags st)
  unfolding pt_map_pages
  pt_map_pages-Maps flags pml4 begin end phys label st h e r =
      rw (r.begin_page, e)
        (map_level-Mapped take supply (map_flags flags) (map_flags_small flags h) 4 pml4 begin
          (last_of end) phys label st r)

  -- Where the tables are sound, the range is of pages in one half of the addresses, nothing of it is
  -- translated yet, and there are pages enough for the tables, `pt_map_pages` ends. The tables are
  -- sound then; each address of the range is translated to the one at the same distance from `phys`;
  -- and every other address of that half is translated as before.
  pub pt_map_pages_lem :
      (flags pml4 begin end phys : ℕ) (label : Labels) (st : Paging S)
      → flags < 4096
      → end % 4096 ≡ 0
      → Ready 4 pml4 begin (last_of end) phys (view supply label st)
      → (s : Paging S) × (after : Labels) × (pt_map_pages take pml4 begin end phys flags st ≡ ok s)
        × IsSound (view supply after s)
        × ((a : ℕ)
            → begin ≤ a
            → a ≤ last_of end
            → translate s.tables 4 pml4 a ≡ some (phys + (a - begin)))
        × ((a : ℕ)
            → a / 2 ^ 48 ≡ begin / 2 ^ 48
            → (a < begin) ⊎ (last_of end < a)
            → translate s.tables 4 pml4 a ≡ translate st.tables 4 pml4 a)
  pt_map_pages_lem flags pml4 begin end phys label st h e r =
      let (s, after, run, m) = pt_map_pages-Maps flags pml4 begin end phys label st h e r in
      (
        s,
        after,
        run,
        m.sound,
        (λ a i j. m.mapped a i j ∙ rw (map_flags_present flags) refl),
        (λ a i o.
            let half : cell 4 begin / 512 ≡ cell 4 a / 512 = omega (arith, i) in
            m.others a 4 pml4 (r.is_level, r.place ∙ ap (λ k. (4, k)) half) o),
      )

  -- `pt_populate_pages` ends in the same cases; the tables are sound then, and every address of the
  -- half is translated as before.
  pub pt_populate_pages_lem :
      (pml4 begin end : ℕ) (label : Labels) (st : Paging S)
      → end % 4096 ≡ 0
      → Ready 4 pml4 begin (last_of end) 0 (view supply label st)
      → (s : Paging S) × (after : Labels) × (pt_populate_pages take pml4 begin end st ≡ ok s)
        × IsSound (view supply after s)
        × ((a : ℕ)
            → a / 2 ^ 48 ≡ begin / 2 ^ 48
            → translate s.tables 4 pml4 a ≡ translate st.tables 4 pml4 a)
  unfolding pt_populate_pages
  pt_populate_pages_lem pml4 begin end label st e r =
      let (s, after, run, m) =
        map_level-Mapped take supply 0 no_flags 4 pml4 begin (last_of end) 0 label st r in
      (
        s,
        after,
        rw (r.begin_page, e) run,
        m.sound,
        (λ a i.
            let half : cell 4 begin / 512 ≡ cell 4 a / 512 = omega (arith, i) in
            elim (dec_lt a begin) [
              | yes l ↦ m.others a 4 pml4 (r.is_level, r.place ∙ ap (λ k. (4, k)) half) (inl l)
              | no l ↦ elim (dec_lt (last_of end) a) [
                | yes g ↦ m.others a 4 pml4 (r.is_level, r.place ∙ ap (λ k. (4, k)) half) (inr g)
                | no g ↦
                    m.mapped a (omega (arith, l)) (omega (arith, g))
                    ∙ sym (r.unmapped a (omega (arith, l)) (omega (arith, g)))
              ]
            ]),
      )
