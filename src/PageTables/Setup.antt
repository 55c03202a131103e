-- ===== src/PageTables/Setup.antt =====
-- `paging_setup` of src/src/paging.c.
use spbau_os_hw.Prelude.{
  ℕ, suc, ◌+◌, ◌-◌, ◌/◌, ◌%◌, ◌^◌, ◌≤◌, ◌<◌, ◌≡◌, refl, sym, ◌∙◌, ap, subst, inl, inr, arith, true,
  false, ◌==◌, if◌then◌else◌, List, ◌∷◌, length, some, update, All, Distinct, ==_ne, ==_refl,
  All-zip,
}
use native.Mathlib.Decide.{ℕ_discrete}
use spbau_os_hw.Prelude.Run.{ok}
use spbau_os_hw.PageTables.{
  Tables, Paging, Take, get_page, paging_setup, mem_size, higher_base, virtual_base,
}
use spbau_os_hw.PageTables.Cells.{cell, need}
use spbau_os_hw.PageTables.Translation.{Labels, translate}
use spbau_os_hw.PageTables.Sound.{Supply, view, Sound, Translates, Mapped, IsPage, label_on}
use spbau_os_hw.PageTables.Grow.{translate_empty}
use spbau_os_hw.PageTables.Ready.{Ready}
use spbau_os_hw.PageTables.Ranges.{last_of, map_flags, map_flags_present, pt_map_pages-Maps}

module _ {ℓ} {S : Type ℓ} (take : Take S) (supply : Supply take) where
  -- The first table of all.
  root : ℕ → Labels
  root p x = if x == p then (4, 0xffff) else (0, 0)

  root-Sound :
      (p : ℕ) (ps : List ℕ) (t : Tables)
      → All IsPage (p ∷ ps)
      → Distinct (p ∷ ps)
      → Sound (root p) (update t p (λ i. 0)) ps
  unfolding root
  root-Sound p ps t h d = record {
    labelled = λ x l key i e k q r. elim (ℕ_discrete x p) [
      | yes f ↦ let no : false ≡ true = rw (f, ==_refl p) at q in cc
      | no n ↦
          let no : (0, 0) ≡ (suc (suc l), key) = rw (==_ne x p n) at e in
          absurd (omega (arith, ap (λ (q : ℕ × ℕ). q.0) no))
    ];
    pages = All-zip (λ x a b. (a, rw (==_ne x p (λ e. b (sym e))) refl)) ps h.1 d.0;
    distinct = d.1;
  }

  -- How much memory is mapped.
  mem_size_lem :
      (memory : ℕ)
      → 4096 ≤ memory
      → (mem_size memory % 4096 ≡ 0)
        × (4096 ≤ mem_size memory)
        × (mem_size memory ≤ 0x00007fff00000000)
  mem_size_lem memory h = (ground (arith, h), ground (arith, h), ground (arith, h))

  -- The tables before the memory is mapped, and behind that.
  memory_Ready :
      (size p : ℕ) (ps : List ℕ) (t : Tables) (rest : S)
      → supply.pages rest ≡ ps
      → All IsPage (p ∷ ps)
      → Distinct (p ∷ ps)
      → size % 4096 ≡ 0
      → 4096 ≤ size
      → size ≤ 0x00007fff00000000
      → need 4 higher_base (higher_base + size - 1) ≤ length ps
      → Ready 4 p higher_base
          (higher_base + size - 1)
          0
          (view supply (root p) (record { tables = update t p (λ i. 0); pool = rest }))
  unfolding root
  memory_Ready size p ps t rest q pages distinct aligned some_page limit n = record {
    is_level = (omega arith, omega arith);
    sound = rw q (root-Sound p ps t pages distinct);
    place = rw (==_refl p) refl;
    same_table = omega (arith, some_page, limit);
    ordered = omega (arith, some_page);
    top = omega (arith, some_page, limit);
    begin_page = refl;
    end_page = omega (arith, some_page, aligned);
    phys_page = refl;
    phys_top = omega (arith, limit);
    unmapped = λ a i k. translate_empty (update t p (λ i. 0)) 4 p a (λ i. rw (==_refl p) refl);
    enough = rw q n;
  }

  -- The root translates each address of the upper half.
  at_root :
      (p a : ℕ) (t : Tables) (free : List ℕ)
      → a / 2 ^ 48 ≡ 0xffff
      → Translates (record { label = root p; tables = t; free = free }) a 4 p
  unfolding root
  at_root p a t free h =
      let key : 0xffff ≡ cell 4 a / 512 = omega (arith, h) in
      ((omega arith, omega arith), rw (==_refl p) (ap (λ k. (4, k)) key))

  kernel_Ready :
      (flags size p : ℕ) (t : Tables) (rest : S) (after : Labels) (s : Paging S)
      → let st : Paging S = record { tables = update t p (λ i. 0); pool = rest } in
        Mapped flags 4 p higher_base
          (higher_base + size - 1)
          0
          (view supply (root p) st)
          (view supply after s)
        → size ≤ 0x00007fff00000000
        → need 4 higher_base (higher_base + size - 1) + need 4 virtual_base (2 ^ 64 - 1)
          ≤ length (supply.pages rest)
        → Ready 4 p virtual_base (2 ^ 64 - 1) 0 (view supply after s)
  kernel_Ready flags size p t rest after s m limit n =
      let zeroed = update t p (λ i. 0) in
      let free = supply.pages rest in
      let at_begin = at_root p virtual_base zeroed free refl in
      record {
        is_level = (omega arith, omega arith);
        sound = m.sound;
        place = m.kept p (λ z. omega (arith, ap (λ (q : ℕ × ℕ). q.0) at_begin.1, z)) ∙ at_begin.1;
        same_table = refl;
        ordered = omega arith;
        top = omega arith;
        begin_page = refl;
        end_page = refl;
        phys_page = refl;
        phys_top = omega arith;
        unmapped = λ a i k.
            m.others a 4 p (at_root p a zeroed free (omega (arith, i, k)))
              (inr (omega (arith, i, limit)))
            ∙ translate_empty zeroed 4 p a (λ i. rw (==_refl p) refl);
        enough = omega (arith, m.used, n);
      }

  -- Where the memory has at least a page and the pool has pages enough, `paging_setup` ends, and gives
  -- tables in which each address of the memory is translated from its distance to HIGHER_BASE, and
  -- each of the first 2^31 from its distance to VIRTUAL_BASE.
  pub paging_setup_lem :
      (memory : ℕ) (st : Paging S) (p : ℕ) (ps : List ℕ)
      → supply.pages st.pool ≡ p ∷ ps
      → All IsPage (p ∷ ps)
      → Distinct (p ∷ ps)
      → 4096 ≤ memory
      → need 4 higher_base (higher_base + mem_size memory - 1) + need 4 virtual_base (2 ^ 64 - 1)
        ≤ length ps
      → (s : Paging S) × (paging_setup take memory st ≡ ok (p, s))
        × ((x : ℕ) → x < mem_size memory → translate s.tables 4 p (higher_base + x) ≡ some x)
        × ((x : ℕ) → x < 2 ^ 31 → translate s.tables 4 p (virtual_base + x) ≡ some x)
  unfolding paging_setup get_page
  paging_setup_lem memory st p ps pool pages distinct h n =
      let size = mem_size memory in
      let (aligned, some_page, limit) = mem_size_lem memory h in
      let (rest, take_p, q) = supply.take_page st.pool p ps pool in
      let st1 : Paging S = record { tables = update st.tables p (λ i. 0); pool = rest } in
      let behind = (higher_base + size) % 2 ^ 64 in
      let top : last_of behind ≡ higher_base + size - 1 = omega (arith, some_page, limit) in
      let end_page : behind % 4096 ≡ 0 = omega (arith, some_page, limit, aligned) in
      let r1 =
        memory_Ready size p ps st.tables rest q pages distinct aligned some_page limit
          (omega (arith, n)) in
      let (s, after, run, m) =
        pt_map_pages-Maps take supply 2 p higher_base behind 0 (root p) st1 (omega arith) end_page
          (subst (λ x. Ready 4 p higher_base x 0 (view supply (root p) st1)) (sym top) r1) in
      let m1 =
        subst
          (λ x.
            Mapped (map_flags 2) 4 p higher_base x 0 (view supply (root p) st1)
              (view supply after s))
          top m in
      let r2 = kernel_Ready (map_flags 2) size p st.tables rest after s m1 limit (rw q n) in
      let (u, after2, run2, m2) =
        pt_map_pages-Maps take supply 2 p virtual_base 0 0 after s (omega arith) refl r2 in
      (
        u,
        rw (take_p, run, run2) refl,
        (λ x l.
            let at =
              at_root p (higher_base + x) st1.tables (supply.pages rest)
                (omega (arith, l, limit)) in
            m2.others (higher_base + x) 4 p
              (
                at.0,
                m1.kept p (label_on (view supply (root p) st1) (higher_base + x) 4 p at) ∙ at.1,
              )
              (inl (omega (arith, l, limit)))
            ∙ m1.mapped (higher_base + x) (omega arith) (omega (arith, l))
            ∙ rw (map_flags_present 2) (ap some (omega arith))),
        (λ x l.
            m2.mapped (virtual_base + x) (omega arith) (omega (arith, l))
            ∙ rw (map_flags_present 2) (ap some (omega arith))),
      )
