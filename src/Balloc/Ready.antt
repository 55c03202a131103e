-- ===== src/Balloc/Ready.antt =====
-- The set-up of the boot allocator of src/src/balloc.c as a whole.
use spbau_os_hw.Prelude.{
  ℕ, suc, ◌+◌, ◌/◌, ◌%◌, ◌^◌, ◌≤◌, ◌<◌, ◌≡◌, refl, ap, ◌∙◌, Bool, true, false, not, ◌&&◌, ◌||◌,
  List, [], ◌==◌, All, arith, length,
}
use spbau_os_hw.Prelude.Run.{Run, ok, ◌>>=◌}
use spbau_os_hw.Balloc.{max_ranges}
use spbau_os_hw.Balloc.Sets.{inside, has}
use spbau_os_hw.Balloc.Setup.{
  MmapEntry, MbootInfo, Trees, remove_free_ranges, add_both, add_entry, remove_entry, each_entry,
  balloc_parse_mmap, balloc_setup,
}
use spbau_os_hw.Balloc.Parse.{
  entries, for_each, bind_ok, each_entry-entries, IsProper, in_map, in_reserved, IsValid,
  add_both_lem, add_entries_lem, remove_free_ranges_lem, remove_entries_lem,
}

-- The entries that `info` leads to.
abbrev pub map_entries : (ℕ → MmapEntry) → MbootInfo → List MmapEntry
map_entries entry_at info =
    entries entry_at (suc info.mmap_size) info.mmap_addr (info.mmap_addr + info.mmap_size)

-- What the code relies on in the memory map and in the kernel's place: up to 41 entries, none empty
-- or beyond 64 bits.
pub record IsBootable (entry_at : ℕ → MmapEntry) (kbegin kend : ℕ) (info : MbootInfo) : Type 0 where
  pub flagged : (info.flags / 2 ^ 6 % 2 == 0) ≡ false
  pub addr_small : info.mmap_addr < 2 ^ 32
  pub size_small : info.mmap_size < 2 ^ 32
  pub sizes : (a : ℕ) → (entry_at a).size < 2 ^ 32
  pub proper : All IsProper (map_entries entry_at info)
  pub few : length (map_entries entry_at info) ≤ 41
  pub kernel : kbegin < kend

run_entries :
    (entry_at : ℕ → MmapEntry) (kbegin kend : ℕ) (info : MbootInfo)
    (body : MmapEntry → Trees → Run Trees) (s : Trees)
    → IsBootable entry_at kbegin kend info
    → each_entry entry_at body
        (suc info.mmap_size)
        info.mmap_addr
        ((info.mmap_addr + info.mmap_size) % 2 ^ 64)
        s
      ≡ for_each body (map_entries entry_at info) s
run_entries entry_at kbegin kend info body s b =
    let w : (info.mmap_addr + info.mmap_size) % 2 ^ 64 ≡ info.mmap_addr + info.mmap_size =
      omega (arith, b.addr_small, b.size_small) in
    ap (λ (end : ℕ). each_entry entry_at body (suc info.mmap_size) info.mmap_addr end s) w
    ∙ each_entry-entries entry_at body (suc info.mmap_size) info.mmap_addr
        (info.mmap_addr + info.mmap_size) s b.sizes (omega (arith, b.addr_small, b.size_small))
        (omega (arith, b.addr_small)) (omega arith) (omega arith)

in_map_eq :
    (m k r h a b c : Bool)
    → (b ≡ true → (a || k) ≡ true)
    → (a ≡ true → (false || m) ≡ true)
    → c ≡ (b && not r)
    → h ≡ (c && not k)
    → (h && not m) ≡ false
in_map_eq m k r h true true c f g e d = ground (arith, g refl)
in_map_eq m k r h false true c f g e d = ground (arith, f refl)
in_map_eq m k r h a false c f g e d = ground arith

not_reserved_eq : (k r h b c : Bool) → c ≡ (b && not r) → h ≡ (c && not k) → (h && r) ≡ false
not_reserved_eq k r h b c e d = ground arith

not_kernel_eq : (k h c : Bool) → h ≡ (c && not k) → (h && k) ≡ false
not_kernel_eq k h c d = ground arith

-- With a memory map of at most 41 entries, none empty or beyond 64 bits, the set-up comes through;
-- then both sets are in order with gaps, and a free address is one that an entry of the map covers,
-- and that neither an entry that is not for use nor the kernel covers.
pub balloc_setup_lem :
    (entry_at : ℕ → MmapEntry) (kbegin kend : ℕ) (info : MbootInfo)
    → IsBootable entry_at kbegin kend info
    → (s : Trees) × (balloc_setup entry_at kbegin kend info ≡ ok s)
      × IsValid s
      × ((x : ℕ) → (has s.free_ranges x && not (in_map (map_entries entry_at info) x)) ≡ false)
      × ((x : ℕ) → (has s.free_ranges x && in_reserved (map_entries entry_at info) x) ≡ false)
      × ((x : ℕ) → (has s.free_ranges x && inside kbegin kend x) ≡ false)
unfolding balloc_setup balloc_parse_mmap
balloc_setup_lem entry_at kbegin kend info b =
    let es = map_entries entry_at info in
    let start : Trees = record { nodes = max_ranges; memory_map = []; free_ranges = [] } in
    let ends = λ (body : MmapEntry → Trees → Run Trees) (s : Trees).
      run_entries entry_at kbegin kend info body s b in
    let three : Trees → Run Trees = remove_free_ranges kbegin kend in
    let two : Trees → Run Trees = λ t.
      each_entry entry_at remove_entry (suc info.mmap_size) info.mmap_addr
        ((info.mmap_addr + info.mmap_size) % 2 ^ 64) t
      >>= three in
    let one : Trees → Run Trees = λ t. add_both kbegin kend t >>= two in
    let (s1, r1, g1) =
      add_entries_lem es start b.proper (omega (arith, b.few))
        (record { map_valid = tt; free_valid = tt }) in
    let (s2, r2, g2) =
      add_both_lem kbegin kend s1 b.kernel (omega (arith, b.few, g1.nodes_left)) g1.valid in
    let (s3, r3, g3) =
      remove_entries_lem es s2 b.proper (omega (arith, b.few, g1.nodes_left, g2.nodes_left))
        g2.valid in
    let (s4, r4, g4) =
      remove_free_ranges_lem kbegin kend s3 b.kernel
        (omega (arith, b.few, g1.nodes_left, g2.nodes_left, g3.nodes_left)) g3.valid in
    (
      s4,
      rw (b.flagged) (
          bind_ok one (ends add_entry start ∙ r1)
          ∙ bind_ok two r2
          ∙ bind_ok three (ends remove_entry s2 ∙ r3)
          ∙ r4),
      g4.valid,
      (λ x.
          in_map_eq (in_map es x) (inside kbegin kend x) (in_reserved es x) (has s4.free_ranges x)
            (has s1.free_ranges x) (has s2.free_ranges x) (has s3.free_ranges x) (g2.gains x)
            (g1.gains x) (g3.covers x) (g4.covers x)),
      (λ x.
          not_reserved_eq (inside kbegin kend x) (in_reserved es x) (has s4.free_ranges x)
            (has s2.free_ranges x) (has s3.free_ranges x) (g3.covers x) (g4.covers x)),
      λ x.
          not_kernel_eq (inside kbegin kend x) (has s4.free_ranges x) (has s3.free_ranges x)
            (g4.covers x),
    )
