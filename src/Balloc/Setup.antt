-- ===== src/Balloc/Setup.antt =====
-- Setting up the boot allocator: `balloc_setup_nodes` and `balloc_parse_mmap` of src/src/balloc.c. The
-- memory map is the bootloader's, read through `entry_at`; the kernel's bounds are the linker's.
use spbau_os_hw.Prelude.{ℕ, zero, suc, ◌+◌, ◌/◌, ◌%◌, ◌^◌, List, [], leb, ◌==◌, if◌then◌else◌}
use spbau_os_hw.Prelude.Run.{Run, ok, bug, ◌>>=◌, ◌>>◌, bug_on}
use spbau_os_hw.Balloc.{Range, max_ranges, add_range, remove_range}

-- `struct mboot_mmap_entry`; `type` is 1 for memory that may be used.
pub record MmapEntry : Type 0 where
  pub size : ℕ
  pub addr : ℕ
  pub bytes : ℕ
  pub kind : ℕ

-- `struct mboot_info`
pub record MbootInfo : Type 0 where
  pub flags : ℕ
  pub mmap_size : ℕ
  pub mmap_addr : ℕ

-- The two sets, and how many nodes the pool has left.
pub record Trees : Type 0 where
  pub nodes : ℕ
  pub memory_map : List Range
  pub free_ranges : List Range

-- `sizeof(struct mboot_mmap_entry)`, which is packed.
abbrev pub entry_size : ℕ
entry_size = 24

abbrev pub rend : MmapEntry → ℕ
rend e = (e.addr + e.bytes) % 2 ^ 64

unfoldable pub add_memory_map : (begin end : ℕ) → Trees → Run Trees
add_memory_map begin end s = do
  t ← add_range begin end (record { nodes = s.nodes; set = s.memory_map })
  ok (record s { nodes = t.nodes; memory_map = t.set })

unfoldable pub add_free_ranges : (begin end : ℕ) → Trees → Run Trees
add_free_ranges begin end s = do
  t ← add_range begin end (record { nodes = s.nodes; set = s.free_ranges })
  ok (record s { nodes = t.nodes; free_ranges = t.set })

unfoldable pub remove_free_ranges : (begin end : ℕ) → Trees → Run Trees
remove_free_ranges begin end s = do
  t ← remove_range begin end (record { nodes = s.nodes; set = s.free_ranges })
  ok (record s { nodes = t.nodes; free_ranges = t.set })

unfoldable pub add_both : (begin end : ℕ) → Trees → Run Trees
add_both begin end s = add_memory_map begin end s >>= add_free_ranges begin end

-- The bodies of the two loops over the memory map.
abbrev pub add_entry : MmapEntry → Trees → Run Trees
add_entry e s = add_both e.addr (rend e) s

unfoldable pub remove_entry : MmapEntry → Trees → Run Trees
remove_entry e s = if e.kind == 1 then ok s else remove_free_ranges e.addr (rend e) s

-- Either loop, from the entry at `ptr` on.
unfoldable pub each_entry :
    (entry_at : ℕ → MmapEntry) (body : MmapEntry → Trees → Run Trees) (fuel ptr end : ℕ)
    → Trees
    → Run Trees
each_entry entry_at body zero ptr end s = bug
each_entry entry_at body (suc f) ptr end s =
    let e = entry_at ptr in
    let rest = body e s >>= each_entry entry_at body f ((ptr + (e.size + 4)) % 2 ^ 64) end in
    if leb ((ptr + entry_size) % 2 ^ 64) end then rest else ok s

-- `balloc_parse_mmap`; each round of its loops gets on by four bytes or more.
unfoldable pub balloc_parse_mmap :
    (entry_at : ℕ → MmapEntry) (kbegin kend : ℕ) → MbootInfo → Trees → Run Trees
balloc_parse_mmap entry_at kbegin kend info s = do
  bug_on (info.flags / 2 ^ 6 % 2 == 0)
  let begin = info.mmap_addr
  let end = (begin + info.mmap_size) % 2 ^ 64
  s1 ← each_entry entry_at add_entry (suc info.mmap_size) begin end s
  s2 ← add_both kbegin kend s1
  s3 ← each_entry entry_at remove_entry (suc info.mmap_size) begin end s2
  remove_free_ranges kbegin kend s3

-- `balloc_setup`, less its printing; before it both trees are empty.
unfoldable pub balloc_setup : (entry_at : ℕ → MmapEntry) (kbegin kend : ℕ) → MbootInfo → Run Trees
balloc_setup entry_at kbegin kend info =
    balloc_parse_mmap entry_at kbegin kend info
      (record { nodes = max_ranges; memory_map = []; free_ranges = [] })
