-- ===== src/Balloc/Parse.antt =====
-- The loops over the memory map in the set-up of the boot allocator of src/src/balloc.c.
use spbau_os_hw.Prelude.{
  ℕ, zero, suc, ◌+◌, ◌-◌, ◌*◌, ◌%◌, ◌^◌, ◌≤◌, ◌<◌, ◌≡◌, refl, ap, ◌∙◌, inl, inr, Bool, true, false,
  not, ◌&&◌, ◌||◌, List, [], ◌∷◌, leb, ◌==◌, if◌then◌else◌, All, arith, length, Bool-cases, leb→le,
}
use spbau_os_hw.Prelude.Run.{Run, ok, bug, ◌>>=◌}
use spbau_os_hw.Balloc.Sets.{inside, has, IsSeparated}
use spbau_os_hw.Balloc.Add.{add_range_lem}
use spbau_os_hw.Balloc.Remove.{remove_range_lem}
use spbau_os_hw.Balloc.Setup.{
  MmapEntry, Trees, entry_size, add_memory_map, add_free_ranges, remove_free_ranges, add_both,
  add_entry, remove_entry, each_entry,
}

-- The entries of the memory map from `ptr` on.
unfoldable pub entries : (entry_at : ℕ → MmapEntry) (fuel ptr end : ℕ) → List MmapEntry
entries entry_at zero ptr end = []
entries entry_at (suc f) ptr end =
    let rest = entries entry_at f (ptr + ((entry_at ptr).size + 4)) end in
    if leb (ptr + entry_size) end then entry_at ptr ∷ rest else []

-- The body of a loop, for one entry after the other.
unfoldable pub for_each : (MmapEntry → Trees → Run Trees) → List MmapEntry → Trees → Run Trees
for_each body [] s = ok s
for_each body (e ∷ es) s = body e s >>= for_each body es

bind_same :
    (m : Run Trees) (f g : Trees → Run Trees) → ((t : Trees) → f t ≡ g t) → (m >>= f) ≡ (m >>= g)
bind_same bug f g e = refl
bind_same (ok t) f g e = e t

pub bind_ok : {m : Run Trees} {t : Trees} (f : Trees → Run Trees) → m ≡ ok t → (m >>= f) ≡ f t
bind_ok f e = ap (◌>>= f) e

-- The loops end, and take the entries of the memory map in turn.
pub each_entry-entries :
    (entry_at : ℕ → MmapEntry) (body : MmapEntry → Trees → Run Trees) (f ptr end : ℕ) (s : Trees)
    → ((a : ℕ) → (entry_at a).size < 2 ^ 32)
    → end < 2 ^ 34
    → ptr < 2 ^ 35
    → end < f + ptr
    → 0 < f
    → each_entry entry_at body f ptr end s ≡ for_each body (entries entry_at f ptr end) s
unfolding each_entry for_each entries
each_entry-entries entry_at body zero ptr end s small top low enough some_fuel =
    absurd (omega (arith, some_fuel))
each_entry-entries entry_at body (suc f) ptr end s small top low enough some_fuel =
    let w : (ptr + 24) % 2 ^ 64 ≡ ptr + 24 = omega arith in
    let v : (ptr + ((entry_at ptr).size + 4)) % 2 ^ 64 ≡ ptr + ((entry_at ptr).size + 4) =
      omega (arith, small ptr) in
    elim (Bool-cases (leb (ptr + 24) end)) [
      | inl t ↦
          rw (w, v, t)
            (bind_same (body (entry_at ptr) s) _ _ (λ u.
              each_entry-entries entry_at body f (ptr + ((entry_at ptr).size + 4)) end u small top
                (omega (arith, small ptr, leb→le (ptr + 24) end t)) (omega (arith, enough))
                (omega (arith, enough, leb→le (ptr + 24) end t))))
      | inr t ↦ rw (w, t) refl
    ]

-- The end of an entry is in 64 bits, and it is not empty.
abbrev pub IsProper : MmapEntry → Type 0
IsProper e = (0 < e.bytes) × (e.addr + e.bytes < 2 ^ 64)

-- Does an entry cover the address, and one that is not for use?
abbrev pub in_map : List MmapEntry → ℕ → Bool
in_map [] x = false
in_map (e ∷ es) x = inside e.addr (e.addr + e.bytes) x || in_map es x

abbrev pub in_reserved : List MmapEntry → ℕ → Bool
in_reserved [] x = false
in_reserved (e ∷ es) x =
    (not (e.kind == 1) && inside e.addr (e.addr + e.bytes) x) || in_reserved es x

-- Both sets are in order with gaps.
pub record IsValid (s : Trees) : Type 0 where
  pub map_valid : IsSeparated s.memory_map
  pub free_valid : IsSeparated s.free_ranges

-- From `s` the run gives valid sets, at the cost of at most `cost` nodes.
pub record Grows (cost : ℕ) (more : ℕ → Bool) (s t : Trees) : Type 0 where
  pub valid : IsValid t
  pub nodes_left : s.nodes ≤ t.nodes + cost
  pub gains : (x : ℕ) → has t.free_ranges x ≡ true → (has s.free_ranges x || more x) ≡ true

pub add_both_lem :
    (begin end : ℕ) (s : Trees)
    → begin < end
    → 2 ≤ s.nodes
    → IsValid s
    → (t : Trees) × (add_both begin end s ≡ ok t) × Grows 2 (inside begin end) s t
unfolding add_both add_memory_map add_free_ranges
add_both_lem begin end s h two v =
    let (m, run, sep, same, gain, count, spare) =
      add_range_lem begin end (record { nodes = s.nodes; set = s.memory_map }) (s.nodes - 1) h
        (omega arith) v.map_valid in
    let (u, run2, sep2, same2, gain2, count2, spare2) =
      add_range_lem begin end (record { nodes = m.nodes; set = s.free_ranges }) (m.nodes - 1) h
        (omega arith) v.free_valid in
    (
      record { nodes = u.nodes; memory_map = m.set; free_ranges = u.set },
      rw (run, run2) refl,
      record {
        valid = record { map_valid = sep; free_valid = sep2 };
        nodes_left = omega arith;
        gains = gain2;
      },
    )

or_regroup :
    (a b c d : Bool) → (a || c) ≡ true → (a ≡ true → (d || b) ≡ true) → (d || (b || c)) ≡ true
or_regroup true b c d h f = ground (arith, f refl)
or_regroup false b c d h f = ground arith

pub add_entries_lem :
    (es : List MmapEntry) (s : Trees)
    → All IsProper es
    → 2 * length es ≤ s.nodes
    → IsValid s
    → (t : Trees) × (for_each add_entry es s ≡ ok t) × Grows (2 * length es) (in_map es) s t
unfolding for_each
add_entries_lem [] s p n v =
    (s, refl, record { valid = v; nodes_left = omega arith; gains = λ x e. rw e refl })
add_entries_lem (e ∷ es) s p n v =
    let w : (e.addr + e.bytes) % 2 ^ 64 ≡ e.addr + e.bytes = omega (arith, p.0) in
    let (u, run, g) =
      add_both_lem e.addr (e.addr + e.bytes) s (omega (arith, p.0)) (omega arith) v in
    let (t, rest, k) = add_entries_lem es u p.1 (omega (arith, g.nodes_left)) g.valid in
    (
      t,
      bind_ok (for_each add_entry es) (ap (λ (b : ℕ). add_both e.addr b s) w ∙ run) ∙ rest,
      record {
        valid = k.valid;
        nodes_left = omega (arith, g.nodes_left, k.nodes_left);
        gains = λ x i.
            or_regroup (has u.free_ranges x) (inside e.addr (e.addr + e.bytes) x) (in_map es x)
              (has s.free_ranges x) (k.gains x i) (g.gains x);
      },
    )

-- From `s` the run gives the set of free ranges less some addresses.
pub record Loses (cost : ℕ) (less : ℕ → Bool) (s t : Trees) : Type 0 where
  pub valid : IsValid t
  pub nodes_left : s.nodes ≤ t.nodes + cost
  pub same_map : t.memory_map ≡ s.memory_map
  pub covers : (x : ℕ) → has t.free_ranges x ≡ (has s.free_ranges x && not (less x))

pub remove_free_ranges_lem :
    (begin end : ℕ) (s : Trees)
    → begin < end
    → 2 ≤ s.nodes
    → IsValid s
    → (t : Trees) × (remove_free_ranges begin end s ≡ ok t) × Loses 1 (inside begin end) s t
unfolding remove_free_ranges
remove_free_ranges_lem begin end s h two v =
    let (u, run, sep, same, count, spare) =
      remove_range_lem begin end (record { nodes = s.nodes; set = s.free_ranges }) h two
        v.free_valid in
    (
      record { nodes = u.nodes; memory_map = s.memory_map; free_ranges = u.set },
      rw run refl,
      record {
        valid = record { map_valid = v.map_valid; free_valid = sep };
        nodes_left = omega arith;
        same_map = refl;
        covers = same;
      },
    )

and_true : (a : Bool) → a ≡ (a && true)
and_true a = ground arith

and_not : (a b c : Bool) → ((a && not b) && not c) ≡ (a && not (b || c))
and_not a b c = ground arith

pub remove_entries_lem :
    (es : List MmapEntry) (s : Trees)
    → All IsProper es
    → suc (length es) ≤ s.nodes
    → IsValid s
    → (t : Trees) × (for_each remove_entry es s ≡ ok t) × Loses (length es) (in_reserved es) s t
unfolding for_each remove_entry
remove_entries_lem [] s p n v = (
  s,
  refl,
  record {
    valid = v;
    nodes_left = omega arith;
    same_map = refl;
    covers = λ x. (and_true (has s.free_ranges x));
  },
)
remove_entries_lem (e ∷ es) s p n v = elim (Bool-cases (e.kind == 1)) [
  | inl t ↦
      let (u, rest, k) = remove_entries_lem es s p.1 (omega arith) v in
      (
        u,
        rw t rest,
        record {
          valid = k.valid;
          nodes_left = omega (arith, k.nodes_left);
          same_map = k.same_map;
          covers = λ x. rw t (k.covers x);
        },
      )
  | inr t ↦
      let w : (e.addr + e.bytes) % 2 ^ 64 ≡ e.addr + e.bytes = omega (arith, p.0) in
      let (u, run, g) =
        remove_free_ranges_lem e.addr (e.addr + e.bytes) s (omega (arith, p.0)) (omega arith) v in
      let (z, rest, k) = remove_entries_lem es u p.1 (omega (arith, g.nodes_left)) g.valid in
      (
        z,
        bind_ok (for_each remove_entry es)
              (rw t (ap (λ (b : ℕ). remove_free_ranges e.addr b s) w ∙ run))
            ∙ rest,
        record {
          valid = k.valid;
          nodes_left = omega (arith, g.nodes_left, k.nodes_left);
          same_map = k.same_map ∙ g.same_map;
          covers = λ x.
              k.covers x
              ∙ rw (t, g.covers x)
                  (and_not (has s.free_ranges x) (inside e.addr (e.addr + e.bytes) x)
                    (in_reserved es x));
        },
      )
]
