-- ===== src/Balloc.antt =====
-- The boot allocator of src/src/balloc.c: two sets of memory ranges, each in a red-black tree. A set is
-- the list of its ranges in the order of the tree; `rb_prev` and `rb_next` are the neighbours in it.
-- A node comes from a pool of 128, of which the number left is kept. Addresses are below 2^64.
mod Tests
pub mod Sets
pub mod Grown
pub mod Add
pub mod Place
pub mod Alloc
pub mod Minus
pub mod Canonical
pub mod Setup
pub mod Parse
pub mod Ready
pub mod Remove
use spbau_os_hw.Prelude.{
  ℕ, zero, suc, ◌+◌, ◌-◌, ◌*◌, ◌/◌, ◌%◌, ◌^◌, Bool, true, false, not, Option, none, some, List, [],
  ◌∷◌, ◌++◌, ltb, leb, ◌==◌, if◌then◌else◌, length,
}
use spbau_os_hw.Prelude.Run.{Run, ok, bug, ◌>>=◌, ◌>>◌, bug_on}
use spbau_os_hw.Prelude.Words.{word_and}
use spbau_os_hw.RbTree.Walk.{first_of, last_of}
use spbau_os_hw.RbTree.Search.{upto, from}

-- `struct memory_node`, less its links.
pub record Range : Type 0 where
  pub begin : ℕ
  pub end : ℕ

-- A set, and how many nodes are left.
pub record Ranges : Type 0 where
  pub nodes : ℕ
  pub set : List Range

-- BALLOC_MAX_RANGES, all in the list of free nodes after `balloc_setup_nodes`.
abbrev pub max_ranges : ℕ
max_ranges = 128

unfoldable pub balloc_alloc_node : ℕ → Run ℕ
balloc_alloc_node zero = bug
balloc_alloc_node (suc n) = ok n

-- The list without its last range.
abbrev pub but_last : List Range → List Range
but_last [] = []
but_last (r ∷ []) = []
but_last (r ∷ q ∷ rs) = r ∷ but_last (q ∷ rs)

-- What lies before a node, the node, what lies behind it, and the nodes left.
pub record Around : Type 0 where
  pub lower : List Range
  pub new : Range
  pub upper : List Range
  pub nodes : ℕ

-- The previous range is taken into the new one, if they overlap or touch.
unfoldable pub merge_prev : Option Range → Around → Around
merge_prev none a = a
merge_prev (some prev) a =
    if leb a.new.begin prev.end
    then record a {
      lower = but_last a.lower;
      new = record {
        begin = prev.begin;
        end = if ltb a.new.end prev.end then prev.end else a.new.end;
      };
      nodes = suc a.nodes;
    }
    else a

-- The next range likewise; its end becomes the end of the new one.
unfoldable pub merge_next : List Range → Around → Around
merge_next [] a = a
merge_next (next ∷ rest) a =
    if leb next.begin a.new.end
    then record a {
      new = record { begin = a.new.begin; end = next.end };
      upper = rest;
      nodes = suc a.nodes;
    }
    else a

abbrev pub together : Around → Ranges
together a = record { nodes = a.nodes; set = a.lower ++ a.new ∷ a.upper }

-- The merging, and the set afterwards.
unfoldable pub settle : Around → Ranges
settle a = let b = merge_prev (last_of a.lower) a in together (merge_next b.upper b)

-- The set with the new range linked and merged, when `nodes` are left after its own.
abbrev pub place : (begin end : ℕ) → (nodes : ℕ) → List Range → Ranges
place begin end nodes set = settle (record {
  lower = upto (λ r. ltb r.begin begin) set;
  new = record { begin = begin; end = end };
  upper = from (λ r. ltb r.begin begin) set;
  nodes = nodes;
})

-- `__balloc_add_range`
unfoldable pub add_range : (begin end : ℕ) → Ranges → Run Ranges
add_range begin end s = balloc_alloc_node s.nodes >>= λ nodes. ok (place begin end nodes s.set)

-- `rb_erase` of a node, which the beginning of its range identifies.
unfoldable pub erase : Range → List Range → List Range
erase r [] = []
erase r (q ∷ s) = let rest = erase r s in if q.begin == r.begin then s else q ∷ rest

-- `rb_next` of that node.
unfoldable pub next_of : Range → List Range → Option Range
next_of r [] = none
next_of r (q ∷ s) = let rest = next_of r s in if q.begin == r.begin then first_of s else rest

-- A part of a range that was taken out goes back, if it is not empty.
unfoldable pub add_part : (begin end : ℕ) → Ranges → Run Ranges
add_part begin end s = if ltb begin end then add_range begin end s else ok s

-- `balloc_free_node` of the range that was taken out.
unfoldable pub free_node : Ranges → Ranges
free_node s = record s { nodes = suc s.nodes }

-- The second loop of `__balloc_remove_range`, at a range.
unfoldable pub remove_loop : (fuel begin end : ℕ) → Option Range → Ranges → Run Ranges
remove_loop zero begin end ptr s = bug
remove_loop (suc f) begin end none s = ok s
remove_loop (suc f) begin end (some r) s =
    let next = next_of r s.set in
    let rest : Run Ranges = (do
      s1 ←
          add_part r.begin (if ltb r.begin begin then begin else r.begin)
            (record s { set = erase r s.set })
      s2 ← add_part (if ltb end r.end then end else r.end) r.end s1
      remove_loop f begin end next (free_node s2)) in
    if ltb r.begin end then rest else ok s

-- `__balloc_remove_range`; the loop has a round for each range, and one more.
unfoldable pub remove_range : (begin end : ℕ) → Ranges → Run Ranges
remove_range begin end s =
    remove_loop (suc (length s.set)) begin end (first_of (from (λ r. leb r.end begin) s.set)) s

-- The place in a range that the allocation tries: the part of the range between `low` and `high`,
-- and the address in it that the code takes for the first aligned one.
abbrev pub clip_begin : ℕ → Range → ℕ
clip_begin low r = if ltb low r.begin then r.begin else low

abbrev pub clip_end : ℕ → Range → ℕ
clip_end high r = if ltb r.end high then r.end else high

abbrev pub align_at : ℕ → ℕ → ℕ
align_at align b =
    let mask = (align + (2 ^ 64 - 1)) % 2 ^ 64 in
    word_and 64 ((b + mask) % 2 ^ 64) (2 ^ 64 - 1 - mask)

-- The second loop of `__balloc_alloc`, over the ranges from the one found on.
unfoldable pub alloc_loop : (size align low high : ℕ) → List Range → Ranges → Run (ℕ × Ranges)
alloc_loop size align low high [] s = ok (high, s)
alloc_loop size align low high (r ∷ todo) s =
    let rest = alloc_loop size align low high todo s in
    let addr = align_at align (clip_begin low r) in
    let take : Run (ℕ × Ranges) = (do
      s1 ← add_part r.begin addr (record s { set = erase r s.set })
      s2 ← add_part ((addr + size) % 2 ^ 64) r.end s1
      ok (addr, free_node s2)) in
    if ltb r.begin high
    then if leb ((addr + size) % 2 ^ 64) (clip_end high r) then take else rest
    else ok (high, s)

-- `__balloc_alloc`
unfoldable pub balloc_alloc_aligned : (size align low high : ℕ) → Ranges → Run (ℕ × Ranges)
balloc_alloc_aligned size align low high s =
    alloc_loop size align low high (from (λ r. leb r.end low) s.set) s

abbrev pub default_align : ℕ → ℕ
default_align size =
    if leb size 8 then 8 else if leb size 16 then 16 else if leb size 32 then 32 else 64

unfoldable pub balloc_alloc : (size low high : ℕ) → Ranges → Run (ℕ × Ranges)
balloc_alloc size low high s = balloc_alloc_aligned size (default_align size) low high s

unfoldable pub balloc_free : (begin end : ℕ) → Ranges → Run Ranges
balloc_free begin end s = add_range begin end s

-- `balloc_memory`: the end of the last range of the memory map.
unfoldable pub balloc_memory : List Range → Option ℕ
balloc_memory map = elim (last_of map) [ none ↦ none | some r ↦ some r.end ]
