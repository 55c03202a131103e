-- ===== src/SlabAlloc/Release.antt =====
-- `mem_pool_free`: an object in use is taken back; a pointer to anything else stops in a `BUG`.
use native.Mathlib.Decide.{ℕ_discrete}
use native.Mathlib.Nat.{mul-add-div_right, div-eq_of_lt}
use spbau_os_hw.Prelude.{
  ℕ, zero, suc, ◌+◌, ◌-◌, ◌*◌, ◌/◌, ◌%◌, ◌^◌, ◌≤◌, ◌<◌, ◌≡◌, ◌≢◌, refl, sym, ◌∙◌, ap, subst, true,
  false, Bool-cases, inl, inr, ◌⊎◌, arith, leb, ◌==◌, if◌then◌else◌, List, [], ◌∷◌, All, get_or,
  set, length, ==_iff, ==_ne, ==_refl, gt→leb, ge→ltb, length-set, le→leb,
}
use spbau_os_hw.Prelude.Bits.{
  test_bit, clear_bit, test_bit-clear_bit, test_bit-clear_bit_ne, clear_bit-add, clear_bit_off,
}
use spbau_os_hw.Prelude.Run.{ok, bug}
use spbau_os_hw.SlabAlloc.{Layout, Pool, mem_pool_free}
use spbau_os_hw.SlabAlloc.Objects.{bit_at, used, used_more, IsPool}

get_or-set :
    (ws : List ℕ) (k v j : ℕ)
    → k < length ws
    → get_or (set ws k v) j 0 ≡ (if j == k then v else get_or ws j 0)
get_or-set [] k v j h = absurd (omega arith)
get_or-set (w ∷ ws) zero v zero h = refl
get_or-set (w ∷ ws) zero v (suc j) h = ground arith
get_or-set (w ∷ ws) (suc k) v zero h = ground arith
get_or-set (w ∷ ws) (suc k) v (suc j) h = ground (arith, get_or-set ws k v j (omega arith))

clear_bit_le : (w k : ℕ) → clear_bit w k ≤ w
clear_bit_le w k = elim (Bool-cases (test_bit w k)) [
  | inl on ↦ omega (arith, clear_bit-add w k on)
  | inr off ↦ omega (arith, clear_bit_off w k off)
]

All-set : (P : ℕ → Type 0) (ws : List ℕ) (k v : ℕ) → P v → All P ws → All P (set ws k v)
All-set P [] k v h a = tt
All-set P (w ∷ ws) zero v h a = (h, a.1)
All-set P (w ∷ ws) (suc k) v h a = (a.0, All-set P ws k v h a.1)

All-get_or : (P : ℕ → Type 0) (ws : List ℕ) (k : ℕ) → P 0 → All P ws → P (get_or ws k 0)
All-get_or P [] k h a = h
All-get_or P (w ∷ ws) zero h a = a.0
All-get_or P (w ∷ ws) (suc k) h a = All-get_or P ws k h a.1

-- The bitmap with the bit at `i` cleared.
abbrev pub cleared : List ℕ → ℕ → List ℕ
cleared ws i = set ws (i / 64) (clear_bit (get_or ws (i / 64) 0) (i % 64))

cleared_self : (ws : List ℕ) (i : ℕ) → i / 64 < length ws → bit_at (cleared ws i) i ≡ false
cleared_self ws i h =
    rw
      (
        get_or-set ws (i / 64) (clear_bit (get_or ws (i / 64) 0) (i % 64)) (i / 64) h,
        ==_refl (i / 64),
      )
      (test_bit-clear_bit (get_or ws (i / 64) 0) (i % 64))

cleared_other :
    (ws : List ℕ) (i j : ℕ) → i / 64 < length ws → j ≢ i → bit_at (cleared ws i) j ≡ bit_at ws j
cleared_other ws i j h n = elim (ℕ_discrete (j / 64) (i / 64)) [
  | no d ↦ rw (
    get_or-set ws (i / 64) (clear_bit (get_or ws (i / 64) 0) (i % 64)) (j / 64) h,
    ==_ne (j / 64) (i / 64) d,
  )
  | yes d ↦
      rw
        (
          get_or-set ws (i / 64) (clear_bit (get_or ws (i / 64) 0) (i % 64)) (j / 64) h,
          (==_iff (j / 64) (i / 64)).1 d,
        )
        (test_bit-clear_bit_ne (get_or ws (i / 64) 0) (j % 64) (i % 64) (λ t. n (omega arith))
          ∙ ap (λ k. test_bit (get_or ws k 0) (j % 64)) (sym d))
]

used_pos : (ws : List ℕ) (n i : ℕ) → i < n → bit_at ws i ≡ true → 1 ≤ used ws n
unfolding used
used_pos ws zero i h e = absurd (omega arith)
used_pos ws (suc n) i h e = elim (ℕ_discrete i n) [
  | yes t ↦ rw (subst (λ k. bit_at ws k ≡ true) t e) (omega arith)
  | no t ↦ omega (arith, used_pos ws n i (omega arith) e)
]

-- A pointer into the object at place `i` stands for that place.
place : (base i size d : ℕ) → d < size → (base + (i * size + d) - base) / size ≡ i
place base i size d h =
    let e : base + (i * size + d) - base ≡ i * size + d = omega arith in
    rw (e, mul-add-div_right {m = size} (omega arith) i d, div-eq_of_lt h) (omega arith)

-- If the object at place `i` of a pool of the cache is in use, `mem_pool_free` of a pointer into it
-- ends without a `BUG`, with a pool of the cache: the object's bit is off afterwards, no other bit
-- changes, and one more is free.
pub mem_pool_free-IsPool :
    (c : Layout) (p : Pool) (i d : ℕ)
    → IsPool c p
    → i < c.obj_count
    → d < c.obj_size
    → bit_at p.bitmask i ≡ true
    → (q : Pool) × (mem_pool_free c p (p.base + (i * c.obj_size + d)) ≡ ok q)
      × IsPool c q
      × (bit_at q.bitmask i ≡ false)
      × ((j : ℕ) → j ≢ i → bit_at q.bitmask j ≡ bit_at p.bitmask j)
      × (q.free ≡ p.free + 1)
unfolding mem_pool_free
mem_pool_free-IsPool c p i d h l s on =
    let ws = p.bitmask in
    let vs = cleared ws i in
    let inside : i / 64 < length ws = omega (arith, h.length_eq, h.enough) in
    let off = cleared_self ws i inside in
    let same = λ (j : ℕ) (n : j ≢ i). cleared_other ws i j inside n in
    let more = used_more vs ws c.obj_count i l off on (λ j n. sym (same j n)) in
    (
      record p { bitmask = vs; free = p.free + 1 },
      rw (
        place p.base i c.obj_size d s,
        gt→leb c.obj_count i l,
        on,
        ge→ltb c.obj_count (p.free + 1) (omega (arith, h.counted, more)),
      ),
      record {
        length_eq =
            length-set ws (i / 64) (clear_bit (get_or ws (i / 64) 0) (i % 64)) ∙ h.length_eq;
        enough = h.enough;
        words =
            All-set (λ w. w < 2 ^ 64) ws (i / 64) (clear_bit (get_or ws (i / 64) 0) (i % 64))
              (omega (
                arith,
                clear_bit_le (get_or ws (i / 64) 0) (i % 64),
                All-get_or (λ w. w < 2 ^ 64) ws (i / 64) (omega arith) h.words,
              ))
              h.words;
        tail_on = λ j a b. same j (omega arith) ∙ h.tail_on j a b;
        counted = omega (arith, h.counted, more);
      },
      off,
      same,
      refl,
    )

-- `mem_pool_free` of a pointer to a place behind the last object, or to an object that is not in
-- use, as in a second free, stops in a `BUG`.
pub mem_pool_free-bug :
    (c : Layout) (p : Pool) (i d : ℕ)
    → d < c.obj_size
    → (c.obj_count ≤ i) ⊎ (bit_at p.bitmask i ≡ false)
    → mem_pool_free c p (p.base + (i * c.obj_size + d)) ≡ bug
unfolding mem_pool_free
mem_pool_free-bug c p i d s (inl far) = rw (place p.base i c.obj_size d s, le→leb c.obj_count i far)
mem_pool_free-bug c p i d s (inr off) = elim (Bool-cases (leb c.obj_count i)) [
  | inl far ↦ rw (place p.base i c.obj_size d s, far)
  | inr near ↦ rw (place p.base i c.obj_size d s, near, off)
]
