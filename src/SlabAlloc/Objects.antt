-- ===== src/SlabAlloc/Objects.antt =====
-- The objects of one pool: `mem_pool_alloc` hands out a free object and `mem_pool_free` takes it
-- back. A bit of the bitmap is on for an object in use, and for the places behind the last object.
use native.Mathlib.Decide.{dec_lt, ℕ_discrete}
use native.Mathlib.Nat.{pow-suc}
use spbau_os_hw.Prelude.{
  ℕ, zero, suc, ◌+◌, ◌-◌, ◌*◌, ◌/◌, ◌%◌, ◌^◌, ◌≤◌, ◌<◌, ◌≡◌, ◌≢◌, refl, sym, ◌∙◌, ap, subst, Bool,
  true, false, inl, inr, ◌⊎◌, none, some, arith, if◌then◌else◌, List, [], ◌∷◌, All, get_or, length,
  ==_iff, ==_ne,
}
use spbau_os_hw.Prelude.Bits.{test_bit, set_bit, test_bit-set_bit, test_bit-set_bit_ne}
use spbau_os_hw.Prelude.Run.{ok}
use spbau_os_hw.SlabAlloc.{Layout, Pool, all_ones, ffs, take_bit, behind, mem_pool_alloc}
use spbau_os_hw.SlabAlloc.Bitmap.{free_bit, test_bit-complement}

-- The bit for the object at `pos`.
abbrev pub bit_at : List ℕ → ℕ → Bool
bit_at ws pos = test_bit (get_or ws (pos / 64) 0) (pos % 64)

bit_at_low : (w : ℕ) (ws : List ℕ) (j : ℕ) → j < 64 → bit_at (w ∷ ws) j ≡ test_bit w j
bit_at_low w ws j h =
    let d : j / 64 ≡ 0 = omega arith in let m : j % 64 ≡ j = omega arith in rw (d, m)

bit_at_high : (w : ℕ) (ws : List ℕ) (j : ℕ) → 64 ≤ j → bit_at (w ∷ ws) j ≡ bit_at ws (j - 64)
bit_at_high w ws j h =
    let d : j / 64 ≡ suc ((j - 64) / 64) = omega arith in
    let m : j % 64 ≡ (j - 64) % 64 = omega arith in rw (d, m)

abbrev pub IsWords : List ℕ → Type 0
IsWords ws = All (λ w. w < 2 ^ 64) ws

-- `vs` is `ws` with the bit at `i` switched from off to on.
pub record Taken (ws vs : List ℕ) (i : ℕ) : Type 0 where
  pub off : bit_at ws i ≡ false
  pub on : bit_at vs i ≡ true
  pub same : (j : ℕ) → j ≢ i → bit_at vs j ≡ bit_at ws j
  pub inside : i < 64 * length ws
  pub count : length vs ≡ length ws
  pub words : IsWords vs
  pub lowest : (j : ℕ) → j < i → bit_at ws j ≡ true

test_bit_zero : (j : ℕ) → test_bit 0 j ≡ false
unfolding test_bit
test_bit_zero zero = refl
test_bit_zero (suc j) = test_bit_zero j

test_bit-ones : (j : ℕ) → j < 64 → test_bit all_ones j ≡ true
test_bit-ones j h = ground (arith, test_bit-complement 64 0 j (omega arith) h, test_bit_zero j)

set_bit-lt : (n w k : ℕ) → w < 2 ^ n → k < n → set_bit w k < 2 ^ n
unfolding set_bit
set_bit-lt zero w k h l = absurd (omega arith)
set_bit-lt (suc n) w zero h l = omega (arith, pow-suc 2 n)
set_bit-lt (suc n) w (suc k) h l =
    omega (arith, pow-suc 2 n, set_bit-lt n (w / 2) k (omega (arith, pow-suc 2 n)) (omega arith))

take_here :
    (w : ℕ) (ws : List ℕ)
    → IsWords (w ∷ ws)
    → w ≢ all_ones
    → Taken (w ∷ ws) (set_bit w (ffs (all_ones - w)) ∷ ws) (ffs (all_ones - w))
take_here w ws h n =
    let b = ffs (all_ones - w) in
    let (l, off, low) = free_bit w h.0 n in
    record {
      off = bit_at_low w ws b l ∙ off;
      on = bit_at_low (set_bit w b) ws b l ∙ test_bit-set_bit w b;
      same = λ j d. elim (dec_lt j 64) [
        | yes a ↦
            bit_at_low (set_bit w b) ws j a
            ∙ test_bit-set_bit_ne w j b d
            ∙ sym (bit_at_low w ws j a)
        | no a ↦
            bit_at_high (set_bit w b) ws j (omega arith) ∙ sym (bit_at_high w ws j (omega arith))
      ];
      inside = omega arith;
      count = refl;
      words = (set_bit-lt 64 w b h.0 l, h.1);
      lowest = λ j d. bit_at_low w ws j (omega arith) ∙ low j d;
    }

take_later :
    (w : ℕ) (ws vs : List ℕ) (i : ℕ)
    → w < 2 ^ 64
    → w ≡ all_ones
    → Taken ws vs i
    → Taken (w ∷ ws) (w ∷ vs) (64 + i)
take_later w ws vs i l e t =
    let d : 64 + i - 64 ≡ i = omega arith in
    record {
      off = bit_at_high w ws (64 + i) (omega arith) ∙ rw d t.off;
      on = bit_at_high w vs (64 + i) (omega arith) ∙ rw d t.on;
      same = λ j n. elim (dec_lt j 64) [
        | yes a ↦ bit_at_low w vs j a ∙ sym (bit_at_low w ws j a)
        | no a ↦
            bit_at_high w vs j (omega arith)
            ∙ t.same (j - 64) (omega arith)
            ∙ sym (bit_at_high w ws j (omega arith))
      ];
      inside = omega (arith, t.inside);
      count = ap suc t.count;
      words = (l, t.words);
      lowest = λ j n. elim (dec_lt j 64) [
        | yes a ↦ bit_at_low w ws j a ∙ rw e (test_bit-ones j a)
        | no a ↦ bit_at_high w ws j (omega arith) ∙ t.lowest (j - 64) (omega arith)
      ];
    }

-- The scan: it fails only if every bit is on, and else takes the first bit that is off.
pub take_bit-Taken :
    (word : ℕ) (ws : List ℕ)
    → IsWords ws
    → ((take_bit word ws ≡ none) × ((j : ℕ) → j < 64 * length ws → bit_at ws j ≡ true))
      ⊎ ((i : ℕ) × (vs : List ℕ) × (take_bit word ws ≡ some (64 * word + i, vs)) × Taken ws vs i)
unfolding take_bit
take_bit-Taken word [] h = inl (refl, λ j l. absurd (omega arith))
take_bit-Taken word (w ∷ ws) h = elim (ℕ_discrete w all_ones) [
  | no n ↦ inr (
    ffs (all_ones - w),
    set_bit w (ffs (all_ones - w)) ∷ ws,
    rw (==_ne w all_ones n),
    take_here w ws h n,
  )
  | yes e ↦ elim (take_bit-Taken (suc word) ws h.1) [
    | inl (d, full) ↦ inl (
      rw ((==_iff w all_ones).1 e) (ap (behind w) d),
      λ j l. elim (dec_lt j 64) [
        | yes a ↦ bit_at_low w ws j a ∙ rw e (test_bit-ones j a)
        | no a ↦ bit_at_high w ws j (omega arith) ∙ full (j - 64) (omega arith)
      ],
    )
    | inr (i, vs, d, t) ↦ inr (
      64 + i,
      w ∷ vs,
      rw ((==_iff w all_ones).1 e) (ap (behind w) d ∙ ap (λ k. some (k, w ∷ vs)) (omega arith)),
      take_later w ws vs i h.0 e t,
    )
  ]
]

-- How many of the first `n` bits are on.
unfoldable pub used : List ℕ → ℕ → ℕ
used ws zero = 0
used ws (suc n) = used ws n + (if bit_at ws n then 1 else 0)

used_le : (ws : List ℕ) (n : ℕ) → used ws n ≤ n
unfolding used
used_le ws zero = omega arith
used_le ws (suc n) = ground (arith, used_le ws n)

used_all : (ws : List ℕ) (n : ℕ) → ((j : ℕ) → j < n → bit_at ws j ≡ true) → used ws n ≡ n
unfolding used
used_all ws zero h = refl
used_all ws (suc n) h =
    rw (h n (omega arith)) (omega (arith, used_all ws n (λ j l. h j (omega arith))))

used_same :
    (ws vs : List ℕ) (n : ℕ) → ((j : ℕ) → j < n → bit_at vs j ≡ bit_at ws j) → used vs n ≡ used ws n
unfolding used
used_same ws vs zero h = refl
used_same ws vs (suc n) h = rw (h n (omega arith), used_same ws vs n (λ j l. h j (omega arith)))

-- One bit more is on.
pub used_more :
    (ws vs : List ℕ) (n i : ℕ)
    → i < n
    → bit_at ws i ≡ false
    → bit_at vs i ≡ true
    → ((j : ℕ) → j ≢ i → bit_at vs j ≡ bit_at ws j)
    → used vs n ≡ used ws n + 1
unfolding used
used_more ws vs zero i l off on same = absurd (omega arith)
used_more ws vs (suc n) i l off on same = elim (ℕ_discrete i n) [
  | yes e ↦
      rw
        (
          subst (λ k. bit_at ws k ≡ false) e off,
          subst (λ k. bit_at vs k ≡ true) e on,
          used_same ws vs n (λ j l. same j (omega arith)),
        )
        (omega arith)
  | no e ↦
      rw (same n (λ t. e (sym t))) (omega (arith, used_more ws vs n i (omega arith) off on same))
]

-- A pool of a cache: the bitmap has a bit for each object, the bits behind the last object are on,
-- and `free` counts the objects whose bit is off.
pub record IsPool (c : Layout) (p : Pool) : Type 0 where
  pub length_eq : length p.bitmask ≡ c.mask_words
  pub enough : c.obj_count ≤ 64 * c.mask_words
  pub words : IsWords p.bitmask
  pub tail_on : (j : ℕ) → c.obj_count ≤ j → j < 64 * c.mask_words → bit_at p.bitmask j ≡ true
  pub counted : p.free + used p.bitmask c.obj_count ≡ c.obj_count

object_in :
    (c : Layout) (p : Pool)
    → IsPool c p
    → (i : ℕ) → bit_at p.bitmask i ≡ false
    → i < 64 * c.mask_words
    → i < c.obj_count
object_in c p h i off l = elim (dec_lt i c.obj_count) [
  | yes a ↦ a
  | no a ↦ cc (h.tail_on i (omega arith) l)
]

-- If a pool of the cache has a free object, `mem_pool_alloc` returns the address of the first free
-- one, and what is left is a pool of the cache that differs in that the object is in use and one
-- less is free; its objects stay where they are.
pub mem_pool_alloc-IsPool :
    (c : Layout) (p : Pool)
    → IsPool c p
    → 0 < p.free
    → (i : ℕ) × (q : Pool) × (mem_pool_alloc c p ≡ ok (p.base + i * c.obj_size, q))
      × (i < c.obj_count)
      × Taken p.bitmask q.bitmask i
      × (q.free + 1 ≡ p.free)
      × IsPool c q
      × (q.base ≡ p.base)
unfolding mem_pool_alloc
mem_pool_alloc-IsPool c p h f = elim (take_bit-Taken 0 p.bitmask h.words) [
  | inl (e, full) ↦ absurd (
      omega (
        arith,
        h.counted,
        used_all p.bitmask c.obj_count (λ j l. full j (omega (arith, h.length_eq, h.enough))),
      ))
  | inr (i, vs, e, t) ↦
      let in_count : i < c.obj_count =
        object_in c p h i t.off (omega (arith, t.inside, h.length_eq)) in
      let z : 64 * 0 + i ≡ i = omega arith in
      (
        i,
        record p { bitmask = vs; free = p.free - 1 },
        rw (==_ne p.free 0 (omega arith), e, z),
        in_count,
        t,
        omega arith,
        record {
          length_eq = t.count ∙ h.length_eq;
          enough = h.enough;
          words = t.words;
          tail_on = λ j a b. t.same j (omega arith) ∙ h.tail_on j a b;
          counted =
              omega
                (arith, h.counted, used_more p.bitmask vs c.obj_count i in_count t.off t.on t.same);
        },
        refl,
      )
]
