-- ===== src/SlabAlloc/Sizes.antt =====
-- The arithmetic of alloc.c: logarithm, rounding, and the layout of a pool.
use native.Mathlib.Nat.{pow-suc, div-add-mod, mod-lt, mul-mod_right}
use spbau_os_hw.Prelude.{
  ℕ, zero, suc, ◌+◌, ◌-◌, ◌*◌, ◌/◌, ◌%◌, ◌^◌, ◌≤◌, ◌<◌, ◌≡◌, ◌≢◌, ltb→lt, refl, ap, Bool-cases, inl,
  inr, ◌⊎◌, some, arith, ltb, true,
}
use spbau_os_hw.PageAlloc.{page_shift}
use spbau_os_hw.PageAlloc.Blocks.{pow_pos}
use spbau_os_hw.SlabAlloc.{
  Layout, ilog2_loop, ilog2, ceil, floor, align_up, align_down, meta_size, min_pool_objs, fit_objs,
  layout_setup,
}

-- `p` is the least power: `x ≤ 2 ^ p`, and no smaller power will do.
pub record Log (x p : ℕ) : Type 0 where
  pub enough : x ≤ 2 ^ p
  pub least : (p ≡ 0) ⊎ (2 ^ p < 2 * x)

-- A power of two below 2 ^ 63 can be doubled.
halved : (f val : ℕ) → val * 2 ^ suc f ≡ 2 ^ 64 → val < 2 ^ 63 → val * 2 ≤ 2 ^ 63
halved zero val e h = omega (arith, e)
halved (suc f) val e h =
    let d : val * 2 * 2 ^ f * 2 ≡ 2 ^ 64 = omega (
      arith,
      e,
      ap (λ (i : ℕ). val * i) (pow-suc 2 (suc f)),
      ap (λ (i : ℕ). val * i * 2) (pow-suc 2 f),
    ) in
    let p = pow_pos f in grind arith

ilog2_loop-Log :
    (f x val power : ℕ)
    → x ≤ 2 ^ 63
    → val ≤ 2 ^ 63
    → val * 2 ^ f ≡ 2 ^ 64
    → val ≡ 2 ^ power
    → (power ≡ 0) ⊎ (val < 2 * x)
    → (p : ℕ) × (ilog2_loop f x val power ≡ some p) × Log x p
unfolding ilog2_loop
ilog2_loop-Log zero x val power b c e v m = absurd (omega (arith, e, c))
ilog2_loop-Log (suc f) x val power b c e v m = elim (Bool-cases (ltb val x)) [
  | inr stop ↦ (power, rw stop, record { enough = ground arith; least = ground arith })
  | inl go ↦
      let small : val * 2 ≤ 2 ^ 63 = halved f val e (ground arith) in
      let same : val * 2 % 2 ^ 64 ≡ val * 2 = omega arith in
      let (p, d, r) =
        ilog2_loop-Log f x (val * 2 % 2 ^ 64) (suc power) b (omega arith)
          (rw same (omega (arith, e, ap (λ (i : ℕ). val * i) (pow-suc 2 f))))
          (omega (arith, pow-suc 2 power)) (inr (ground arith)) in
      (p, rw go d, r)
]

-- For an argument up to 2 ^ 63 the loop ends, and the result is the logarithm, rounded up.
pub ilog2-Log : (x : ℕ) → x ≤ 2 ^ 63 → (p : ℕ) × (ilog2 x ≡ some p) × Log x p
unfolding ilog2
ilog2-Log x h = ilog2_loop-Log 64 x 1 0 h (omega arith) refl refl (inl refl)

-- `align_up` is the least multiple of `align` that is not below `size`, for an `align` that is
-- not 0.
pub align_up-bounds :
    (size align : ℕ)
    → 0 < align
    → (size ≤ align_up size align)
      × (align_up size align < size + align)
      × (align_up size align % align ≡ 0)
unfolding align_up ceil
align_up-bounds size align h =
    let d = div-add-mod (size + align - 1) align in
    let m = mod-lt (size + align - 1) h in
    (omega (arith, d, m), omega (arith, d, m), mul-mod_right align _)

-- `align_down` is the greatest multiple of `align` that is not above `size`, for an `align` that is
-- not 0.
pub align_down-bounds :
    (size align : ℕ)
    → 0 < align
    → (align_down size align ≤ size)
      × (size < align_down size align + align)
      × (align_down size align % align ≡ 0)
unfolding align_down floor
align_down-bounds size align h =
    let d = div-add-mod size align in
    let m = mod-lt size h in (omega (arith, d, m), omega (arith, d, m), mul-mod_right align _)

-- What the objects and the metadata of a pool take.
abbrev pub pool_use : ℕ → ℕ → ℕ
pool_use obj_size objs = obj_size * objs + meta_size objs

fit_objs-fits :
    (pool_size obj_size n : ℕ)
    → meta_size 0 ≤ pool_size
    → pool_use obj_size (fit_objs pool_size obj_size n) ≤ pool_size
unfolding fit_objs
fit_objs-fits pool_size obj_size zero h = omega arith
fit_objs-fits pool_size obj_size (suc n) h = ground (arith, fit_objs-fits pool_size obj_size n h)

below : (k n : ℕ) → k ≤ suc n → k ≢ suc n → k ≤ n
below k n h e = omega arith

over_use :
    (obj_size pool_size n k : ℕ)
    → ltb pool_size (obj_size * suc n + meta_size (suc n)) ≡ true
    → pool_use obj_size k ≤ pool_size
    → k ≢ suc n
over_use obj_size pool_size n k over u t =
    omega (arith, ltb→lt _ _ over, ap (λ i. pool_use obj_size i) t)

fit_objs-most :
    (pool_size obj_size n k : ℕ)
    → k ≤ n
    → pool_use obj_size k ≤ pool_size
    → k ≤ fit_objs pool_size obj_size n
unfolding fit_objs
fit_objs-most pool_size obj_size zero k h u = omega arith
fit_objs-most pool_size obj_size (suc n) k h u =
    elim (Bool-cases (ltb pool_size (obj_size * suc n + meta_size (suc n)))) [
      | inl over ↦ rw over (
          fit_objs-most pool_size obj_size n k
            (below k n h (over_use obj_size pool_size n k over u)) u)
      | inr fits ↦ rw fits h
    ]

-- What holds of the layout of a cache: the pool has room for its objects and, at its end, for its
-- metadata, the bitmap has a bit for each object, and no more objects would fit.
pub record IsLayout (size align : ℕ) (c : Layout) : Type 0 where
  pub obj_size : c.obj_size ≡ align_up size align
  pub meta : c.meta_offs + meta_size c.obj_count ≡ 2 ^ (c.pool_order + page_shift)
  pub room : c.obj_size * c.obj_count ≤ c.meta_offs
  pub words : c.mask_words ≡ ceil c.obj_count 64
  pub most :
      (k : ℕ)
      → k ≤ 2 ^ (c.pool_order + page_shift) / c.obj_size
      → pool_use c.obj_size k ≤ 2 ^ (c.pool_order + page_shift)
      → k ≤ c.obj_count

meta_none : meta_size 0 ≡ 40
unfolding meta_size align_up ceil
meta_none = refl

page-le-pool : (p : ℕ) → 2 ^ 12 ≤ 2 ^ (p + 12)
page-le-pool zero = omega arith
page-le-pool (suc p) =
    let e : suc p + 12 ≡ suc (p + 12) = omega arith in
    rw e (omega (arith, pow-suc 2 (p + 12), page-le-pool p))

-- The least pool that is asked for.
abbrev pub min_size : ℕ → ℕ → ℕ
min_size size align = align_up size align * min_pool_objs + meta_size min_pool_objs

-- For a size and an alignment that are not 0, if eight objects and their metadata take at most
-- 2 ^ 63 bytes, the layout of a cache is made: the size of an object is rounded up to a multiple of
-- the alignment; the metadata ends where the pool ends, and the objects end before it; the bitmap has
-- the least number of words with a bit for each object; and no greater number of objects would leave
-- room for its metadata.
pub layout_setup-IsLayout :
    (size align : ℕ)
    → 0 < size
    → 0 < align
    → min_size size align ≤ 2 ^ 63
    → (c : Layout) × (layout_setup size align ≡ some c) × IsLayout size align c
unfolding layout_setup
layout_setup-IsLayout size align some_size some_align h =
    let (p, e, l) = ilog2-Log (min_size size align / 2 ^ page_shift) (omega arith) in
    let obj = align_up size align in
    let pool = 2 ^ (p + page_shift) in
    let n = fit_objs pool obj (pool / obj) in
    let fits = fit_objs-fits pool obj (pool / obj) (omega (arith, meta_none, page-le-pool p)) in
    (
      record {
        meta_offs = pool - meta_size n;
        obj_count = n;
        mask_words = ceil n 64;
        obj_size = obj;
        pool_order = p;
      },
      rw (e, layout_setup),
      record {
        obj_size = refl;
        meta = omega (arith, fits);
        room = omega (arith, fits);
        words = refl;
        most = λ k a b. fit_objs-most pool obj (pool / obj) k a b;
      },
    )
