-- ===== src/PageTables/Cells.antt =====
-- The cells that the entries of src/src/paging.c divide the addresses into, at each level.
use spbau_os_hw.Prelude.{
  ℕ, zero, suc, ◌+◌, ◌-◌, ◌*◌, ◌/◌, ◌%◌, ◌^◌, ◌≤◌, ◌<◌, ◌≡◌, refl, sym, ◌∙◌, ◌⊎◌, inl, inr, arith,
  if◌then◌else◌, ltb, Bool-cases, ltb→lt,
}
use spbau_os_hw.PageTables.{pml_size, map_end}

abbrev pub IsLevel : ℕ → Type 0
IsLevel l = (1 ≤ l) × (l ≤ 4)

by_level {ℓ} : (P : ℕ → Type ℓ) → P 1 → P 2 → P 3 → P 4 → (l : ℕ) → IsLevel l → P l
by_level P a b c d zero (h, k) = absurd (omega (arith, h))
by_level P a b c d (suc zero) h = a
by_level P a b c d (suc (suc zero)) h = b
by_level P a b c d (suc (suc (suc zero))) h = c
by_level P a b c d (suc (suc (suc (suc zero)))) h = d
by_level P a b c d (suc (suc (suc (suc (suc l))))) (h, k) = absurd (omega (arith, k))

abbrev pub cell : (level addr : ℕ) → ℕ
cell level addr = addr / pml_size level

-- Each cell has 512 of the level below.
pub cell-cell : (l a : ℕ) → IsLevel (suc l) → 1 ≤ l → cell (suc l) a ≡ cell l a / 512
cell-cell zero a h k = absurd (omega (arith, k))
cell-cell (suc zero) a h k = omega arith
cell-cell (suc (suc zero)) a h k = omega arith
cell-cell (suc (suc (suc zero))) a h k = omega arith
cell-cell (suc (suc (suc (suc l)))) a (i, j) k = absurd (omega (arith, j))

-- A round of the loop, which maps up to `last`.
pub record Round (level begin end last : ℕ) : Type 0 where
  pub from_begin : begin ≤ last
  pub up_to_end : last ≤ end
  pub same_cell : cell level last ≡ cell level begin
  pub size : (last + 2 ^ 64 - begin + 1) % 2 ^ 64 ≡ suc last - begin
  pub progress :
      ((cell level end ≡ cell level begin) × (last ≡ end))
      ⊎ ((cell level begin < cell level end)
          × (last < end)
          × (cell level (suc last) ≡ suc (cell level begin))
          × (suc last % pml_size level ≡ 0))

-- The last address of the cell of `begin`.
abbrev cell_last : (level begin : ℕ) → ℕ
cell_last level begin = cell level begin * pml_size level + (pml_size level - 1)

-- The facts on a cell that arithmetic gives at each level.
abbrev CellFacts : ℕ → Type 0
CellFacts level =
    (begin end : ℕ)
    → begin ≤ end
    → end < 2 ^ 64
    → (map_end level begin end
        ≡ (if ltb (cell_last level begin) end then cell_last level begin else end))
      × (begin ≤ cell_last level begin)
      × (cell level (cell_last level begin) ≡ cell level begin)
      × (cell level (suc (cell_last level begin)) ≡ suc (cell level begin))
      × (suc (cell_last level begin) % pml_size level ≡ 0)
      × (cell_last level begin < begin + 2 ^ 39)
      × (ltb (cell_last level begin) end ≡ ltb (cell level begin) (cell level end))
      × (cell level begin ≤ cell level end)

cell_facts : (level : ℕ) → IsLevel level → CellFacts level
cell_facts =
    by_level CellFacts
      (λ begin end h k. (
        ground (arith, h, k),
        omega arith,
        omega arith,
        omega arith,
        omega arith,
        omega arith,
        ground (arith, h),
        omega (arith, h),
      ))
      (λ begin end h k. (
        ground (arith, h, k),
        omega arith,
        omega arith,
        omega arith,
        omega arith,
        omega arith,
        ground (arith, h),
        omega (arith, h),
      ))
      (λ begin end h k. (
        ground (arith, h, k),
        omega arith,
        omega arith,
        omega arith,
        omega arith,
        omega arith,
        ground (arith, h),
        omega (arith, h),
      ))
      (λ begin end h k. (
        ground (arith, h, k),
        omega arith,
        omega arith,
        omega arith,
        omega arith,
        omega arith,
        ground (arith, h),
        omega (arith, h),
      ))

pub round :
    (level : ℕ)
    → IsLevel level
    → (begin end : ℕ) → begin ≤ end
    → end < 2 ^ 64
    → Round level begin end (map_end level begin end)
round level v begin end h k =
    let (e, from, same, next, page, near, goes_on, up) = cell_facts level v begin end h k in
    elim (Bool-cases (ltb (cell_last level begin) end)) [
      | inl c ↦
          let m : map_end level begin end ≡ cell_last level begin = rw c at e in
          rw m (record {
            from_begin = from;
            up_to_end = ground (arith, c);
            same_cell = same;
            size = omega (arith, from, near, h, k);
            progress = inr (
              ltb→lt (cell level begin) (cell level end) (sym goes_on ∙ c),
              ltb→lt (cell_last level begin) end c,
              next,
              page,
            );
          })
      | inr c ↦
          let m : map_end level begin end ≡ end = rw c at e in
          let short : end ≤ cell_last level begin = ground (arith, c) in
          rw m (record {
            from_begin = h;
            up_to_end = omega arith;
            same_cell = ground (arith, up, goes_on, c);
            size = omega (arith, near, h, k, short);
            progress = inl (ground (arith, up, goes_on, c), refl);
          })
    ]

-- A whole cell, and the frame of the same size at `phys`.
abbrev WholeCell : ℕ → Type 0
WholeCell level =
    (begin last a phys : ℕ)
    → (last + 2 ^ 64 - begin + 1) % 2 ^ 64 ≡ pml_size level
    → begin ≤ last
    → last < 2 ^ 64
    → begin % pml_size level ≡ 0
    → phys % pml_size level ≡ 0
    → (cell level a ≡ cell level begin → begin ≤ a)
      × (cell level a ≡ cell level begin → a ≤ last)
      × (begin ≤ a → a ≤ last → cell level a ≡ cell level begin)
      × ((begin ≤ a) → (a ≤ last) → a % pml_size level ≡ a - begin)
      × (phys / pml_size level * pml_size level ≡ phys)
      × (phys % 4096 ≡ 0)

pub whole_cell : (level : ℕ) → IsLevel level → WholeCell level
whole_cell =
    by_level WholeCell
      (λ begin last a phys h k m z p. (
        (λ x. omega (arith, h, k, m, z, x)),
        (λ x. omega (arith, h, k, m, z, x)),
        (λ x y. omega (arith, h, k, m, z, x, y)),
        (λ x y. omega (arith, h, k, m, z, x, y)),
        omega (arith, p),
        omega (arith, p),
      ))
      (λ begin last a phys h k m z p. (
        (λ x. omega (arith, h, k, m, z, x)),
        (λ x. omega (arith, h, k, m, z, x)),
        (λ x y. omega (arith, h, k, m, z, x, y)),
        (λ x y. omega (arith, h, k, m, z, x, y)),
        omega (arith, p),
        omega (arith, p),
      ))
      (λ begin last a phys h k m z p. (
        (λ x. omega (arith, h, k, m, z, x)),
        (λ x. omega (arith, h, k, m, z, x)),
        (λ x y. omega (arith, h, k, m, z, x, y)),
        (λ x y. omega (arith, h, k, m, z, x, y)),
        omega (arith, p),
        omega (arith, p),
      ))
      (λ begin last a phys h k m z p. (
        (λ x. omega (arith, h, k, m, z, x)),
        (λ x. omega (arith, h, k, m, z, x)),
        (λ x y. omega (arith, h, k, m, z, x, y)),
        (λ x y. omega (arith, h, k, m, z, x, y)),
        omega (arith, p),
        omega (arith, p),
      ))

-- The cells do not decrease.
pub cell_le : (level : ℕ) → IsLevel level → (a b : ℕ) → a ≤ b → cell level a ≤ cell level b
cell_le =
    by_level (λ level. (a b : ℕ) → a ≤ b → cell level a ≤ cell level b) (λ a b h. omega (arith, h))
      (λ a b h. omega (arith, h)) (λ a b h. omega (arith, h)) (λ a b h. omega (arith, h))

-- A multiple of the size of a level is one for the levels below, and of a page.
pub multiple_below :
    (l x : ℕ) → IsLevel (suc (suc l)) → x % pml_size (suc (suc l)) ≡ 0 → x % pml_size (suc l) ≡ 0
multiple_below zero x v h = omega (arith, h)
multiple_below (suc zero) x v h = omega (arith, h)
multiple_below (suc (suc zero)) x v h = omega (arith, h)
multiple_below (suc (suc (suc l))) x (i, j) h = absurd (omega (arith, j))

pub multiple_of_page : (l : ℕ) → IsLevel l → (x : ℕ) → x % pml_size l ≡ 0 → x % 4096 ≡ 0
multiple_of_page =
    by_level (λ l. (x : ℕ) → x % pml_size l ≡ 0 → x % 4096 ≡ 0) (λ x h. h) (λ x h. omega (arith, h))
      (λ x h. omega (arith, h)) (λ x h. omega (arith, h))

-- A cell begins at each multiple.
pub cell_start :
    (l : ℕ) → IsLevel l → (x : ℕ) → suc x % pml_size l ≡ 0 → cell l (suc x) ≡ suc (cell l x)
cell_start =
    by_level (λ l. (x : ℕ) → suc x % pml_size l ≡ 0 → cell l (suc x) ≡ suc (cell l x))
      (λ x h. omega (arith, h)) (λ x h. omega (arith, h)) (λ x h. omega (arith, h))
      (λ x h. omega (arith, h))

-- The pages for new tables that a range may take below a table: one for each cell, but at the last
-- level.
unfoldable pub need : (level begin end : ℕ) → ℕ
need zero begin end = 0
need (suc zero) begin end = 0
need (suc (suc l)) begin end =
    suc (cell (suc (suc l)) end - cell (suc (suc l)) begin) + need (suc l) begin end

pub need-split :
    (level : ℕ)
    → IsLevel level
    → (begin last end : ℕ) → begin ≤ last
    → last < end
    → suc last % pml_size level ≡ 0
    → need level begin last + need level (suc last) end ≡ need level begin end
unfolding need
need-split zero v begin last end h k m = refl
need-split (suc zero) v begin last end h k m = refl
need-split (suc (suc l)) (v, w) begin last end h k m =
    let rest =
      need-split (suc l) (omega arith, omega (arith, w)) begin last end h k
        (multiple_below l (suc last) (v, w) m) in
    omega (
      arith,
      rest,
      cell_start (suc (suc l)) (v, w) last m,
      cell_le (suc (suc l)) (v, w) begin last h,
      cell_le (suc (suc l)) (v, w) (suc last) end k,
    )

-- A page lies in one cell.
pub cell_page : (l : ℕ) → IsLevel l → (a : ℕ) → a % 4096 ≡ 0 → cell l (a + 4095) ≡ cell l a
cell_page =
    by_level (λ l. (a : ℕ) → a % 4096 ≡ 0 → cell l (a + 4095) ≡ cell l a) (λ a h. omega (arith, h))
      (λ a h. omega (arith, h)) (λ a h. omega (arith, h)) (λ a h. omega (arith, h))
