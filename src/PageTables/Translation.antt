-- ===== src/PageTables/Translation.antt =====
-- What the tables of src/src/paging.c translate an address to, as the processor reads them.
use spbau_os_hw.Prelude.{
  ℕ, zero, suc, ◌+◌, ◌*◌, ◌/◌, ◌%◌, ◌<◌, ◌≡◌, refl, ◌∙◌, ap, ◌⊎◌, inl, inr, arith, if◌then◌else◌,
  ltb, ◌==◌, Bool, true, false, ◌&&◌, ◌||◌, Option, none, some, Bool-cases,
}
use spbau_os_hw.PageTables.{Tables, pml_size, pml_offs, is_present, is_large, phys_of}
use spbau_os_hw.PageTables.Cells.{cell, IsLevel, cell-cell}

-- At the last level each entry is of memory; at the two above it, one that is large.
abbrev pub is_leaf : (level pte : ℕ) → Bool
is_leaf level pte = level == 1 || (is_large pte && ltb level 4)

abbrev pub framed : (level pte addr : ℕ) → ℕ
framed level pte addr = phys_of pte / pml_size level * pml_size level + addr % pml_size level

unfoldable pub translate : (t : Tables) (level table addr : ℕ) → Option ℕ
translate t zero table addr = none
translate t (suc l) table addr =
    let pte = t table (pml_offs addr (suc l)) in
    let below = translate t l (phys_of pte) addr in
    if is_present pte
    then (if is_leaf (suc l) pte then some (framed (suc l) pte addr) else below)
    else none

-- The level of each table, and which cell of the level above it divides. The level is 0 for a page
-- that is no table.
abbrev pub Labels : Type 0
Labels = (table : ℕ) → ℕ × ℕ

-- The table that an entry of a labelled table points to has the label of that entry.
abbrev pub AreLabelled : Labels → Tables → Type 0
AreLabelled label t =
    (table l key index : ℕ)
    → label table ≡ (suc (suc l), key)
    → index < 512
    → is_present (t table index) ≡ true
    → is_leaf (suc (suc l)) (t table index) ≡ false
    → label (phys_of (t table index)) ≡ (suc l, key * 512 + index)

-- On each entry that `a` may meet the tables agree, or they translate it alike from there on.
abbrev pub Agree : Labels → (a : ℕ) → (t s : Tables) → Type 0
Agree label a t s =
    (table l : ℕ)
    → label table ≡ (suc l, cell (suc l) a / 512)
    → (s table (pml_offs a (suc l)) ≡ t table (pml_offs a (suc l)))
      ⊎ (translate s (suc l) table a ≡ translate t (suc l) table a)

pub lower : {l : ℕ} → IsLevel (suc (suc l)) → IsLevel (suc l)
lower (h, k) = (omega arith, omega (arith, k))

-- The table below is the one of its level for the address too.
pub label_below :
    (label : Labels) (t : Tables) (l table a : ℕ)
    → IsLevel (suc (suc l))
    → AreLabelled label t
    → label table ≡ (suc (suc l), cell (suc (suc l)) a / 512)
    → let pte = t table (pml_offs a (suc (suc l))) in
      is_present pte ≡ true
      → is_leaf (suc (suc l)) pte ≡ false
      → label (phys_of pte) ≡ (suc l, cell (suc l) a / 512)
label_below label t l table a v w e p q =
    w table l (cell (suc (suc l)) a / 512) (pml_offs a (suc (suc l))) e (omega arith) p q
    ∙ ap (λ k. (suc l, k)) (rw (cell-cell (suc l) a v (omega arith)) (omega arith))

pub translate-Agree :
    (label : Labels) (t s : Tables) (a : ℕ)
    → AreLabelled label t
    → Agree label a t s
    → (level table : ℕ) → IsLevel level
    → label table ≡ (level, cell level a / 512)
    → translate s level table a ≡ translate t level table a
unfolding translate
translate-Agree label t s a w g zero table v e = refl
translate-Agree label t s a w g (suc zero) table v e = elim (g table zero e) [
  | inl h ↦ rw h refl
  | inr h ↦ h
]
translate-Agree label t s a w g (suc (suc l)) table v e =
    let pte = t table (pml_offs a (suc (suc l))) in
    let deeper : is_present pte ≡ true
        → is_leaf (suc (suc l)) pte ≡ false
        → translate s (suc l) (phys_of pte) a ≡ translate t (suc l) (phys_of pte) a =
      λ p q.
        translate-Agree label t s a w g (suc l) (phys_of pte) (lower v)
          (label_below label t l table a v w e p q) in
    elim (g table (suc l) e) [ inr h ↦ h | inl h ↦ rw h (same_entry pte deeper) ]
  where
    same_entry :
        (pte : ℕ) {x y : Option ℕ}
        → (is_present pte ≡ true → is_leaf (suc (suc l)) pte ≡ false → x ≡ y)
        → (if is_present pte
            then (if is_leaf (suc (suc l)) pte then some (framed (suc (suc l)) pte a) else x)
            else none)
          ≡ (if is_present pte
              then (if is_leaf (suc (suc l)) pte then some (framed (suc (suc l)) pte a) else y)
              else none)
    same_entry pte h = elim (Bool-cases (is_present pte)) [
      | inr p ↦ rw p refl
      | inl p ↦ rw p (elim (Bool-cases (is_leaf (suc (suc l)) pte)) [
        | inl q ↦ rw q refl
        | inr q ↦ rw q (h p q)
      ])
    ]
