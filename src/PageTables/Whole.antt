-- ===== src/PageTables/Whole.antt =====
-- The entries that `__pt_map_pages` of src/src/paging.c meets: those that point to tables, and those that
-- map memory.
use spbau_os_hw.Prelude.{
  ℕ, suc, ◌+◌, ◌-◌, ◌%◌, ◌^◌, ◌≤◌, ◌<◌, ◌≡◌, refl, ap, inl, inr, arith, Bool, true, false, not,
  ◌&&◌, ◌||◌, ◌==◌, List, [], ◌∷◌, length, none, Bool-cases,
}
use spbau_os_hw.PageTables.{
  Tables, pml_offs, pml_size, is_present, phys_of, map_end, tomap, has_large, maps_whole,
}
use spbau_os_hw.PageTables.Cells.{cell, need, Round}
use spbau_os_hw.PageTables.Translation.{translate, is_leaf}
use spbau_os_hw.PageTables.Grow.{TableEntry}

-- Where the entry is present and translates nothing, it points to a table.
pub present-TableEntry :
    (t : Tables) (l table a : ℕ)
    → is_present (t table (pml_offs a (suc (suc l)))) ≡ true
    → translate t (suc (suc l)) table a ≡ none
    → TableEntry l
        (phys_of (t table (pml_offs a (suc (suc l)))))
        (t table (pml_offs a (suc (suc l))))
unfolding translate
present-TableEntry t l table a p n =
    elim (Bool-cases (is_leaf (suc (suc l)) (t table (pml_offs a (suc (suc l)))))) [
      | inl q ↦ let no = rw (p, q) at n in cc
      | inr q ↦ record { table = refl; present = p; no_leaf = q }
    ]

pub present_page :
    (t : Tables) (table a : ℕ)
    → translate t 1 table a ≡ none
    → is_present (t table (pml_offs a 1)) ≡ false
unfolding translate
present_page t table a n = elim (Bool-cases (is_present (t table (pml_offs a 1)))) [
  | inl p ↦ let no = rw p at n in cc
  | inr p ↦ p
]

-- What `maps_whole` says, and that it holds at the last level.
pub record Whole (level begin phys flags t : ℕ) : Type 0 where
  pub whole : t ≡ pml_size level
  pub begins : begin % pml_size level ≡ 0
  pub frame : phys % pml_size level ≡ 0
  pub leaf : (has_large level flags || (level == 1)) ≡ true

all_hold :
    (a b c d e : Bool)
    → (not a && b && (c && d) && e) ≡ true
    → (b ≡ true) × (c ≡ true) × (d ≡ true) × (e ≡ true)
all_hold a b c d e h = (ground (arith, h), ground (arith, h), ground (arith, h), ground (arith, h))

equal : (a b : ℕ) → (a == b) ≡ true → a ≡ b
equal a b h = ground (arith, h)

pub maps_whole-Whole :
    (level begin end phys flags : ℕ)
    → maps_whole level begin end phys flags ≡ true
    → Whole level begin phys flags (tomap level begin end)
unfolding maps_whole
maps_whole-Whole level begin end phys flags h =
    let size = pml_size level in
    let (t, b, p, f) =
      all_hold (level == 4) (tomap level begin end == size) (begin % size == 0) (phys % size == 0)
        (has_large level flags || (level == 1)) h in
    record {
      whole = equal (tomap level begin end) size t;
      begins = equal (begin % size) 0 b;
      frame = equal (phys % size) 0 p;
      leaf = f;
    }

pub whole_page :
    (begin last end phys flags : ℕ)
    → map_end 1 begin end ≡ last
    → begin ≤ last
    → last < 2 ^ 64
    → cell 1 last ≡ cell 1 begin
    → begin % 4096 ≡ 0
    → suc last % 4096 ≡ 0
    → phys % 4096 ≡ 0
    → maps_whole 1 begin end phys flags ≡ true
unfolding maps_whole
whole_page begin last end phys flags e h k c b l p =
    let size : (last + 2 ^ 64 - begin + 1) % 2 ^ 64 ≡ 4096 = omega (arith, h, k, c, b, l) in
    rw (e, size, b, p) refl

pub no_last : (l : ℕ) → (suc (suc l) == 1) ≡ false
no_last l = ground arith

pub goes_on :
    {n : ℕ} (level begin end last : ℕ)
    → Round level begin end last
    → suc n ≡ cell level end - cell level begin
    → (cell level begin < cell level end)
      × (last < end)
      × (cell level (suc last) ≡ suc (cell level begin))
      × (suc last % pml_size level ≡ 0)
goes_on level begin end last d k = elim d.progress [
  | inl (c, e) ↦ absurd (omega (arith, k, c))
  | inr h ↦ h
]

pub nonempty : (xs : List ℕ) → 1 ≤ length xs → (p : ℕ) × (ps : List ℕ) × (xs ≡ p ∷ ps)
nonempty [] h = absurd (omega (arith, h))
nonempty (p ∷ ps) h = (p, ps, refl)

pub need_table : (l begin end n : ℕ) → need (suc (suc l)) begin end ≤ n → 1 ≤ n
unfolding need
need_table l begin end n h = omega (arith, h)

pub need_less : (l begin end n : ℕ) → need (suc (suc l)) begin end ≤ n → need (suc l) begin end ≤ n
unfolding need
need_less l begin end n h = omega (arith, h)

pub need_below :
    (l begin end : ℕ) (xs : List ℕ) {p : ℕ} {ps : List ℕ}
    → need (suc (suc l)) begin end ≤ length xs
    → xs ≡ p ∷ ps
    → need (suc l) begin end ≤ length ps
unfolding need
need_below l begin end xs h e = omega (arith, h, ap length e)
