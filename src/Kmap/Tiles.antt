-- ===== src/Kmap/Tiles.antt =====
-- The ranges of `kmap` as tiles: each begins where the one before ends, and carries its marks.
use spbau_os_hw.Prelude.{
  ℕ, ◌+◌, ◌-◌, ◌≤◌, ◌<◌, ◌≡◌, sym, subst, ◌∙◌, arith, Bool, List, [], ◌∷◌, ◌++◌, if◌then◌else◌,
}
use spbau_os_hw.Kmap.{Kmap}

pub record Tile : Type 0 where
  pub size : ℕ
  pub is_free : Bool

-- The tile at a page has its length at both ends, and says whether it is on a list.
pub record Marked (st : Kmap) (base : ℕ) (t : Tile) : Type 0 where
  pub some_pages : 0 < t.size
  pub first_page : st.pages base ≡ t.size
  pub last_page : st.pages (base + t.size - 1) ≡ t.size
  pub on_list : st.linked base ≡ t.is_free

-- The tiles fill the pages from `base` to `end`.
abbrev pub Tiled : Kmap → (base : ℕ) → List Tile → (end : ℕ) → Type 0
Tiled st base [] end = base ≡ end
Tiled st base (t ∷ ts) end = Marked st base t × Tiled st (base + t.size) ts end

pub Tiled-le : (st : Kmap) (base : ℕ) (ts : List Tile) (end : ℕ) → Tiled st base ts end → base ≤ end
Tiled-le st base [] end h = omega (arith, h)
Tiled-le st base (t ∷ ts) end h = omega (arith, Tiled-le st (base + t.size) ts end h.1)

pub Tiled-append :
    (st : Kmap) (base : ℕ) (xs : List Tile) (mid : ℕ) (ys : List Tile) (end : ℕ)
    → Tiled st base xs mid
    → Tiled st mid ys end
    → Tiled st base (xs ++ ys) end
Tiled-append st base [] mid ys end h k = subst (λ b. Tiled st b ys end) (sym h) k
Tiled-append st base (x ∷ xs) mid ys end h k =
    (h.0, Tiled-append st (base + x.size) xs mid ys end h.1 k)

-- Two states have the same marks from `a` on, below `b`.
pub record SameMarks (a b : ℕ) (s t : Kmap) : Type 0 where
  pub same_pages : (i : ℕ) → a ≤ i → i < b → t.pages i ≡ s.pages i
  pub same_linked : (i : ℕ) → a ≤ i → i < b → t.linked i ≡ s.linked i

pub Tiled-SameMarks :
    (s t : Kmap) (a base : ℕ) (ts : List Tile) (end b : ℕ)
    → a ≤ base
    → end ≤ b
    → SameMarks a b s t
    → Tiled s base ts end
    → Tiled t base ts end
Tiled-SameMarks s t a base [] end b h l k d = d
Tiled-SameMarks s t a base (x ∷ xs) end b h l k d =
    let m = d.0 in
    let e = Tiled-le s (base + x.size) xs end d.1 in
    let p = m.some_pages in
    (
      record {
        some_pages = p;
        first_page = k.same_pages base h (omega (arith, e, p)) ∙ m.first_page;
        last_page =
            k.same_pages (base + x.size - 1) (omega (arith, h, p)) (omega (arith, e, p))
            ∙ m.last_page;
        on_list = k.same_linked base h (omega (arith, e, p)) ∙ m.on_list;
      },
      Tiled-SameMarks s t a (base + x.size) xs end b (omega arith) l k d.1,
    )

-- The tiles but the last, if that one is free, and how many pages it adds.
abbrev pub join_left : List Tile → ℕ → List Tile × ℕ
join_left [] n = ([], n)
join_left (t ∷ []) n = if t.is_free then ([], n + t.size) else (t ∷ [], n)
join_left (t ∷ u ∷ ts) n = let rest = join_left (u ∷ ts) n in (t ∷ rest.0, rest.1)

-- Likewise for the first tile.
abbrev pub join_right : ℕ → List Tile → ℕ × List Tile
join_right n [] = (n, [])
join_right n (t ∷ ts) = if t.is_free then (n + t.size, ts) else (n, t ∷ ts)
