-- ===== src/PageAlloc/Invariant.antt =====
-- The invariant of a zone, with the blocks that callers hold and those that an operation is at
-- work on. Every page is counted: the lists, the blocks at work and the blocks held cover page `g`
-- `T g` times together, at most once.
use spbau_os_hw.Prelude.{
  ℕ, zero, suc, ◌+◌, ◌^◌, ◌≤◌, ◌<◌, ◌≡◌, ◌≢◌, true, false, arith, List, [], ◌∷◌, All, All-map,
}
use spbau_os_hw.PageAlloc.{Page, Zone, max_order, page_is_free, page_order}
use spbau_os_hw.PageAlloc.Blocks.{Aligned}
use spbau_os_hw.PageAlloc.Cover.{covers, inside, is_at, sum_list, sum_orders, covers_self}

-- A block: its first page and its order.
abbrev pub Block : Type 0
Block = ℕ × ℕ

-- The sum of `w` over blocks.
abbrev pub sum_blocks : (ℕ → ℕ → ℕ → ℕ) → List Block → ℕ → ℕ
sum_blocks w [] g = 0
sum_blocks w ((p, k) ∷ bs) g = w p k g + sum_blocks w bs g

-- How often the free lists cover page `g`.
abbrev pub free_cover : Zone → ℕ → ℕ
free_cover z g = sum_orders covers 19 z.order g

abbrev pub IsBlock : Zone → Block → Type 0
IsBlock z (p, k) = (z.begin ≤ p) × (p + 2 ^ k ≤ z.end) × Aligned p k × (k ≤ max_order)

abbrev pub IsMarked : Page → ℕ → Type 0
IsMarked page k = (page_is_free page ≡ true) × (page_order page ≡ k)

abbrev pub IsListed : Zone → ℕ → ℕ → Type 0
IsListed z k p = IsBlock z (p, k) × IsMarked (z.pages p) k

abbrev pub IsHeld : Zone → Block → Type 0
IsHeld z b = IsBlock z b × (page_is_free (z.pages b.0) ≡ false)

pub record Inv (T : ℕ → ℕ) (z : Zone) (W A : List Block) : Type 0 where
  pub listed : (k : ℕ) → k ≤ max_order → All (IsListed z k) (z.order k)
  pub work : All (IsBlock z) W
  pub held : All (IsHeld z) A
  pub total : (g : ℕ) → free_cover z g + sum_blocks covers W g + sum_blocks covers A g ≡ T g
  pub once : (g : ℕ) → T g ≤ 1
  -- A page that is marked free is in the list of its order, or lies in a block behind its first
  -- page, or in a block at work: such marks are left over when blocks are joined.
  pub known :
      (p : ℕ)
      → z.begin ≤ p
      → p < z.end
      → page_is_free (z.pages p) ≡ true
      → 1
        ≤ sum_list is_at (z.order (page_order (z.pages p))) p
          + sum_orders inside 19 z.order p
          + sum_blocks inside A p
          + sum_blocks covers W p

sum_list_zero :
    (w : ℕ → ℕ → ℕ) (ps : List ℕ) (g : ℕ) → sum_list w ps g ≡ 0 → All (λ p. w p g ≡ 0) ps
sum_list_zero w [] g e = tt
sum_list_zero w (p ∷ ps) g e = (omega arith, sum_list_zero w ps g (omega arith))

sum_orders_le :
    (w : ℕ → ℕ → ℕ → ℕ) (n : ℕ) (f : ℕ → List ℕ) (k g : ℕ)
    → k < n
    → sum_list (λ p. w p k) (f k) g ≤ sum_orders w n f g
unfolding sum_orders
sum_orders_le w zero f k g h = absurd (omega arith)
sum_orders_le w (suc n) f k g h = ground (arith, sum_orders_le w n f k g)

ne_of_zero : (p k b : ℕ) → covers p k b ≡ 0 → p ≢ b
ne_of_zero p k b e t = ground (arith, covers_self p k)

sum_blocks_zero :
    (bs : List Block) (g : ℕ) → sum_blocks covers bs g ≡ 0 → All (λ (q : Block). q.0 ≢ g) bs
sum_blocks_zero [] g e = tt
sum_blocks_zero ((p, k) ∷ bs) g e =
    (ne_of_zero p k g (omega arith), sum_blocks_zero bs g (omega arith))

module _ {T : ℕ → ℕ} {z : Zone} {W A : List Block} (inv : Inv T z W A) where
  -- A page that the blocks at work cover is first in no listed block, nor in one held.
  pub not_listed :
      (b : ℕ) → 1 ≤ sum_blocks covers W b → (k : ℕ) → k ≤ max_order → All (λ p. p ≢ b) (z.order k)
  not_listed b h k l =
      All-map (λ p e. ne_of_zero p k b e) (z.order k)
        (sum_list_zero (λ p. covers p k) (z.order k) b
          (omega (arith, sum_orders_le covers 19 z.order k b, inv.total b, inv.once b)))

  pub not_held : (b : ℕ) → 1 ≤ sum_blocks covers W b → All (λ (q : Block). q.0 ≢ b) A
  not_held b h = sum_blocks_zero A b (omega (arith, inv.total b, inv.once b))
