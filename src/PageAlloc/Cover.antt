-- ===== src/PageAlloc/Cover.antt =====
-- How often a page is covered by blocks: pointwise sums over lists and over the orders.
use native.Mathlib.Nat.{pow-suc}
use native.Mathlib.Decide.{dec_lt}
use spbau_os_hw.Prelude.{
  ℕ, zero, suc, ◌+◌, ◌^◌, ◌≤◌, ◌<◌, ◌≡◌, ◌≢◌, refl, ap, sym, ◌∙◌, inl, inr, ◌&&◌, arith, leb, ltb,
  ◌==◌, if◌then◌else◌, List, [], ◌∷◌, Bool-cases, update,
}
use spbau_os_hw.Prelude.Bits.{flip_bit}
use spbau_os_hw.Prelude.Run.{ok, Run-cases}
use spbau_os_hw.PageAlloc.{take_out}
use spbau_os_hw.PageAlloc.Blocks.{
  Aligned, pow_pos, Aligned-le, block_halve, halve_block, eq_of_halve, halve-flip_bit,
  flip_bit-Buddies,
}

-- 1 if page `g` lies in the block of order `k` at `p`, else 0.
unfoldable pub covers : ℕ → ℕ → ℕ → ℕ
covers p k g = if leb p g && ltb g (p + 2 ^ k) then 1 else 0

-- 1 if page `g` lies in the block behind its first page.
unfoldable pub inside : ℕ → ℕ → ℕ → ℕ
inside p k g = if ltb p g && ltb g (p + 2 ^ k) then 1 else 0

-- 1 if `p` is `g`.
unfoldable pub is_at : ℕ → ℕ → ℕ
is_at p g = if p == g then 1 else 0

pub covers-is_at-inside : (p k g : ℕ) → covers p k g ≡ is_at p g + inside p k g
unfolding covers inside is_at
covers-is_at-inside p k g = ground (arith, pow_pos k)

pub is_at_self : (p : ℕ) → is_at p p ≡ 1
unfolding is_at
is_at_self p = ground arith

pub is_at_ne : (p g : ℕ) → p ≢ g → is_at p g ≡ 0
unfolding is_at
is_at_ne p g h = ground arith

pub covers_self : (p k : ℕ) → covers p k p ≡ 1
unfolding covers
covers_self p k = ground (arith, pow_pos k)

-- The two halves of a block cover what the block covers.
pub covers_halves : (p k g : ℕ) → covers p (suc k) g ≡ covers p k g + covers (p + 2 ^ k) k g
unfolding covers
covers_halves p k g = ground (arith, pow-suc 2 k)

block_of_buddy :
    (q j p k : ℕ)
    → Aligned q j
    → Aligned p k
    → q < flip_bit p k
    → flip_bit p k < q + 2 ^ j
    → (q ≤ p) × (p < q + 2 ^ j)
block_of_buddy q j p k aq ap l u =
    let e = block_halve q j (flip_bit p k) aq (omega arith) u in
    elim (dec_lt k j) [
      | yes below ↦ halve_block q j p aq (sym (halve-flip_bit p k j below) ∙ e)
      | no above ↦
          let b = Aligned-le (flip_bit p k) j k (omega arith) (flip_bit-Buddies p k ap).aligned in
          absurd (omega (arith, eq_of_halve (flip_bit p k) q j b aq e))
    ]

-- If the buddy of `p` lies in an aligned block behind its first page, then `p` lies in it.
pub inside-flip_bit :
    (q j p k : ℕ) → Aligned q j → Aligned p k → inside q j (flip_bit p k) ≤ covers q j p
unfolding inside covers
inside-flip_bit q j p k aq ap = ground (arith, block_of_buddy q j p k aq ap)

module _ (w : ℕ → ℕ → ℕ) where
  -- The sum of `w` over the entries.
  abbrev pub sum_list : List ℕ → ℕ → ℕ
  sum_list [] g = 0
  sum_list (p ∷ ps) g = w p g + sum_list ps g

-- The sum over the lists of the orders below `n`.
unfoldable pub sum_orders : (ℕ → ℕ → ℕ → ℕ) → ℕ → (ℕ → List ℕ) → ℕ → ℕ
sum_orders w zero f g = 0
sum_orders w (suc n) f g = sum_orders w n f g + sum_list (λ p. w p n) (f n) g

sum_orders-update_of_le :
    (w : ℕ → ℕ → ℕ → ℕ) (n : ℕ) (f : ℕ → List ℕ) (k : ℕ) (ps : List ℕ) (g : ℕ)
    → n ≤ k
    → sum_orders w n (update f k ps) g ≡ sum_orders w n f g
unfolding sum_orders
sum_orders-update_of_le w zero f k ps g h = refl
sum_orders-update_of_le w (suc n) f k ps g h = ground (arith, sum_orders-update_of_le w n f k ps g)

-- A list put in the place of another changes the sum by the difference.
pub sum_orders-update :
    (w : ℕ → ℕ → ℕ → ℕ) (n : ℕ) (f : ℕ → List ℕ) (k : ℕ) (ps : List ℕ) (g : ℕ)
    → k < n
    → sum_orders w n (update f k ps) g + sum_list (λ p. w p k) (f k) g
      ≡ sum_orders w n f g + sum_list (λ p. w p k) ps g
unfolding sum_orders
sum_orders-update w zero f k ps g h = absurd (omega arith)
sum_orders-update w (suc n) f k ps g h =
    ground (arith, sum_orders-update_of_le w n f k ps g, sum_orders-update w n f k ps g)

-- What a list of entries sums to before an entry is taken out.
pub take_out-sum :
    (w : ℕ → ℕ → ℕ) (p : ℕ) (ps rest : List ℕ) (g : ℕ)
    → take_out p ps ≡ ok rest
    → sum_list w ps g ≡ w p g + sum_list w rest g
unfolding take_out
take_out-sum w p [] rest g e = cc
take_out-sum w p (x ∷ xs) rest g e = elim (Run-cases (take_out p xs)) [
  | inl fails ↦ ground (arith, fails)
  | inr (ys, found) ↦ ground (arith, found, take_out-sum w p xs ys g found)
]

-- An entry that is counted can be taken out.
pub take_out-ok :
    (p : ℕ) (ps : List ℕ) → 1 ≤ sum_list is_at ps p → (rest : List ℕ) × (take_out p ps ≡ ok rest)
unfolding take_out is_at
take_out-ok p [] h = absurd (omega arith)
take_out-ok p (x ∷ xs) h = elim (Bool-cases (x == p)) [
  | inl here ↦ (xs, rw here)
  | inr there ↦ let (rest, e) = take_out-ok p xs (ground arith) in (x ∷ rest, rw there (rw e))
]
