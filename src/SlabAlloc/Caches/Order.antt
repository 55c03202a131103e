-- ===== src/SlabAlloc/Caches/Order.antt =====
-- `mem_order_calculate`: the least order whose block is large enough.
use native.Mathlib.Decide.{ℕ_discrete}
use spbau_os_hw.Prelude.{
  ℕ, zero, suc, ◌+◌, ◌^◌, ◌≤◌, ◌<◌, ◌≡◌, sym, subst, arith, ◌⊎◌, inl, inr, leb, leb→le, Bool-cases,
}
use spbau_os_hw.PageAlloc.{page_shift}
use spbau_os_hw.SlabAlloc.Caches.{order_from, mem_order_calculate}

-- The least order that is enough for `size`, or 19 if none up to 18 is.
pub record LeastOrder (size k : ℕ) : Type 0 where
  pub enough : (size ≤ 2 ^ (k + page_shift)) ⊎ (k ≡ 19)
  pub least : (j : ℕ) → j < k → 2 ^ (j + page_shift) < size
  pub upto : k ≤ 19

order_from-LeastOrder :
    (n k size : ℕ)
    → k + n ≡ 19
    → ((j : ℕ) → j < k → 2 ^ (j + page_shift) < size)
    → LeastOrder size (order_from n k size)
unfolding order_from
order_from-LeastOrder zero k size e h = record {
  enough = inr (omega arith);
  least = h;
  upto = omega arith;
}
order_from-LeastOrder (suc n) k size e h = elim (Bool-cases (leb size (2 ^ (k + page_shift)))) [
  | inl on ↦ rw on (record {
    enough = inl (leb→le size (2 ^ (k + page_shift)) on);
    least = h;
    upto = omega arith;
  })
  | inr off ↦
      let small : 2 ^ (k + page_shift) < size = ground (arith, off) in
      let below : (j : ℕ) → j < suc k → 2 ^ (j + page_shift) < size = λ j l. elim (ℕ_discrete j k) [
        | yes t ↦ subst (λ (i : ℕ). 2 ^ (i + page_shift) < size) (sym t) small
        | no t ↦ h j (omega arith)
      ] in
      let more = order_from-LeastOrder n (suc k) size (omega arith) (λ j l. below j l) in
      rw off more
]

-- `mem_order_calculate` gives the least order whose block holds `size` bytes; it gives 19 if no
-- block of an order up to 18 does.
pub mem_order_calculate-LeastOrder : (size : ℕ) → LeastOrder size (mem_order_calculate size)
unfolding mem_order_calculate
mem_order_calculate-LeastOrder size =
    order_from-LeastOrder 19 0 size (omega arith) (λ j l. absurd (omega arith))
