-- ===== src/PageAlloc/Flags.antt =====
-- What the flag functions of memory.c do to one another: the order, the free mark and the user
-- bits lie apart.
use spbau_os_hw.Prelude.{
  ℕ, ◌+◌, ◌≡◌, ◌≤◌, ◌%◌, ◌/◌, ◌*◌, ◌∙◌, true, false, arith, Bool-cases, inl, inr,
}
use spbau_os_hw.Prelude.Bits.{
  test_bit, set_bit, set_bit_on, set_bit-add, test_bit-set_bit, test_bit-clear_bit,
}
use spbau_os_hw.Prelude.Run.{ok}
use spbau_os_hw.PageAlloc.{
  Page, page_order, page_set_order, page_is_free, page_set_free, page_set_busy,
}

-- The page that `page_set_order` and then `page_set_free` leave.
unfoldable pub marked : Page → ℕ → Page
unfolding page_set_free
marked p k = page_set_free (record p { flags = p.flags / 256 * 256 + k })

pub page_set_order-ok :
    (p : Page) (k : ℕ)
    → k ≤ 255
    → page_set_order p k ≡ ok (record p { flags = p.flags / 256 * 256 + k })
unfolding page_set_order
page_set_order-ok p k h = ground arith

set_bit_low : (w : ℕ) → set_bit w 8 % 256 ≡ w % 256
set_bit_low w = elim (Bool-cases (test_bit w 8)) [
  | inl on ↦ rw (set_bit_on w 8 on)
  | inr off ↦ rw (set_bit-add w 8 off) (omega arith)
]

pub page_is_free-marked : (p : Page) (k : ℕ) → page_is_free (marked p k) ≡ true
unfolding marked page_is_free
page_is_free-marked p k = test_bit-set_bit (p.flags / 256 * 256 + k) 8

pub page_order-marked : (p : Page) (k : ℕ) → k ≤ 255 → page_order (marked p k) ≡ k
unfolding marked page_order
page_order-marked p k h = set_bit_low (p.flags / 256 * 256 + k) ∙ omega arith

pub page_is_free-busy : (p : Page) → page_is_free (page_set_busy p) ≡ false
unfolding page_is_free page_set_busy
page_is_free-busy p = test_bit-clear_bit p.flags 8
