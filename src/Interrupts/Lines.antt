-- ===== src/Interrupts/Lines.antt =====
-- The mask that the controller was last sent is the mask that the code keeps.
use spbau_os_hw.Prelude.{
  ℕ, zero, suc, ◌-◌, ◌/◌, ◌%◌, ◌<◌, ◌≤◌, ◌≡◌, ◌≢◌, refl, sym, ap, ◌∙◌, arith, List, [], ◌∷◌, Bool,
  true, false, ltb, ◌==◌, if◌then◌else◌, lt→ltb, ge→ltb,
}
use native.Mathlib.Decide.{dec_lt}
use spbau_os_hw.Prelude.Bits.{
  test_bit, set_bit, clear_bit, test_bit-set_bit, test_bit-clear_bit, test_bit-set_bit_ne,
  test_bit-clear_bit_ne,
}
use spbau_os_hw.Interrupts.{
  Write, Pic, master_data, slave_data, pic_setup, pic_mask, pic_unmask, write_master, write_slave,
}

-- The value of the last write to a port.
unfoldable pub last_to : ℕ → List Write → ℕ
last_to port [] = 0
last_to port (w ∷ ws) = let rest = last_to port ws in if w.port == port then w.value else rest

-- Whether the controller holds back a line: the bit in the byte last sent to the line's chip.
abbrev pub holds_back : Pic → ℕ → Bool
holds_back s irq =
    if ltb irq 8
    then test_bit (last_to master_data s.writes) irq
    else test_bit (last_to slave_data s.writes) (irq - 8)

low_byte : (w i : ℕ) → i < 8 → test_bit (w % 256 % 256) i ≡ test_bit w i
unfolding test_bit
low_byte w zero h = ap (λ (x : ℕ). x == 1) (omega arith)
low_byte w (suc zero) h = ap (λ (x : ℕ). x == 1) (omega arith)
low_byte w (suc (suc zero)) h = ap (λ (x : ℕ). x == 1) (omega arith)
low_byte w (suc (suc (suc zero))) h = ap (λ (x : ℕ). x == 1) (omega arith)
low_byte w (suc (suc (suc (suc zero)))) h = ap (λ (x : ℕ). x == 1) (omega arith)
low_byte w (suc (suc (suc (suc (suc zero))))) h = ap (λ (x : ℕ). x == 1) (omega arith)
low_byte w (suc (suc (suc (suc (suc (suc zero)))))) h = ap (λ (x : ℕ). x == 1) (omega arith)
low_byte w (suc (suc (suc (suc (suc (suc (suc zero))))))) h = ap (λ (x : ℕ). x == 1) (omega arith)
low_byte w (suc (suc (suc (suc (suc (suc (suc (suc i)))))))) h = absurd (omega arith)

high_bit :
    (w i : ℕ) → test_bit (w / 256) i ≡ test_bit w (suc (suc (suc (suc (suc (suc (suc (suc i))))))))
unfolding test_bit
high_bit w i = ap (λ (x : ℕ). test_bit x i) (omega arith)

high_byte :
    (w irq : ℕ) → 8 ≤ irq → irq < 16 → test_bit (w / 256 % 256 % 256) (irq - 8) ≡ test_bit w irq
high_byte w irq l h =
    low_byte (w / 256) (irq - 8) (omega arith)
    ∙ high_bit w (irq - 8)
    ∙ ap (test_bit w) (omega arith)

-- The controller holds back the lines whose bits `pic_irq_mask` has.
pub record IsSent (s : Pic) : Type 0 where
  pub low :
      (irq : ℕ) → irq < 8 → test_bit (last_to master_data s.writes) irq ≡ test_bit s.irq_mask irq
  pub high :
      (irq : ℕ)
      → 8 ≤ irq
      → irq < 16
      → test_bit (last_to slave_data s.writes) (irq - 8) ≡ test_bit s.irq_mask irq

sent_at : (s : Pic) (irq : ℕ) → IsSent s → irq < 16 → holds_back s irq ≡ test_bit s.irq_mask irq
sent_at s irq h l = elim (dec_lt irq 8) [
  | yes d ↦ rw (lt→ltb irq 8 d) (h.low irq d)
  | no d ↦ rw (ge→ltb irq 8 (omega arith)) (h.high irq (omega arith) l)
]

-- After `pic_setup` the controller holds back exactly the lines whose bits `pic_irq_mask` has.
pub pic_setup-IsSent : (offset : ℕ) (s : Pic) → IsSent (pic_setup offset s)
unfolding pic_setup last_to
pic_setup-IsSent offset s = record {
  low = λ irq l. low_byte s.irq_mask irq l;
  high = λ irq l h. high_byte s.irq_mask irq l h;
}

-- Sending one half of a mask that differs from the one sent in a bit of that half.
half_written :
    (s : Pic) (irq w : ℕ)
    → IsSent s
    → irq < 16
    → ((j : ℕ) → j ≢ irq → test_bit w j ≡ test_bit s.irq_mask j)
    → IsSent (
        let s' : Pic = record s { irq_mask = w } in
        if ltb irq 8 then write_master s' else write_slave s')
unfolding last_to
half_written s irq w h l same = elim (dec_lt irq 8) [
  | yes d ↦ rw (lt→ltb irq 8 d) (record {
    low = λ j k. low_byte w j k;
    high = λ j k m. h.high j k m ∙ sym (same j (omega arith));
  })
  | no d ↦ rw (ge→ltb irq 8 (omega arith)) (record {
    low = λ j k. h.low j k ∙ sym (same j (omega arith));
    high = λ j k m. high_byte w j k m;
  })
]

mask_kept :
    (b : Bool) (s : Pic) → (if b then write_master s else write_slave s).irq_mask ≡ s.irq_mask
mask_kept true s = refl
mask_kept false s = refl

-- What `holds_back` becomes where the mask `w` is sent.
sent_lines :
    (s : Pic) (irq w : ℕ) (t : Pic) (b : Bool)
    → IsSent s
    → irq < 16
    → IsSent t
    → t.irq_mask ≡ w
    → test_bit w irq ≡ b
    → ((j : ℕ) → j ≢ irq → test_bit w j ≡ test_bit s.irq_mask j)
    → (holds_back t irq ≡ b) × ((j : ℕ) → j < 16 → j ≢ irq → holds_back t j ≡ holds_back s j)
sent_lines s irq w t b h l k e on same = (
  sent_at t irq k l ∙ ap (λ (x : ℕ). test_bit x irq) e ∙ on,
  λ j m n. sent_at t j k m ∙ ap (λ (x : ℕ). test_bit x j) e ∙ same j n ∙ sym (sent_at s j h m),
)

-- If the controller has the mask, it has the new mask after `pic_mask` of one of the 16 lines: that
-- line is held back, and no other line changes.
pub pic_mask-IsSent :
    (s : Pic) (irq : ℕ)
    → IsSent s
    → irq < 16
    → IsSent (pic_mask irq s)
      × (holds_back (pic_mask irq s) irq ≡ true)
      × ((j : ℕ) → j < 16 → j ≢ irq → holds_back (pic_mask irq s) j ≡ holds_back s j)
unfolding pic_mask
pic_mask-IsSent s irq h l =
    let same = λ (j : ℕ) (n : j ≢ irq). test_bit-set_bit_ne s.irq_mask j irq n in
    let k = half_written s irq (set_bit s.irq_mask irq) h l same in
    let (own, others) =
      sent_lines s irq (set_bit s.irq_mask irq) (pic_mask irq s) true h l k
        (mask_kept (ltb irq 8) _) (test_bit-set_bit s.irq_mask irq) same in
    (k, own, others)

-- If the controller has the mask, it has the new mask after `pic_unmask` of one of the 16 lines:
-- that line is let through, and no other line changes.
pub pic_unmask-IsSent :
    (s : Pic) (irq : ℕ)
    → IsSent s
    → irq < 16
    → IsSent (pic_unmask irq s)
      × (holds_back (pic_unmask irq s) irq ≡ false)
      × ((j : ℕ) → j < 16 → j ≢ irq → holds_back (pic_unmask irq s) j ≡ holds_back s j)
unfolding pic_unmask
pic_unmask-IsSent s irq h l =
    let same = λ (j : ℕ) (n : j ≢ irq). test_bit-clear_bit_ne s.irq_mask j irq n in
    let k = half_written s irq (clear_bit s.irq_mask irq) h l same in
    let (own, others) =
      sent_lines s irq (clear_bit s.irq_mask irq) (pic_unmask irq s) false h l k
        (mask_kept (ltb irq 8) _) (test_bit-clear_bit s.irq_mask irq) same in
    (k, own, others)
