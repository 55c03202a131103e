-- ===== src/Interrupts/Dispatch.antt =====
-- Which handler an interrupt reaches.
use spbau_os_hw.Prelude.{ℕ, ◌+◌, ◌-◌, ◌<◌, ◌≡◌, refl, arith, ==_refl, lt→ltb, ge→ltb}
use spbau_os_hw.Interrupts.{
  Ints, called, call_irq_handler, int_handler, register_irq_handler, pic_ack,
}

-- A handler registered for one of the 16 lines is called for the interrupt 32 above the line, with
-- the number of the line, after the line was acknowledged.
pub int_handler-register_irq_handler :
    {H : Type 0} (irq : ℕ) (h : H) (s : Ints H)
    → irq < 16
    → (t : Ints H) × (int_handler (32 + irq) (register_irq_handler irq h s) ≡ called h irq t)
      × (t.pic ≡ pic_ack irq s.pic)
unfolding int_handler register_irq_handler call_irq_handler
int_handler-register_irq_handler irq h s l =
    let e : 32 + irq - 32 ≡ irq = omega arith in
    (
      record (register_irq_handler irq h s) { pic = pic_ack irq s.pic },
      rw (ge→ltb (32 + irq) 32 (omega arith), lt→ltb (32 + irq) 48 (omega arith), e)
          (rw (==_refl irq)),
      refl,
    )
