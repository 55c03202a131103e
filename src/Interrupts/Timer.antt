-- ===== src/Interrupts/Timer.antt =====
-- The timer of src/src/time.c: its divisor, and its line of the interrupt controller.
use native.Mathlib.Nat.{div-lt_iff_lt-mul}
use spbau_os_hw.Prelude.{ℕ, ◌+◌, ◌*◌, ◌/◌, ◌%◌, ◌≤◌, ◌<◌, ◌≡◌, refl, arith, false, ◌∷◌}
use spbau_os_hw.Interrupts.{
  Pic, out8, Ints, called, int_handler, register_irq_handler, activate_irq, call_irq_handler,
}
use spbau_os_hw.Interrupts.Lines.{IsSent, holds_back, last_to, pic_unmask-IsSent}

unfoldable pub pit_divisor : ℕ → ℕ
pit_divisor freq = 1193180 / freq

-- Channel 0, both bytes, mode 2.
abbrev pub pit_cmd : ℕ
pit_cmd = 2 * 2 + 3 * 16

unfoldable pub pit_set_frequency : ℕ → Pic → Pic
pit_set_frequency freq s =
    out8 0x40 (pit_divisor freq / 256 % 256)
      (out8 0x40 (pit_divisor freq % 256) (out8 0x43 pit_cmd s))

-- `time_setup`, with the handler of the timer.
unfoldable pub time_setup : {H : Type 0} → H → Ints H → Ints H
time_setup h s =
    let t = register_irq_handler 0 h s in
    activate_irq 0 (record t { pic = pit_set_frequency 100 t.pic })

-- For a frequency of at least 19 the two bytes that are written, low byte first, make up the
-- divisor of the timer's clock.
pub pit_set_frequency_lem :
    (freq : ℕ) (s : Pic)
    → 19 ≤ freq
    → (lo hi : ℕ) × ((pit_set_frequency freq s).writes
        ≡ record { port = 0x40; value = hi }
          ∷ record { port = 0x40; value = lo }
          ∷ record { port = 0x43; value = 52 }
          ∷ s.writes)
      × (lo + 256 * hi ≡ 1193180 / freq)
unfolding pit_set_frequency pit_divisor
pit_set_frequency_lem freq s h =
    let b : 1193180 / freq < 65536 =
      (div-lt_iff_lt-mul {k = freq} {x = 1193180} {y = 65536} (omega arith)).1 (omega arith) in
    (1193180 / freq % 256 % 256, 1193180 / freq / 256 % 256 % 256, refl, omega (arith, b))

pit_set_frequency-IsSent : (freq : ℕ) (s : Pic) → IsSent s → IsSent (pit_set_frequency freq s)
unfolding pit_set_frequency last_to
pit_set_frequency-IsSent freq s h = record {
  low = λ irq l. h.low irq l;
  high = λ irq l m. h.high irq l m;
}

-- If the controller has the mask, then after `time_setup` it still has the mask that the code keeps,
-- it lets the timer's line through, and interrupt 32 calls the timer's handler.
pub time_setup_lem :
    {H : Type 0} (h : H) (s : Ints H)
    → IsSent s.pic
    → IsSent (time_setup h s).pic
      × (holds_back (time_setup h s).pic 0 ≡ false)
      × ((t : Ints H) × (int_handler 32 (time_setup h s) ≡ called h 0 t))
unfolding time_setup activate_irq register_irq_handler int_handler call_irq_handler
time_setup_lem h s i =
    let p = pit_set_frequency 100 s.pic in
    let (a, b, c) = pic_unmask-IsSent p 0 (pit_set_frequency-IsSent 100 s.pic i) (omega arith) in
    (a, b, (_, refl))
