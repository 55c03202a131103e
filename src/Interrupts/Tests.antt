-- ===== src/Interrupts/Tests.antt =====
-- Uses of the theorems on interrupts.
use spbau_os_hw.Prelude.{ℕ, ◌+◌, ◌*◌, ◌%◌, ◌≡◌, arith, false, none}
use spbau_os_hw.Interrupts.{
  Pic, start, pic_setup, pic_ack, Ints, called, int_handler, register_irq_handler,
}
use spbau_os_hw.Interrupts.Lines.{IsSent, holds_back, pic_setup-IsSent}
use spbau_os_hw.Interrupts.Gates.{idt_setup, offset_of, selector_of, flags_of, idt_setup_lem}
use spbau_os_hw.Interrupts.Timer.{time_setup, time_setup_lem}
use spbau_os_hw.Interrupts.Dispatch.{int_handler-register_irq_handler}

abbrev ready : Pic
ready = pic_setup 32 start

ready-IsSent : IsSent ready
ready-IsSent = pic_setup-IsSent 32 start

abbrev nothing_registered : Ints ℕ
nothing_registered = record { irq_handler = λ _. none; error_handler = λ _. none; pic = ready }

int_handler-register_irq_handler_example :
    (t : Ints ℕ) × (int_handler (32 + 0) (register_irq_handler 0 7 nothing_registered)
      ≡ called 7 0 t)
    × (t.pic ≡ pic_ack 0 nothing_registered.pic)
int_handler-register_irq_handler_example =
    int_handler-register_irq_handler 0 7 nothing_registered (omega arith)

time_setup_lem_example :
    IsSent (time_setup 7 nothing_registered).pic
    × (holds_back (time_setup 7 nothing_registered).pic 0 ≡ false)
    × ((t : Ints ℕ) × (int_handler 32 (time_setup 7 nothing_registered) ≡ called 7 0 t))
time_setup_lem_example = time_setup_lem 7 nothing_registered ready-IsSent

-- Entries of 16 bytes each.
abbrev int_entry : ℕ → ℕ
int_entry i = 0xffffffff80100000 + i % 256 * 16

idt_setup_lem_example :
    (offset_of (idt_setup int_entry (λ i. record { low = 0; high = 0 }) 33) ≡ int_entry 33)
    × (selector_of (idt_setup int_entry (λ i. record { low = 0; high = 0 }) 33) ≡ 8)
    × (flags_of (idt_setup int_entry (λ i. record { low = 0; high = 0 }) 33) ≡ 0x8e00)
idt_setup_lem_example =
    idt_setup_lem int_entry (λ i. record { low = 0; high = 0 }) 33 (λ i. omega arith) (omega arith)
