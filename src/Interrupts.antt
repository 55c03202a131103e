-- ===== src/Interrupts.antt =====
-- The interrupt controller of src/src/i8259a.c and the dispatch of src/src/ints.c.
-- What the code does to the controller is the list of its writes to ports, the last one first.
pub mod Lines
pub mod Dispatch
pub mod Timer
pub mod Gates
mod Tests
use spbau_os_hw.Prelude.{
  ℕ, ◌+◌, ◌-◌, ◌*◌, ◌/◌, ◌%◌, ◌^◌, Bool, true, false, List, [], ◌∷◌, Option, none, some, ltb, ◌==◌,
  if◌then◌else◌, update,
}
use spbau_os_hw.Prelude.Bits.{set_bit, clear_bit}

-- `out8` of a value to a port
pub record Write : Type 0 where
  pub port : ℕ
  pub value : ℕ

-- `pic_irq_mask` and the writes.
pub record Pic : Type 0 where
  pub irq_mask : ℕ
  pub writes : List Write

abbrev pub master_cmd : ℕ
master_cmd = 0x20

abbrev pub master_data : ℕ
master_data = 0x21

abbrev pub slave_cmd : ℕ
slave_cmd = 0xA0

abbrev pub slave_data : ℕ
slave_data = 0xA1

abbrev pub out8 : ℕ → ℕ → Pic → Pic
out8 port value s = record s { writes = record { port = port; value = value % 256 } ∷ s.writes }

-- `pic_irq_mask` at the start: all bits of a word but that of PIC_SLAVE_IRQ
abbrev pub start : Pic
start = record { irq_mask = 2 ^ 32 - 1 - 2 ^ 2; writes = [] }

abbrev pub write_master : Pic → Pic
write_master s = out8 master_data (s.irq_mask % 256) s

abbrev pub write_slave : Pic → Pic
write_slave s = out8 slave_data (s.irq_mask / 256 % 256) s

unfoldable pub pic_setup : ℕ → Pic → Pic
pic_setup offset s =
    let s1 = out8 slave_cmd (2 ^ 0 + 2 ^ 4) (out8 master_cmd (2 ^ 0 + 2 ^ 4) s) in
    let s2 = out8 slave_data (offset + 8) (out8 master_data offset s1) in
    let s3 = out8 slave_data 2 (out8 master_data (2 ^ 2) s2) in
    let s4 = out8 slave_data (2 ^ 0) (out8 master_data (2 ^ 0) s3) in write_slave (write_master s4)

unfoldable pub pic_mask : ℕ → Pic → Pic
pic_mask irq s =
    let s' : Pic = record s { irq_mask = set_bit s.irq_mask irq } in
    if ltb irq 8 then write_master s' else write_slave s'

unfoldable pub pic_unmask : ℕ → Pic → Pic
pic_unmask irq s =
    let s' : Pic = record s { irq_mask = clear_bit s.irq_mask irq } in
    if ltb irq 8 then write_master s' else write_slave s'

unfoldable pub pic_ack : ℕ → Pic → Pic
pic_ack irq s =
    if ltb irq 8
    then out8 master_cmd (0x60 + irq) s
    else out8 master_cmd (0x60 + 2) (out8 slave_cmd (0x60 + irq % 8) s)

-- The handlers of type `H` that are registered, and the controller.
pub record Ints (H : Type 0) : Type 0 where
  pub irq_handler : ℕ → Option H
  pub error_handler : ℕ → Option H
  pub pic : Pic

-- What an interrupt comes to: a call of a handler with its number, or `unexpected_interrupt`,
-- which prints and never returns.
pub data Outcome (H : Type 0) : Type 0 where
  called : H → ℕ → Ints H → Outcome H
  unexpected : Outcome H

module _ {H : Type 0} where
  abbrev pub call : Option H → ℕ → Ints H → Outcome H
  call none n s = unexpected
  call (some h) n s = called h n s

  unfoldable pub call_error_handler : ℕ → Ints H → Outcome H
  call_error_handler error s = call (s.error_handler error) error s

  unfoldable pub call_irq_handler : ℕ → Ints H → Outcome H
  call_irq_handler irq s = call (s.irq_handler irq) irq (record s { pic = pic_ack irq s.pic })

  -- `__int_handler`
  unfoldable pub int_handler : ℕ → Ints H → Outcome H
  int_handler intno s =
      if ltb intno 32
      then call_error_handler intno s
      else if ltb intno (32 + 16)
      then call_irq_handler (intno - 32) s
      else unexpected

  unfoldable pub register_error_handler : ℕ → H → Ints H → Ints H
  register_error_handler error h s = record s {
    error_handler = update s.error_handler error (some h);
  }

  unfoldable pub register_irq_handler : ℕ → H → Ints H → Ints H
  register_irq_handler irq h s = record s { irq_handler = update s.irq_handler irq (some h) }

  unfoldable pub activate_irq : ℕ → Ints H → Ints H
  activate_irq irq s = record s { pic = pic_unmask irq s.pic }

  unfoldable pub deactivate_irq : ℕ → Ints H → Ints H
  deactivate_irq irq s = record s { pic = pic_mask irq s.pic }
