-- ===== src/Interrupts/Gates.antt =====
-- The gates of the interrupt table: `idt_entry_setup` and `idt_setup` of src/src/ints.c.
use spbau_os_hw.Prelude.{
  ℕ, zero, suc, ◌+◌, ◌*◌, ◌/◌, ◌%◌, ◌^◌, ◌<◌, ◌≡◌, refl, ◌∙◌, arith, update, if◌then◌else◌, ltb,
  leb, ◌&&◌,
}
use native.Mathlib.Decide.{ℕ_discrete}
use spbau_os_hw.Interrupts.{Pic, pic_setup}
use spbau_os_hw.Prelude.Words.{word_or, word_or-add, word_or_zero, word_or_comm, word_or-split}

-- `struct idt_entry`
pub record Gate : Type 0 where
  pub low : ℕ
  pub high : ℕ

-- IDT_PRESENT and IDT_INT_GATE
abbrev pub idt_present : ℕ
idt_present = 2 ^ 47

abbrev pub idt_int_gate : ℕ
idt_int_gate = 14 * 2 ^ 40

abbrev pub kernel_cs : ℕ
kernel_cs = 8

unfoldable pub idt_entry_setup : (selector handler flags : ℕ) → Gate
idt_entry_setup selector handler flags = record {
  low =
      word_or 64
        (word_or 64 (word_or 64 (handler % 2 ^ 16) (selector * 2 ^ 16))
          (handler / 2 ^ 16 % 2 ^ 16 * 2 ^ 16 * 2 ^ 32 % 2 ^ 64))
        flags;
  high = handler / 2 ^ 32 % 2 ^ 32;
}

-- The loop of `idt_setup`, from the entry `i` on.
unfoldable pub idt_loop : (n i : ℕ) (int_entry : ℕ → ℕ) → (ℕ → Gate) → ℕ → Gate
idt_loop zero i int_entry idt = idt
idt_loop (suc n) i int_entry idt =
    idt_loop n (suc i) int_entry
      (update idt i (idt_entry_setup kernel_cs (int_entry i) (word_or 64 idt_present idt_int_gate)))

unfoldable pub idt_setup : (int_entry : ℕ → ℕ) → (ℕ → Gate) → ℕ → Gate
idt_setup int_entry idt = idt_loop 256 0 int_entry idt

-- The three parts of the low word, and the flags between them.
low_sum :
    (a s h f : ℕ)
    → a < 2 ^ 16
    → s < 2 ^ 16
    → h < 2 ^ 16
    → f < 2 ^ 16
    → word_or 64
        (word_or 64 (word_or 64 a (s * 2 ^ 16)) (h * 2 ^ 16 * 2 ^ 32 % 2 ^ 64))
        (f * 2 ^ 32)
      ≡ a + s * 2 ^ 16 + f * 2 ^ 32 + h * 2 ^ 48
low_sum a s h f la ls lh lf =
    let e1 : word_or 64 a (s * 2 ^ 16) ≡ s * 2 ^ 16 + a =
      word_or_comm 64 a (s * 2 ^ 16)
      ∙ word_or-add 64 16 s a la (omega (arith, ls)) (omega (arith, la)) in
    let m = s * 2 ^ 16 + a in
    let shifted : h * 2 ^ 16 * 2 ^ 32 % 2 ^ 64 ≡ h * 2 ^ 48 = omega (arith, lh) in
    let e2 : word_or 64 m (h * 2 ^ 48) ≡ h * 2 ^ 48 + m =
      word_or_comm 64 m (h * 2 ^ 48)
      ∙ word_or-add 64 48 h m (omega (arith, la, ls)) (omega (arith, lh)) (omega (arith, la, ls)) in
    let high : word_or 32 (h * 2 ^ 16) f ≡ h * 2 ^ 16 + f =
      word_or-add 32 16 h f lf (omega (arith, lh)) (omega (arith, lf)) in
    let low : word_or 32 m 0 ≡ m = word_or_zero 32 m (omega (arith, la, ls)) in
    let parts : word_or 64 (h * 2 ^ 48 + m) (f * 2 ^ 32) ≡ (h * 2 ^ 16 + f) * 2 ^ 32 + m =
      rw
        (
          high,
          low,
          (let x : h * 2 ^ 16 * 2 ^ 32 ≡ h * 2 ^ 48 = omega arith in x),
          (let y : f * 2 ^ 32 + 0 ≡ f * 2 ^ 32 = omega arith in y),
        )
        at (word_or-split 32 32 (h * 2 ^ 16) f m 0 (omega (arith, la, ls)) (omega arith)) in
    rw (e1, shifted, e2, parts) (omega arith)

-- What the processor reads in a gate.
abbrev pub offset_of : Gate → ℕ
offset_of g = g.low % 2 ^ 16 + g.low / 2 ^ 48 * 2 ^ 16 + g.high * 2 ^ 32

abbrev pub selector_of : Gate → ℕ
selector_of g = g.low / 2 ^ 16 % 2 ^ 16

abbrev pub flags_of : Gate → ℕ
flags_of g = g.low / 2 ^ 32 % 2 ^ 16

-- The gate that `idt_entry_setup` makes of a selector of 16 bits, an address of 64 bits and flags from
-- bit 32 to bit 47 gives back the three of them.
pub idt_entry_setup-read :
    (selector handler f : ℕ)
    → selector < 2 ^ 16
    → handler < 2 ^ 64
    → f < 2 ^ 16
    → (offset_of (idt_entry_setup selector handler (f * 2 ^ 32)) ≡ handler)
      × (selector_of (idt_entry_setup selector handler (f * 2 ^ 32)) ≡ selector)
      × (flags_of (idt_entry_setup selector handler (f * 2 ^ 32)) ≡ f)
unfolding idt_entry_setup
idt_entry_setup-read selector handler f ls lh lf =
    let a = handler % 2 ^ 16 in
    let h = handler / 2 ^ 16 % 2 ^ 16 in
    let la : a < 2 ^ 16 = omega arith in
    let lb : h < 2 ^ 16 = omega arith in
    rw (low_sum a selector h f la ls lb lf)
      (omega (arith, ls, lh, lf), omega (arith, ls, lh, lf), omega (arith, ls, lh, lf))

-- The gate of an entry of __int_entry.
abbrev int_gate : ℕ → Gate
int_gate handler = idt_entry_setup kernel_cs handler (word_or 64 idt_present idt_int_gate)

idt_loop_lem :
    (n i : ℕ) (int_entry : ℕ → ℕ) (idt : ℕ → Gate) (j : ℕ)
    → idt_loop n i int_entry idt j
      ≡ (if leb i j && ltb j (i + n) then int_gate (int_entry j) else idt j)
unfolding idt_loop
idt_loop_lem zero i int_entry idt j = ground arith
idt_loop_lem (suc n) i int_entry idt j =
    idt_loop_lem n (suc i) int_entry (update idt i (int_gate (int_entry i))) j
    ∙ elim (ℕ_discrete j i) [ yes e ↦ rw e (ground arith) | no d ↦ ground (arith, d) ]

flags_word : word_or 64 idt_present idt_int_gate ≡ 0x8e00 * 2 ^ 32
unfolding word_or
flags_word = refl

-- After `idt_setup` each of the 256 gates leads to its entry of __int_entry in the kernel's code
-- segment, and its flags say that it is present, an interrupt gate, and not for user code.
pub idt_setup_lem :
    (int_entry : ℕ → ℕ) (idt : ℕ → Gate) (j : ℕ)
    → ((i : ℕ) → int_entry i < 2 ^ 64)
    → j < 256
    → (offset_of (idt_setup int_entry idt j) ≡ int_entry j)
      × (selector_of (idt_setup int_entry idt j) ≡ 8)
      × (flags_of (idt_setup int_entry idt j) ≡ 0x8e00)
unfolding idt_setup
idt_setup_lem int_entry idt j small l =
    let e : idt_loop 256 0 int_entry idt j ≡ int_gate (int_entry j) =
      idt_loop_lem 256 0 int_entry idt j ∙ ground (arith, l) in
    rw (e, flags_word)
      (idt_entry_setup-read 8 (int_entry j) 0x8e00 (omega arith) (small j) (omega arith))

-- `ints_setup`: the gates, and the controller, which then numbers its lines from 32 on.
unfoldable pub ints_setup : (int_entry : ℕ → ℕ) → (ℕ → Gate) × Pic → (ℕ → Gate) × Pic
ints_setup int_entry s = (idt_setup int_entry s.0, pic_setup 32 s.1)
