-- ===== src/Interrupts/Table.antt =====
-- The interrupt table: the address in a gate, and the table's pointer.
use owmice.Base.{
  ℕ, ◌+◌, ◌*◌, ◌/◌, ◌%◌, ◌^◌, ◌<◌, ◌≡◌, arith, refl, ap, bit_and, if◌then◌else◌, ◌==◌, Bool-cases,
  inl, inr,
}
use owmice.Bits.{bit_and_low, bit_and_shift}
use owmice.Interrupts.{Idt, Gate, irq_map_handler}

-- Where the processor goes through a gate.
abbrev pub gate_offset : Gate → ℕ
gate_offset g = g.offset_higherbits * 2 ^ 16 + g.offset_lowerbits

high_half : (base : ℕ) → base < 2 ^ 32 → bit_and base 0xffff0000 / 2 ^ 16 ≡ base / 2 ^ 16
high_half base h =
    let parts : base ≡ base / 2 ^ 16 * 2 ^ 16 + base % 2 ^ 16 = omega arith in
    let shift : bit_and (base / 2 ^ 16 * 2 ^ 16 + base % 2 ^ 16) (0xffff * 2 ^ 16)
        ≡ bit_and (base / 2 ^ 16) 0xffff * 2 ^ 16 =
      bit_and_shift 16 (base / 2 ^ 16) (base % 2 ^ 16) 0xffff (omega arith) in
    omega (arith, ap (λ (b : ℕ). bit_and b 0xffff0000) parts, shift, bit_and_low 16 (base / 2 ^ 16))

-- After `irq_map_handler` the gate of the interrupt leads to the handler, and the others lead where
-- they led.
pub gate_offset-irq_map_handler :
    (num base : ℕ) (idt : Idt) (i : ℕ)
    → num < 256
    → base < 2 ^ 32
    → gate_offset (irq_map_handler num base idt i)
      ≡ (if i == num then base else gate_offset (idt i))
unfolding irq_map_handler
gate_offset-irq_map_handler num base idt i hn hb =
    let exact : num % 2 ^ 8 ≡ num = omega arith in
    rw exact (elim (Bool-cases (i == num)) [
      | inl e ↦ rw (e, high_half base hb, bit_and_low 16 base) (omega arith)
      | inr e ↦ rw e refl
    ])
