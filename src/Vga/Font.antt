-- ===== src/Vga/Font.antt =====
-- `write_font` leaves the registers as they were.
use owmice.Base.{
  ℕ, zero, suc, ◌+◌, ◌-◌, ◌*◌, ◌%◌, ◌^◌, ◌≡◌, ◌≢◌, bit_and, bit_or, refl, sym, ap, ◌∙◌, arith, true,
  false, some, ◌∷◌, Bool-cases, inl, inr, ◌==◌, if◌then◌else◌, ==→eq, ==→ne,
}
use owmice.Memory.{Memory}
use owmice.Vga.{
  got, Ports, Device, vga_seq_index, vga_seq_data, vga_gc_index, vga_gc_data, write_port, read_port,
  set_plane, get_fb_seg, vmemwr, write_glyphs, save_registers, restore_registers, write_font,
}
use owmice.Vga.Latest.{selects, latest}

-- A read of a data port gives what was last written to the register that is selected.
abbrev pub Answers : Device → ℕ → ℕ → Type 0
Answers device index data_port =
    (t : Ports) (k v : ℕ)
    → selects index k t ≡ true
    → latest index data_port k t ≡ some v
    → device t data_port ≡ v

-- The glyphs select register 6 of the graphics controller and write to no register.
latest-write_glyphs :
    (left i : ℕ) (device : Device) (t : Ports) (m : Memory) (buf height index data_port k : ℕ)
    → (vga_gc_index == data_port) ≡ false
    → latest index data_port k ((write_glyphs left i device t m buf height).0)
      ≡ latest index data_port k t
unfolding write_glyphs vmemwr get_fb_seg latest write_port read_port
latest-write_glyphs zero i device t m buf height index data_port k p = refl
latest-write_glyphs (suc left) i device t m buf height index data_port k p =
    let (t1, m1) = vmemwr device t m (16384 * 0 + i * 32) buf height in
    latest-write_glyphs left (i + 1) device t1 m1 (buf + height) height index data_port k p
    ∙ rw p refl

-- The values that are saved are those of the five registers.
saved_values :
    (device : Device) (t : Ports) (a b c d e : ℕ)
    → Answers device vga_seq_index vga_seq_data
    → Answers device vga_gc_index vga_gc_data
    → latest vga_seq_index vga_seq_data 2 t ≡ some a
    → latest vga_seq_index vga_seq_data 4 t ≡ some b
    → latest vga_gc_index vga_gc_data 4 t ≡ some c
    → latest vga_gc_index vga_gc_data 5 t ≡ some d
    → latest vga_gc_index vga_gc_data 6 t ≡ some e
    → let (seq2, seq4, gc4, gc5, gc6) = (save_registers device t).0 in
      (seq2 ≡ a % 2 ^ 8)
      × (seq4 ≡ b % 2 ^ 8)
      × (gc4 ≡ c % 2 ^ 8)
      × (gc5 ≡ d % 2 ^ 8)
      × (gc6 ≡ e % 2 ^ 8)
unfolding save_registers latest selects write_port read_port
saved_values device t a b c d e seq gc ha hb hc hd he =
    let t1 = write_port t vga_seq_index 2 in
    let t2 = write_port (got vga_seq_data ∷ t1) vga_seq_index 4 in
    let t3 =
      write_port (got vga_seq_data ∷ t2) vga_seq_data (bit_or (device t2 vga_seq_data % 2 ^ 8) 4) in
    let t4 = write_port t3 vga_gc_index 4 in
    let t5 = write_port (got vga_gc_data ∷ t4) vga_gc_index 5 in
    let t6 =
      write_port (got vga_gc_data ∷ t5) vga_gc_data
        (bit_and (device t5 vga_gc_data % 2 ^ 8) (2 ^ 8 - 1 - 0x10)) in
    let t7 = write_port t6 vga_gc_index 6 in
    let byte = λ (v : ℕ). v % 2 ^ 8 in
    (
      ap byte (seq t1 2 a refl ha),
      ap byte (seq t2 4 b refl hb),
      ap byte (gc t4 4 c refl hc),
      ap byte (gc t5 5 d refl hd),
      ap byte (gc t7 6 e refl he),
    )

-- What the registers are behind the restoring writes, whatever was written before.
latest-restore_registers :
    (t : Ports) (a b c d e k : ℕ)
    → (latest vga_seq_index vga_seq_data k (restore_registers t (a, b, c, d, e)) ≡ (
        if k == 4
        then some (b % 2 ^ 8)
        else if k == 2
        then some (a % 2 ^ 8)
        else latest vga_seq_index vga_seq_data k t))
      × (latest vga_gc_index vga_gc_data k (restore_registers t (a, b, c, d, e)) ≡ (
          if k == 6
          then some (e % 2 ^ 8)
          else if k == 5
          then some (d % 2 ^ 8)
          else if k == 4
          then some (c % 2 ^ 8)
          else latest vga_gc_index vga_gc_data k t))
unfolding restore_registers latest selects write_port
latest-restore_registers t a b c d e k = (ground arith, ground arith)

-- Before the glyphs, the other registers are as they were.
latest-set_plane :
    (device : Device) (t : Ports) (k : ℕ)
    → let ready = set_plane ((save_registers device t).1) 2 in
      (k ≢ 2
        → k ≢ 4
        → latest vga_seq_index vga_seq_data k ready ≡ latest vga_seq_index vga_seq_data k t)
      × (k ≢ 4
          → k ≢ 5
          → k ≢ 6
          → latest vga_gc_index vga_gc_data k ready ≡ latest vga_gc_index vga_gc_data k t)
unfolding set_plane save_registers latest selects write_port read_port
latest-set_plane device t k = (λ p q. ground arith, λ p q r. ground arith)

-- On a card that answers a read of a register by what was last written to it, with the five registers
-- 2 and 4 of the sequencer and 4, 5 and 6 of the graphics controller written before, `write_font`
-- leaves every register of the sequencer and of the graphics controller as it was.
pub latest-write_font :
    (device : Device) (t : Ports) (m : Memory) (buf height a b c d e : ℕ)
    → Answers device vga_seq_index vga_seq_data
    → Answers device vga_gc_index vga_gc_data
    → latest vga_seq_index vga_seq_data 2 t ≡ some (a % 2 ^ 8)
    → latest vga_seq_index vga_seq_data 4 t ≡ some (b % 2 ^ 8)
    → latest vga_gc_index vga_gc_data 4 t ≡ some (c % 2 ^ 8)
    → latest vga_gc_index vga_gc_data 5 t ≡ some (d % 2 ^ 8)
    → latest vga_gc_index vga_gc_data 6 t ≡ some (e % 2 ^ 8)
    → (k : ℕ)
    → let t' = (write_font device t m buf height).0 in
      (latest vga_seq_index vga_seq_data k t' ≡ latest vga_seq_index vga_seq_data k t)
      × (latest vga_gc_index vga_gc_data k t' ≡ latest vga_gc_index vga_gc_data k t)
unfolding write_font
latest-write_font device t m buf height a b c d e seq gc ha hb hc hd he k =
    let (seq2, seq4, gc4, gc5, gc6) = (save_registers device t).0 in
    let (sa, sb, sc, sd, se) =
      saved_values device t (a % 2 ^ 8) (b % 2 ^ 8) (c % 2 ^ 8) (d % 2 ^ 8) (e % 2 ^ 8) seq gc ha hb
        hc hd he in
    let ready = set_plane ((save_registers device t).1) 2 in
    let t1 = (write_glyphs 256 0 device ready m buf height).0 in
    let (seq_end, gc_end) = latest-restore_registers t1 seq2 seq4 gc4 gc5 gc6 k in
    let (seq_kept, gc_kept) = latest-set_plane device t k in
    let seq_at = λ (j : ℕ). latest vga_seq_index vga_seq_data j t in
    let gc_at = λ (j : ℕ). latest vga_gc_index vga_gc_data j t in
    let seq_glyphs =
      latest-write_glyphs 256 0 device ready m buf height vga_seq_index vga_seq_data k refl in
    let gc_glyphs =
      latest-write_glyphs 256 0 device ready m buf height vga_gc_index vga_gc_data k refl in
    (
      seq_end ∙ elim (Bool-cases (k == 4)) [
        | inl e4 ↦ rw e4 (ap some (omega (arith, sb)) ∙ sym hb ∙ ap seq_at (sym (==→eq k 4 e4)))
        | inr n4 ↦ elim (Bool-cases (k == 2)) [
          | inl e2 ↦
              rw (n4, e2) (ap some (omega (arith, sa)) ∙ sym ha ∙ ap seq_at (sym (==→eq k 2 e2)))
          | inr n2 ↦ rw (n4, n2) (seq_glyphs ∙ seq_kept (==→ne k 2 n2) (==→ne k 4 n4))
        ]
      ],
      gc_end ∙ elim (Bool-cases (k == 6)) [
        | inl e6 ↦ rw e6 (ap some (omega (arith, se)) ∙ sym he ∙ ap gc_at (sym (==→eq k 6 e6)))
        | inr n6 ↦ elim (Bool-cases (k == 5)) [
          | inl e5 ↦
              rw (n6, e5) (ap some (omega (arith, sd)) ∙ sym hd ∙ ap gc_at (sym (==→eq k 5 e5)))
          | inr n5 ↦ elim (Bool-cases (k == 4)) [
            | inl e4 ↦
                rw (n6, n5, e4)
                  (ap some (omega (arith, sc)) ∙ sym hc ∙ ap gc_at (sym (==→eq k 4 e4)))
            | inr n4 ↦
                rw (n6, n5, n4) (gc_glyphs ∙ gc_kept (==→ne k 4 n4) (==→ne k 5 n5) (==→ne k 6 n6))
          ]
        ]
      ],
    )
