-- ===== src/Vga/Registers.antt =====
-- What the registers of the card are after `write_regs`.
use owmice.Base.{
  ℕ, ◌+◌, ◌-◌, ◌%◌, ◌^◌, ◌<◌, ◌≡◌, ◌≢◌, bit_and, bit_or, refl, sym, ap, ◌∙◌, arith, ◌&&◌, Option,
  some, Bool-cases, inl, inr, ◌==◌, if◌then◌else◌, ltb, leb, ==→eq, ==→ne,
}
use owmice.Memory.{Memory, load8, store8, load8-store8, load8-lt}
use owmice.Vga.{
  Ports, Device, vga_misc_write, vga_seq_index, vga_seq_data, vga_gc_index, vga_gc_data,
  vga_crtc_index, vga_crtc_data, write_port, read_port, write_indexed, write_attributes,
  unlock_crtc, keep_unlocked, write_regs,
}
use owmice.Vga.Latest.{
  selects, latest, data_next, attribute, last_written, latest-write_indexed,
  latest-write_indexed_other, latest-write_attributes, last_written-write_indexed,
  last_written-write_attributes, attribute-write_attributes,
}

-- The two bytes of the table that are changed.
load8-keep_unlocked :
    (m : Memory) (regs a : ℕ)
    → load8 (keep_unlocked m regs) a ≡ (
        if a == regs + 0x03
        then bit_or (load8 m a) 0x80 % 2 ^ 8
        else if a == regs + 0x11
        then bit_and (load8 m a) 0x7F % 2 ^ 8
        else load8 m a)
unfolding keep_unlocked
load8-keep_unlocked m regs a =
    let m1 = store8 m (regs + 3) (bit_or (load8 m (regs + 3)) 0x80) in
    let first = load8-store8 m (regs + 3) (bit_or (load8 m (regs + 3)) 0x80) in
    let second = load8-store8 m1 (regs + 0x11) (bit_and (load8 m1 (regs + 0x11)) 0x7F) a in
    let kept : load8 m1 (regs + 0x11) ≡ load8 m (regs + 0x11) =
      ground (arith, first (regs + 0x11)) in
    let same : (b : ℕ) → b ≡ a → load8 m b ≡ load8 m a = λ b e. ap (λ (q : ℕ). load8 m q) e in
    elim (Bool-cases (a == regs + 3)) [
      | inl here ↦
          let e : regs + 3 ≡ a = sym (==→eq a (regs + 3) here) in
          rw here
            (ground (arith, second, first a, e, ap (λ (v : ℕ). bit_or v 0x80) (same (regs + 3) e)))
      | inr other ↦ elim (Bool-cases (a == regs + 0x11)) [
        | inl here ↦
            let e : regs + 0x11 ≡ a = sym (==→eq a (regs + 0x11) here) in
            rw (other, here)
              (ground
                (arith, second, e, ap (λ (v : ℕ). bit_and v 0x7F) (kept ∙ same (regs + 0x11) e)))
        | inr neither ↦
            let here : regs + 0x11 ≢ a = λ e. ==→ne a (regs + 0x11) neither (sym e) in
            let there : regs + 3 ≢ a = λ e. ==→ne a (regs + 3) other (sym e) in
            rw (other, neither) (ground (arith, second, first a, here, there))
      ]
    ]

-- A range that starts at 0.
in_range :
    (m : Memory) (regs regs' n k : ℕ) (o : Option ℕ)
    → k < n
    → regs ≡ regs'
    → (if leb 0 k && ltb k (0 + n) then some (load8 m (regs + (k - 0))) else o)
      ≡ some (load8 m (regs' + k))
in_range m regs regs' n k o low e =
    let same : regs + (k - 0) ≡ regs' + k = omega arith in
    ground (arith, ap (λ (q : ℕ). load8 m q) same)

-- What the table says of the registers: the bytes of `m` at `regs` in the order in which they are
-- written, and the CRTC's from `m'`.
abbrev pub Programmed : Memory → Memory → ℕ → Ports → Type 0
Programmed m m' regs t =
    (last_written vga_misc_write t ≡ some (load8 m regs))
    × ((k : ℕ) → k < 5 → latest vga_seq_index vga_seq_data k t ≡ some (load8 m (regs + 1 + k)))
    × ((k : ℕ) → k < 25 → latest vga_crtc_index vga_crtc_data k t ≡ some (load8 m' (regs + 6 + k)))
    × ((k : ℕ) → k < 9 → latest vga_gc_index vga_gc_data k t ≡ some (load8 m (regs + 31 + k)))
    × ((k : ℕ) → k < 21 → attribute k t ≡ some (load8 m (regs + 40 + k)))

-- After `write_regs`, whatever the card answers, each register was last written with its byte of the
-- table: the first for the miscellaneous register, then 5 of the sequencer, 25 of the CRTC, 9 of the
-- graphics controller and 21 of the attribute controller. In the table, the top bit of the byte for
-- CRTC register 3 is set and that of the byte for CRTC register 17 is clear, and no other byte changes.
pub write_regs-Programmed :
    (device : Device) (t : Ports) (m : Memory) (regs : ℕ)
    → let (t', m') = write_regs device t m regs in
      Programmed m m' regs t'
      × ((a : ℕ)
          → load8 m' a ≡ (
              if a == regs + 9
              then bit_or (load8 m a) 0x80 % 2 ^ 8
              else if a == regs + 23
              then bit_and (load8 m a) 0x7F % 2 ^ 8
              else load8 m a))
unfolding write_regs latest selects attribute data_next last_written write_port read_port
    unlock_crtc
write_regs-Programmed device t m regs =
    let t1 = write_port t vga_misc_write (load8 m regs) in
    let t2 = write_indexed 5 0 t1 vga_seq_index vga_seq_data m (regs + 1) in
    let t3 = unlock_crtc device t2 in
    let m' = keep_unlocked m (regs + 1 + 5) in
    let t4 = write_indexed 25 0 t3 vga_crtc_index vga_crtc_data m' (regs + 1 + 5) in
    let t5 = write_indexed 9 0 t4 vga_gc_index vga_gc_data m' (regs + 1 + 5 + 25) in
    let behind = regs + 1 + 5 + 25 + 9 in
    let t6 = write_attributes 21 0 device t5 m' behind in
    let changed = load8-keep_unlocked m (regs + 1 + 5) in
    let seq = λ (k : ℕ).
      latest-write_attributes 21 0 device t5 m' behind vga_seq_index vga_seq_data k refl
      ∙ latest-write_indexed_other vga_gc_index vga_gc_data m' 9 0 t4 (regs + 1 + 5 + 25)
          vga_seq_index vga_seq_data k refl refl
      ∙ latest-write_indexed_other vga_crtc_index vga_crtc_data m' 25 0 t3 (regs + 1 + 5)
          vga_seq_index vga_seq_data k refl refl
      ∙ latest-write_indexed vga_seq_index vga_seq_data refl m 5 0 t1 (regs + 1) k (omega arith) in
    let crtc = λ (k : ℕ).
      latest-write_attributes 21 0 device t5 m' behind vga_crtc_index vga_crtc_data k refl
      ∙ latest-write_indexed_other vga_gc_index vga_gc_data m' 9 0 t4 (regs + 1 + 5 + 25)
          vga_crtc_index vga_crtc_data k refl refl
      ∙ latest-write_indexed vga_crtc_index vga_crtc_data refl m' 25 0 t3 (regs + 1 + 5) k
          (omega arith) in
    let gc = λ (k : ℕ).
      latest-write_attributes 21 0 device t5 m' behind vga_gc_index vga_gc_data k refl
      ∙ latest-write_indexed vga_gc_index vga_gc_data refl m' 9 0 t4 (regs + 1 + 5 + 25) k
          (omega arith) in
    let misc : last_written vga_misc_write t6 ≡ some (load8 m regs) =
      last_written-write_attributes 21 0 device t5 m' behind vga_misc_write refl
      ∙ last_written-write_indexed vga_gc_index vga_gc_data m' 9 0 t4 (regs + 1 + 5 + 25)
          vga_misc_write refl refl
      ∙ last_written-write_indexed vga_crtc_index vga_crtc_data m' 25 0 t3 (regs + 1 + 5)
          vga_misc_write refl refl
      ∙ last_written-write_indexed vga_seq_index vga_seq_data m 5 0 t1 (regs + 1) vga_misc_write
          refl refl
      ∙ ap some (omega (arith, load8-lt m regs)) in
    (
      (
        misc,
        λ k low. seq k ∙ in_range m (regs + 1) (regs + 1) 5 k _ low refl,
        λ k low. crtc k ∙ in_range m' (regs + 1 + 5) (regs + 6) 25 k _ low (omega arith),
        λ k low.
            gc k
            ∙ in_range m' (regs + 1 + 5 + 25) (regs + 31) 9 k _ low (omega arith)
            ∙ ap some (ground (arith, changed (regs + 31 + k))),
        λ k low.
            attribute-write_attributes 21 0 device t5 m' behind k (omega arith)
            ∙ in_range m' behind (regs + 40) 21 k _ low (omega arith)
            ∙ ap some (ground (arith, changed (regs + 40 + k))),
      ),
      λ a. ground (arith, changed a),
    )
