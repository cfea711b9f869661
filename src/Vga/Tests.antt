-- ===== src/Vga/Tests.antt =====
-- The card at its table and a font.
use owmice.Base.{
  ℕ, ◌+◌, ◌*◌, ◌%◌, ◌^◌, ◌<◌, ◌≤◌, ◌≡◌, ◌⊎◌, bit_and, bit_or, refl, arith, true, Option, none, some,
  [], ◌∷◌, Bool-cases, inl, inr, ◌==◌, if◌then◌else◌, ==→eq,
}
use owmice.Memory.{Memory, load8, written}
use owmice.Vga.{
  wrote, got, Ports, Device, g_90x30_text, vga_seq_index, vga_seq_data, vga_gc_index, vga_gc_data,
  segment, write_regs, write_font,
}
use owmice.Vga.Latest.{selects, latest}
use owmice.Vga.Registers.{Programmed, write_regs-Programmed}
use owmice.Vga.Font.{Answers, latest-write_font}
use owmice.Vga.Glyphs.{segment_of, flat, load8-write_font}

-- The register that an index port holds.
index_now : ℕ → Ports → ℕ
index_now index [] = 0
index_now index (wrote port v ∷ t) = if port == index then v else index_now index t
index_now index (got port ∷ t) = index_now index t

byte_or_0 : Option ℕ → ℕ
byte_or_0 none = 0
byte_or_0 (some v) = v

-- A card that keeps what is written.
card : Device
card t port =
    if port == vga_seq_data
    then byte_or_0 (latest vga_seq_index vga_seq_data (index_now vga_seq_index t) t)
    else byte_or_0 (latest vga_gc_index vga_gc_data (index_now vga_gc_index t) t)

index_now_lem : (index k : ℕ) (t : Ports) → selects index k t ≡ true → index_now index t ≡ k
unfolding selects index_now
index_now_lem index k [] h = cc h
index_now_lem index k (wrote port v ∷ t) h = elim (Bool-cases (port == index)) [
  | inl here ↦ rw here (==→eq v k (rw here at h))
  | inr other ↦ rw other (index_now_lem index k t (rw other at h))
]
index_now_lem index k (got port ∷ t) h = index_now_lem index k t h

card-Answers_seq : Answers card vga_seq_index vga_seq_data
unfolding card byte_or_0
card-Answers_seq t k v chosen held = rw (index_now_lem vga_seq_index k t chosen, held) refl

card-Answers_gc : Answers card vga_gc_index vga_gc_data
unfolding card byte_or_0
card-Answers_gc t k v chosen held = rw (index_now_lem vga_gc_index k t chosen, held) refl

-- The registers as the table sets them.
abbrev set_up : Ports
set_up =
    wrote vga_gc_data 14
    ∷ wrote vga_gc_index 6
    ∷ wrote vga_gc_data 16
    ∷ wrote vga_gc_index 5
    ∷ wrote vga_gc_data 0
    ∷ wrote vga_gc_index 4
    ∷ wrote vga_seq_data 2
    ∷ wrote vga_seq_index 4
    ∷ wrote vga_seq_data 3
    ∷ wrote vga_seq_index 2
    ∷ []

abbrev table : Memory
table = written 0x1000 g_90x30_text

write_regs-Programmed_example :
    let (t', m') = write_regs (λ t port. 0xFF) [] table 0x1000 in
    Programmed table m' 0x1000 t'
    × ((a : ℕ)
        → load8 m' a ≡ (
            if a == 0x1000 + 9
            then bit_or (load8 table a) 0x80 % 2 ^ 8
            else if a == 0x1000 + 23
            then bit_and (load8 table a) 0x7F % 2 ^ 8
            else load8 table a))
write_regs-Programmed_example = write_regs-Programmed (λ t port. 0xFF) [] table 0x1000

seq2_held : latest vga_seq_index vga_seq_data 2 set_up ≡ some (3 % 2 ^ 8)
unfolding latest selects
seq2_held = refl

seq4_held : latest vga_seq_index vga_seq_data 4 set_up ≡ some (2 % 2 ^ 8)
unfolding latest selects
seq4_held = refl

gc4_held : latest vga_gc_index vga_gc_data 4 set_up ≡ some (0 % 2 ^ 8)
unfolding latest selects
gc4_held = refl

gc5_held : latest vga_gc_index vga_gc_data 5 set_up ≡ some (16 % 2 ^ 8)
unfolding latest selects
gc5_held = refl

gc6_held : latest vga_gc_index vga_gc_data 6 set_up ≡ some (14 % 2 ^ 8)
unfolding latest selects
gc6_held = refl

latest-write_font_example :
    let t' = (write_font card set_up table 0x400000 16).0 in
    (latest vga_seq_index vga_seq_data 2 t' ≡ latest vga_seq_index vga_seq_data 2 set_up)
    × (latest vga_gc_index vga_gc_data 2 t' ≡ latest vga_gc_index vga_gc_data 2 set_up)
latest-write_font_example =
    latest-write_font card set_up table 0x400000 16 3 2 0 16 14 card-Answers_seq card-Answers_gc
      seq2_held seq4_held gc4_held gc5_held gc6_held 2

font_apart :
    (segment_of (flat 14) * 16 + 8192 ≤ 0x400000)
    ⊎ (0x400000 + 256 * 16 ≤ segment_of (flat 14) * 16)
unfolding segment
font_apart = inl (omega arith)

load8-write_font_example :
    let m' = (write_font card set_up table 0x400000 16).1 in
    let base = segment_of (flat 14) * 16 in
    ((c r : ℕ)
      → c < 256
      → r < 16
      → load8 m' (base + c * 32 + r) ≡ load8 table (0x400000 + c * 16 + r))
    × ((a : ℕ)
        → ((c : ℕ) → c < 256 → (a < base + c * 32) ⊎ (base + c * 32 + 16 ≤ a))
        → load8 m' a ≡ load8 table a)
load8-write_font_example =
    load8-write_font card set_up table 0x400000 16 14 card-Answers_gc (omega arith) gc6_held
      font_apart
