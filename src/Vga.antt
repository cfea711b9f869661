-- ===== src/Vga.antt =====
-- The registers and the font of screen/vga.h. The ports are a list of events, the last one first, and
-- what a read of a port gives is a function of the events before it. A table of registers and a font
-- are bytes in memory.
pub mod Latest
pub mod Registers
pub mod Font
pub mod Glyphs
mod Tests
use owmice.Base.{
  ℕ, zero, suc, ◌+◌, ◌-◌, ◌*◌, ◌/◌, ◌%◌, ◌^◌, bit_and, bit_or, List, [], ◌∷◌, ◌==◌, if◌then◌else◌,
}
use owmice.Memory.{Memory, load8, store8}
use owmice.Bytes.{memcpy}

pub data Event : Type 0 where
  wrote : ℕ → ℕ → Event
  got : ℕ → Event

abbrev pub Ports : Type 0
Ports = List Event

-- What a read of a port gives after the events.
abbrev pub Device : Type 0
Device = Ports → ℕ → ℕ

abbrev pub vga_ac_index : ℕ
vga_ac_index = 0x3C0

abbrev pub vga_ac_write : ℕ
vga_ac_write = 0x3C0

abbrev pub vga_misc_write : ℕ
vga_misc_write = 0x3C2

abbrev pub vga_seq_index : ℕ
vga_seq_index = 0x3C4

abbrev pub vga_seq_data : ℕ
vga_seq_data = 0x3C5

abbrev pub vga_gc_index : ℕ
vga_gc_index = 0x3CE

abbrev pub vga_gc_data : ℕ
vga_gc_data = 0x3CF

abbrev pub vga_crtc_index : ℕ
vga_crtc_index = 0x3D4

abbrev pub vga_crtc_data : ℕ
vga_crtc_data = 0x3D5

abbrev pub vga_instat_read : ℕ
vga_instat_read = 0x3DA

abbrev pub vga_num_seq_regs : ℕ
vga_num_seq_regs = 5

abbrev pub vga_num_crtc_regs : ℕ
vga_num_crtc_regs = 25

abbrev pub vga_num_gc_regs : ℕ
vga_num_gc_regs = 9

abbrev pub vga_num_ac_regs : ℕ
vga_num_ac_regs = 21

unfoldable pub write_port : Ports → ℕ → ℕ → Ports
write_port t port v = wrote port (v % 2 ^ 8) ∷ t

-- The byte that is read, and the ports afterwards. `read_port` returns a `char`, of which the callers
-- use the lower 8 bits.
unfoldable pub read_port : Device → Ports → ℕ → ℕ × Ports
read_port device t port = (device t port % 2 ^ 8, got port ∷ t)

unfoldable pub set_plane : Ports → ℕ → Ports
set_plane t p =
    let p = bit_and p 3 in
    let pmask = 2 ^ p in
    let t = write_port (write_port t vga_gc_index 4) vga_gc_data p in
    write_port (write_port t vga_seq_index 2) vga_seq_data pmask

-- The `switch` on the two bits of `seg`.
unfoldable pub segment : ℕ → ℕ
segment seg = if seg == 2 then 0xB000 else if seg == 3 then 0xB800 else 0xA000

unfoldable pub get_fb_seg : Device → Ports → ℕ × Ports
get_fb_seg device t =
    let (seg, t) = read_port device (write_port t vga_gc_index 6) vga_gc_data in
    (segment (bit_and (seg / 2 ^ 2) 3), t)

unfoldable pub vmemwr : Device → Ports → Memory → ℕ → ℕ → ℕ → Ports × Memory
vmemwr device t m dst_off src count =
    let (seg, t) = get_fb_seg device t in (t, memcpy m (seg * 16 + dst_off) src count)

-- The loops of `write_regs` over the sequencer, the CRTC and the graphics controller.
pub write_indexed : ℕ → ℕ → Ports → ℕ → ℕ → Memory → ℕ → Ports
write_indexed zero i t index data_port m regs = t
write_indexed (suc left) i t index data_port m regs =
    write_indexed left (i + 1) (write_port (write_port t index i) data_port (load8 m regs)) index
      data_port m (regs + 1)

-- The loop over the attribute controller.
pub write_attributes : ℕ → ℕ → Device → Ports → Memory → ℕ → Ports
write_attributes zero i device t m regs = t
write_attributes (suc left) i device t m regs =
    let (instat, t) = read_port device t vga_instat_read in
    write_attributes left (i + 1) device
      (write_port (write_port t vga_ac_index i) vga_ac_write (load8 m regs)) m (regs + 1)

-- `unlock CRTC registers`.
unfoldable pub unlock_crtc : Device → Ports → Ports
unlock_crtc device t =
    let (protect, t) = read_port device (write_port t vga_crtc_index 0x03) vga_crtc_data in
    let t = write_port t vga_crtc_data (bit_or protect 0x80) in
    let (retrace, t) = read_port device (write_port t vga_crtc_index 0x11) vga_crtc_data in
    write_port t vga_crtc_data (bit_and retrace (2 ^ 8 - 1 - 0x80))

-- `make sure they remain unlocked`: the table itself is changed.
unfoldable pub keep_unlocked : Memory → ℕ → Memory
keep_unlocked m regs =
    let m = store8 m (regs + 0x03) (bit_or (load8 m (regs + 0x03)) 0x80) in
    store8 m (regs + 0x11) (bit_and (load8 m (regs + 0x11)) (2 ^ 8 - 1 - 0x80))

pub write_regs : Device → Ports → Memory → ℕ → Ports × Memory
write_regs device t m regs =
    let t = write_port t vga_misc_write (load8 m regs) in
    let t = write_indexed vga_num_seq_regs 0 t vga_seq_index vga_seq_data m (regs + 1) in
    let crtc = regs + 1 + vga_num_seq_regs in
    let t = unlock_crtc device t in
    let m = keep_unlocked m crtc in
    let t = write_indexed vga_num_crtc_regs 0 t vga_crtc_index vga_crtc_data m crtc in
    let gc = crtc + vga_num_crtc_regs in
    let t = write_indexed vga_num_gc_regs 0 t vga_gc_index vga_gc_data m gc in
    let ac = gc + vga_num_gc_regs in
    let t = write_attributes vga_num_ac_regs 0 device t m ac in
    let (instat, t) = read_port device t vga_instat_read in (write_port t vga_ac_index 0x20, m)

-- The loop of `write_font` from the character `i`, with `left` to go.
pub write_glyphs : ℕ → ℕ → Device → Ports → Memory → ℕ → ℕ → Ports × Memory
write_glyphs zero i device t m buf font_height = (t, m)
write_glyphs (suc left) i device t m buf font_height =
    let (t, m) = vmemwr device t m (16384 * 0 + i * 32) buf font_height in
    write_glyphs left (i + 1) device t m (buf + font_height) font_height

-- Saves the five registers and sets flat addressing: the values, and the ports.
unfoldable pub save_registers : Device → Ports → (ℕ × ℕ × ℕ × ℕ × ℕ) × Ports
save_registers device t =
    let (seq2, t) = read_port device (write_port t vga_seq_index 2) vga_seq_data in
    let (seq4, t) = read_port device (write_port t vga_seq_index 4) vga_seq_data in
    let t = write_port t vga_seq_data (bit_or seq4 0x04) in
    let (gc4, t) = read_port device (write_port t vga_gc_index 4) vga_gc_data in
    let (gc5, t) = read_port device (write_port t vga_gc_index 5) vga_gc_data in
    let t = write_port t vga_gc_data (bit_and gc5 (2 ^ 8 - 1 - 0x10)) in
    let (gc6, t) = read_port device (write_port t vga_gc_index 6) vga_gc_data in
    ((seq2, seq4, gc4, gc5, gc6), write_port t vga_gc_data (bit_and gc6 (2 ^ 8 - 1 - 0x02)))

-- `restore registers`.
unfoldable pub restore_registers : Ports → ℕ × ℕ × ℕ × ℕ × ℕ → Ports
restore_registers t (seq2, seq4, gc4, gc5, gc6) =
    let t = write_port (write_port t vga_seq_index 2) vga_seq_data seq2 in
    let t = write_port (write_port t vga_seq_index 4) vga_seq_data seq4 in
    let t = write_port (write_port t vga_gc_index 4) vga_gc_data gc4 in
    let t = write_port (write_port t vga_gc_index 5) vga_gc_data gc5 in
    write_port (write_port t vga_gc_index 6) vga_gc_data gc6

pub write_font : Device → Ports → Memory → ℕ → ℕ → Ports × Memory
write_font device t m buf font_height =
    let (saved, t) = save_registers device t in
    let (t, m) = write_glyphs 256 0 device (set_plane t 2) m buf font_height in
    (restore_registers t saved, m)

-- `g_90x30_text`.
abbrev pub g_90x30_text : List ℕ
g_90x30_text =
    0xE7 ∷ 0x03 ∷ 0x01 ∷ 0x03 ∷ 0x00 ∷ 0x02 ∷ 0x6B ∷ 0x59 ∷ 0x5A ∷ 0x82 ∷ 0x60 ∷ 0x8D ∷ 0x0B ∷ 0x3E
    ∷ 0x00 ∷ 0x4F ∷ 0x0D ∷ 0x0E ∷ 0x00 ∷ 0x00 ∷ 0x00 ∷ 0x00 ∷ 0xEA ∷ 0x0C ∷ 0xDF ∷ 0x2D ∷ 0x10
    ∷ 0xE8 ∷ 0x05 ∷ 0xA3 ∷ 0xFF ∷ 0x00 ∷ 0x00 ∷ 0x00 ∷ 0x00 ∷ 0x00 ∷ 0x10 ∷ 0x0E ∷ 0x00 ∷ 0xFF
    ∷ 0x00 ∷ 0x01 ∷ 0x02 ∷ 0x03 ∷ 0x04 ∷ 0x05 ∷ 0x14 ∷ 0x07 ∷ 0x38 ∷ 0x39 ∷ 0x3A ∷ 0x3B ∷ 0x3C
    ∷ 0x3D ∷ 0x3E ∷ 0x3F ∷ 0x0C ∷ 0x00 ∷ 0x0F ∷ 0x08 ∷ 0x00 ∷ []
