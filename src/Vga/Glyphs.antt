-- ===== src/Vga/Glyphs.antt =====
-- Where `write_font` puts the glyphs.
use owmice.Base.{
  ℕ, zero, suc, ◌+◌, ◌-◌, ◌*◌, ◌/◌, ◌%◌, ◌^◌, ◌<◌, ◌≤◌, ◌≡◌, ◌⊎◌, inl, bit_and, refl, ap, ◌∙◌,
  arith, some,
}
use owmice.Memory.{Memory, load8}
use owmice.Memory.Block.{byte_at}
use owmice.Bytes.{memcpy}
use owmice.Bytes.Copy.{load8-memcpy, load8-memcpy_outside}
use owmice.Vga.{
  Ports, Device, vga_gc_index, vga_gc_data, write_port, read_port, set_plane, segment, get_fb_seg,
  vmemwr, write_glyphs, save_registers, write_font,
}
use owmice.Vga.Latest.{selects, latest}
use owmice.Vga.Font.{Answers}

-- The segment for the value `w` of register 6 of the graphics controller.
abbrev pub segment_of : ℕ → ℕ
segment_of w = segment (bit_and (w % 2 ^ 8 / 2 ^ 2) 3)

suc_times : (a b : ℕ) → suc a * b ≡ b + a * b
suc_times a b = omega arith

-- A byte of a glyph lies in the font.
in_font : (left j r height : ℕ) → j < left → r < height → j * height + r < left * height
in_font zero j r height low in_glyph = absurd (omega arith)
in_font (suc left) zero r height low in_glyph = omega (arith, suc_times left height)
in_font (suc left) (suc j) r height low in_glyph = omega (
  arith,
  suc_times left height,
  suc_times j height,
  in_font left j r height (omega arith) in_glyph,
)

module _ (device : Device) (honest : Answers device vga_gc_index vga_gc_data) (height w : ℕ)
    (small : height ≤ 32) where
  get_fb_seg-segment_of :
      (t : Ports)
      → latest vga_gc_index vga_gc_data 6 t ≡ some w
      → (get_fb_seg device t).0 ≡ segment_of w
  unfolding get_fb_seg read_port write_port latest selects
  get_fb_seg-segment_of t h =
      ap (λ (v : ℕ). segment_of v) (honest (write_port t vga_gc_index 6) 6 w refl h)

  latest-get_fb_seg :
      (t : Ports)
      → latest vga_gc_index vga_gc_data 6 ((get_fb_seg device t).1)
        ≡ latest vga_gc_index vga_gc_data 6 t
  unfolding get_fb_seg read_port write_port latest
  latest-get_fb_seg t = refl

  -- The glyphs leave the bytes outside their places alone.
  write_glyphs_outside :
      (left i : ℕ) (t : Ports) (m : Memory) (buf a : ℕ)
      → latest vga_gc_index vga_gc_data 6 t ≡ some w
      → ((c : ℕ)
          → i ≤ c
          → c < i + left
          → (a < segment_of w * 16 + c * 32) ⊎ (segment_of w * 16 + c * 32 + height ≤ a))
      → load8 ((write_glyphs left i device t m buf height).1) a ≡ load8 m a
  unfolding write_glyphs vmemwr
  write_glyphs_outside zero i t m buf a h out = refl
  write_glyphs_outside (suc left) i t m buf a h out =
      let t1 = (get_fb_seg device t).1 in
      let m1 = memcpy m ((get_fb_seg device t).0 * 16 + (16384 * 0 + i * 32)) buf height in
      let seg = get_fb_seg-segment_of t h in
      let first = out i (omega arith) (omega arith) in
      write_glyphs_outside left (i + 1) t1 m1 (buf + height) a (latest-get_fb_seg t ∙ h)
        (λ c lo hi. out c (omega arith) (omega arith))
      ∙ load8-memcpy_outside m ((get_fb_seg device t).0 * 16 + (16384 * 0 + i * 32)) buf height a
          (omega (arith, seg))

  -- Byte `r` of glyph `j` from the glyph `i` on.
  load8-write_glyphs :
      (left i : ℕ) (t : Ports) (m : Memory) (buf j r : ℕ)
      → latest vga_gc_index vga_gc_data 6 t ≡ some w
      → i + left ≤ 256
      → (segment_of w * 16 + 8192 ≤ buf) ⊎ (buf + left * height ≤ segment_of w * 16)
      → j < left
      → r < height
      → load8 ((write_glyphs left i device t m buf height).1) (segment_of w * 16 + (i + j) * 32 + r)
        ≡ load8 m (buf + j * height + r)
  unfolding write_glyphs vmemwr
  load8-write_glyphs zero i t m buf j r h room apart low in_glyph = absurd (omega arith)
  load8-write_glyphs (suc left) i t m buf zero r h room apart low in_glyph =
      let t1 = (get_fb_seg device t).1 in
      let dst = (get_fb_seg device t).0 * 16 + (16384 * 0 + i * 32) in
      let m1 = memcpy m dst buf height in
      let seg = get_fb_seg-segment_of t h in
      let a = segment_of w * 16 + (i + 0) * 32 + r in
      write_glyphs_outside left (i + 1) t1 m1 (buf + height) a (latest-get_fb_seg t ∙ h)
        (λ c lo hi. inl (omega arith))
      ∙ ground (
        arith,
        load8-memcpy m dst buf height a (omega (arith, seg)),
        seg,
        byte_at m (buf + (a - dst)) (buf + 0 * height + r) (omega (arith, seg)),
      )
  load8-write_glyphs (suc left) i t m buf (suc j) r h room apart low in_glyph =
      let t1 = (get_fb_seg device t).1 in
      let dst = (get_fb_seg device t).0 * 16 + (16384 * 0 + i * 32) in
      let m1 = memcpy m dst buf height in
      let seg = get_fb_seg-segment_of t h in
      let source = buf + suc j * height + r in
      byte_at ((write_glyphs left (i + 1) device t1 m1 (buf + height) height).1)
        (segment_of w * 16 + (i + suc j) * 32 + r) (segment_of w * 16 + (i + 1 + j) * 32 + r)
        (omega arith)
      ∙ load8-write_glyphs left (i + 1) t1 m1 (buf + height) j r (latest-get_fb_seg t ∙ h)
          (omega arith) (omega arith) (omega arith) in_glyph
      ∙ byte_at m1 (buf + height + j * height + r) source (omega arith)
      ∙ load8-memcpy_outside m dst buf height source
          (omega (arith, seg, in_font (suc left) (suc j) r height low in_glyph))

-- Register 6 of the graphics controller while the font is written.
abbrev pub flat : ℕ → ℕ
flat v = bit_and (v % 2 ^ 8) (2 ^ 8 - 1 - 0x02) % 2 ^ 8

flat_set :
    (device : Device) (t : Ports) (v : ℕ)
    → Answers device vga_gc_index vga_gc_data
    → latest vga_gc_index vga_gc_data 6 t ≡ some v
    → latest vga_gc_index vga_gc_data 6 (set_plane ((save_registers device t).1) 2) ≡ some (flat v)
unfolding set_plane save_registers latest selects write_port read_port
flat_set device t v honest h = ap (λ (x : ℕ). some (flat x)) (honest _ 6 v refl h)

-- On a card that answers a read of a register of the graphics controller by what was last written to
-- it, with glyphs of at most 32 bytes, and a font apart from the 8192 bytes of the segment that
-- register 6 selects, `write_font` puts glyph after glyph there at a distance of 32 bytes, and changes
-- no byte outside the glyphs, not in the gaps behind them either.
pub load8-write_font :
    (device : Device) (t : Ports) (m : Memory) (buf height v : ℕ)
    → Answers device vga_gc_index vga_gc_data
    → height ≤ 32
    → latest vga_gc_index vga_gc_data 6 t ≡ some v
    → (segment_of (flat v) * 16 + 8192 ≤ buf) ⊎ (buf + 256 * height ≤ segment_of (flat v) * 16)
    → let m' = (write_font device t m buf height).1 in
      let base = segment_of (flat v) * 16 in
      ((c r : ℕ)
        → c < 256
        → r < height
        → load8 m' (base + c * 32 + r) ≡ load8 m (buf + c * height + r))
      × ((a : ℕ)
          → ((c : ℕ) → c < 256 → (a < base + c * 32) ⊎ (base + c * 32 + height ≤ a))
          → load8 m' a ≡ load8 m a)
unfolding write_font
load8-write_font device t m buf height v honest small h apart =
    let ready = set_plane ((save_registers device t).1) 2 in
    let set = flat_set device t v honest h in
    (
      λ c r low in_glyph.
          byte_at ((write_glyphs 256 0 device ready m buf height).1)
            (segment_of (flat v) * 16 + c * 32 + r) (segment_of (flat v) * 16 + (0 + c) * 32 + r)
            (omega arith)
          ∙ load8-write_glyphs device honest height (flat v) small 256 0 ready m buf c r set
              (omega arith) apart low in_glyph,
      λ a out.
          write_glyphs_outside device honest height (flat v) small 256 0 ready m buf a set
            (λ c lo hi. out c hi),
    )
