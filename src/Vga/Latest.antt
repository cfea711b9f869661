-- ===== src/Vga/Latest.antt =====
-- What the events at the ports leave in the registers of the card, and what the loops of `write_regs`
-- of screen/vga.h do to them.
use owmice.Base.{
  ℕ, zero, suc, ◌+◌, ◌-◌, ◌%◌, ◌^◌, ◌≤◌, ◌≡◌, refl, ◌∙◌, arith, Bool, false, not, ◌&&◌, Option,
  none, some, [], ◌∷◌, ◌==◌, if◌then◌else◌, ltb, leb, ==-refl,
}
use owmice.Memory.{Memory, load8, load8-lt}
use owmice.Vga.{
  wrote, got, Ports, Device, vga_ac_index, vga_instat_read, write_port, read_port, write_indexed,
  write_attributes,
}

-- The index port holds the register `k`.
unfoldable pub selects : ℕ → ℕ → Ports → Bool
selects index k [] = false
selects index k (wrote port v ∷ t) = if port == index then v == k else selects index k t
selects index k (got port ∷ t) = selects index k t

-- What was last written to the register `k` behind an index port and a data port.
unfoldable pub latest : ℕ → ℕ → ℕ → Ports → Option ℕ
latest index data_port k [] = none
latest index data_port k (wrote port v ∷ t) =
    if (port == data_port) && selects index k t then some v else latest index data_port k t
latest index data_port k (got port ∷ t) = latest index data_port k t

-- The attribute controller has one port for both: a read of the status makes the next write an index,
-- and every write changes what the next one is.
unfoldable pub data_next : Ports → Bool
data_next [] = false
data_next (wrote port v ∷ t) = if port == vga_ac_index then not (data_next t) else data_next t
data_next (got port ∷ t) = if port == vga_instat_read then false else data_next t

unfoldable pub attribute_selects : ℕ → Ports → Bool
attribute_selects k [] = false
attribute_selects k (wrote port v ∷ t) =
    if (port == vga_ac_index) && not (data_next t) then v == k else attribute_selects k t
attribute_selects k (got port ∷ t) = attribute_selects k t

-- What was last written to the attribute register `k`.
unfoldable pub attribute : ℕ → Ports → Option ℕ
attribute k [] = none
attribute k (wrote port v ∷ t) =
    if (port == vga_ac_index) && (data_next t && attribute_selects k t)
    then some v
    else attribute k t
attribute k (got port ∷ t) = attribute k t

-- What was last written to a port.
unfoldable pub last_written : ℕ → Ports → Option ℕ
last_written p [] = none
last_written p (wrote port v ∷ t) = if port == p then some v else last_written p t
last_written p (got port ∷ t) = last_written p t

module _ (index data_port : ℕ) (apart : (index == data_port) ≡ false) (m : Memory) where
  -- The loop writes the bytes to the registers that it goes through, and to no others.
  pub latest-write_indexed :
      (left i : ℕ) (t : Ports) (regs k : ℕ)
      → i + left ≤ 256
      → latest index data_port k (write_indexed left i t index data_port m regs) ≡ (
          if leb i k && ltb k (i + left)
          then some (load8 m (regs + (k - i)))
          else latest index data_port k t)
  unfolding write_indexed latest selects write_port
  latest-write_indexed zero i t regs k room = ground arith
  latest-write_indexed (suc left) i t regs k room =
      let v = load8 m regs in
      let next = write_port (write_port t index i) data_port v in
      let same : v % 2 ^ 8 ≡ v = omega (arith, load8-lt m regs) in
      let same_i : i % 2 ^ 8 ≡ i = omega arith in
      let step : latest index data_port k next
          ≡ (if i == k then some v else latest index data_port k t) =
        rw (==-refl data_port, ==-refl index, apart, same, same_i) refl in
      ground (arith, latest-write_indexed left (i + 1) next (regs + 1) k (omega arith), step)

-- Writes to other ports leave a register alone.
pub latest-write_indexed_other :
    (index data_port : ℕ) (m : Memory) (left i : ℕ) (t : Ports) (regs index' data_port' k : ℕ)
    → (index == data_port') ≡ false
    → (data_port == data_port') ≡ false
    → latest index' data_port' k (write_indexed left i t index data_port m regs)
      ≡ latest index' data_port' k t
unfolding write_indexed latest write_port
latest-write_indexed_other index data_port m zero i t regs index' data_port' k p q = refl
latest-write_indexed_other index data_port m (suc left) i t regs index' data_port' k p q =
    latest-write_indexed_other index data_port m left (i + 1)
      (write_port (write_port t index i) data_port (load8 m regs)) (regs + 1) index' data_port' k p
      q
    ∙ rw (p, q) refl

pub latest-write_attributes :
    (left i : ℕ) (device : Device) (t : Ports) (m : Memory) (regs index data_port k : ℕ)
    → (vga_ac_index == data_port) ≡ false
    → latest index data_port k (write_attributes left i device t m regs)
      ≡ latest index data_port k t
unfolding write_attributes latest write_port read_port
latest-write_attributes zero i device t m regs index data_port k p = refl
latest-write_attributes (suc left) i device t m regs index data_port k p =
    latest-write_attributes left (i + 1) device
      (write_port (write_port (got vga_instat_read ∷ t) vga_ac_index i) vga_ac_index (load8 m regs))
      m (regs + 1) index data_port k p
    ∙ rw p refl

pub last_written-write_indexed :
    (index data_port : ℕ) (m : Memory) (left i : ℕ) (t : Ports) (regs p : ℕ)
    → (index == p) ≡ false
    → (data_port == p) ≡ false
    → last_written p (write_indexed left i t index data_port m regs) ≡ last_written p t
unfolding write_indexed last_written write_port
last_written-write_indexed index data_port m zero i t regs p a b = refl
last_written-write_indexed index data_port m (suc left) i t regs p a b =
    last_written-write_indexed index data_port m left (i + 1)
      (write_port (write_port t index i) data_port (load8 m regs)) (regs + 1) p a b
    ∙ rw (a, b) refl

pub last_written-write_attributes :
    (left i : ℕ) (device : Device) (t : Ports) (m : Memory) (regs p : ℕ)
    → (vga_ac_index == p) ≡ false
    → last_written p (write_attributes left i device t m regs) ≡ last_written p t
unfolding write_attributes last_written write_port read_port
last_written-write_attributes zero i device t m regs p a = refl
last_written-write_attributes (suc left) i device t m regs p a =
    last_written-write_attributes left (i + 1) device
      (write_port (write_port (got vga_instat_read ∷ t) vga_ac_index i) vga_ac_index (load8 m regs))
      m (regs + 1) p a
    ∙ rw a refl

pub attribute-write_attributes :
    (left i : ℕ) (device : Device) (t : Ports) (m : Memory) (regs k : ℕ)
    → i + left ≤ 256
    → attribute k (write_attributes left i device t m regs)
      ≡ (if leb i k && ltb k (i + left) then some (load8 m (regs + (k - i))) else attribute k t)
unfolding write_attributes attribute attribute_selects data_next write_port read_port
attribute-write_attributes zero i device t m regs k room = ground arith
attribute-write_attributes (suc left) i device t m regs k room =
    let v = load8 m regs in
    let next = write_port (write_port (got vga_instat_read ∷ t) vga_ac_index i) vga_ac_index v in
    let same : v % 2 ^ 8 ≡ v = omega (arith, load8-lt m regs) in
    let same_i : i % 2 ^ 8 ≡ i = omega arith in
    let step : attribute k next ≡ (if i == k then some v else attribute k t) =
      rw (same, same_i) refl in
    ground (
      arith,
      attribute-write_attributes left (i + 1) device next m (regs + 1) k (omega arith),
      step,
    )
