-- ===== src/Paging/Entry.antt =====
-- What the operations on an entry of a table do, as arithmetic.
use mathlib.Core.Path.{ap₂}
use owmice.Base.{ℕ, ◌+◌, ◌*◌, ◌/◌, ◌%◌, ◌^◌, ◌<◌, ◌≡◌, bit_and, bit_or, arith, ap, refl, ◌∙◌, ◌==◌}
use owmice.Bits.{
  bit_and_low, bit_and_page, bit_and_split, bit_or_split, bit_or_halves, bit_or-zero, bit_or_add,
  bit_or-lt, bit_or_comm,
}
use owmice.Paging.{
  pagedir_idx, pagetable_idx, page_addr, page_set_frame, page_set_property, make_entry, link_table,
  table_add_property, table_set_frame, has_table,
}

pub pagedir_idx_lem : (x : ℕ) → pagedir_idx x ≡ x / 2 ^ 22 % 1024
unfolding pagedir_idx
pagedir_idx_lem x = bit_and_low 10 (x / 2 ^ 22)

pub pagetable_idx_lem : (x : ℕ) → pagetable_idx x ≡ x / 2 ^ 12 % 1024
unfolding pagetable_idx
pagetable_idx_lem x = bit_and_low 10 (x / 2 ^ 12)

pub page_addr_lem : (e : ℕ) → e < 2 ^ 32 → page_addr e ≡ e / 4096 * 4096
unfolding page_addr
page_addr_lem e h = bit_and_page e h

pub has_table_lem : (e : ℕ) → has_table e ≡ (e % 2 == 1)
unfolding has_table
has_table_lem e = rw (bit_and_low 1 e) refl

-- Setting the frame keeps the low 12 bits, if the top bit is clear.
pub page_set_frame_lem :
    (e addr : ℕ)
    → e < 2 ^ 31
    → addr < 2 ^ 32
    → addr % 4096 ≡ 0
    → page_set_frame e addr ≡ addr + e % 4096
unfolding page_set_frame
page_set_frame_lem e addr small top aligned =
    let low : e ≡ 0 * 2 ^ 31 + e = omega arith in
    let mask : 2 ^ 31 + 0xfff ≡ 1 * 2 ^ 31 + 0xfff = omega arith in
    let kept : bit_and e (2 ^ 31 + 0xfff) ≡ e % 4096 = omega (
      arith,
      ap₂ bit_and low mask,
      bit_and_split 31 0 e 1 0xfff small (omega arith),
      bit_and_low 12 e,
      bit_and_low 1 0,
    ) in
    let frame : addr ≡ addr / 4096 * 2 ^ 12 = omega arith in
    rw kept (
      bit_or_comm 32 (e % 4096) addr (omega arith) top
      ∙ ap (λ (a : ℕ). bit_or a (e % 4096)) frame
      ∙ bit_or_add 12 (addr / 4096) (e % 4096) (omega arith)
      ∙ omega arith)

-- Setting low bits keeps the frame.
or_small : (x v : ℕ) → v < 4096 → bit_or x v ≡ x / 4096 * 4096 + bit_or (x % 4096) v
or_small x v h =
    let parts = bit_or_split 12 (x / 4096) (x % 4096) 0 v (omega arith) h in
    let whole : x ≡ x / 4096 * 2 ^ 12 + x % 4096 = omega arith in
    let small : v ≡ 0 * 2 ^ 12 + v = omega arith in
    ap₂ bit_or whole small ∙ omega (arith, parts, bit_or-zero (x / 4096))

-- The entry that the code makes: the frame and the present bit.
pub record IsEntry (e frame : ℕ) : Type 0 where
  pub present : e % 2 ≡ 1
  pub framed : e / 4096 * 4096 ≡ frame
  pub bounded : e < 2 ^ 31

pub make_entry-IsEntry :
    (e frame : ℕ)
    → e < 2 ^ 31
    → frame < 2 ^ 31
    → frame % 4096 ≡ 0
    → IsEntry (make_entry e frame) frame
unfolding make_entry page_set_property
make_entry-IsEntry e frame small bounded aligned =
    let x = frame + e % 4096 in
    let y = bit_or x 1 in
    let one = or_small x 1 (omega arith) in
    let one_low = bit_or-lt 12 (x % 4096) 1 (omega arith) (omega arith) in
    let two = or_small y 2 (omega arith) in
    let two_low = bit_or-lt 12 (y % 4096) 2 (omega arith) (omega arith) in
    rw (page_set_frame_lem e frame small (omega arith) aligned) (record {
      present = omega (arith, bit_or_halves y 2, bit_or_halves x 1);
      framed = omega (arith, one, one_low, two, two_low);
      bounded = omega (arith, one, one_low, two, two_low);
    })

pub link_table_zero :
    (table : ℕ) → table < 2 ^ 32 → table % 4096 ≡ 0 → link_table 0 table ≡ table + 3
unfolding link_table table_add_property table_set_frame page_set_frame
link_table_zero table small aligned = page_set_frame_lem 3 table (omega arith) small aligned
