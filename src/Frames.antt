-- ===== src/Frames.antt =====
-- The physical frame allocator of mem/mem.h over the bitmap of standard/bitmap.h.
-- `memory_map` is the array of 32-bit words behind the pointer of that name: word `i` is
-- `memory_map[i]`, and an index past the allocated words reads the memory that follows them.
-- The `-1` of the two searches is `none`. The `printf` of a size is not modelled.
pub mod Bitmap
pub mod Search
pub mod Single
pub mod Count
pub mod Region
pub mod Steps
pub mod Several
mod Tests
use owmice.Base.{
  ℕ, zero, suc, ◌+◌, ◌-◌, ◌*◌, ◌/◌, ◌%◌, ◌^◌, bit_and, bit_or, Bool, true, false, not, Option, none,
  some, ltb, leb, ◌==◌, if◌then◌else◌, Outcome, done, died, status_nomem,
}

abbrev pub WordMap : Type 0
WordMap = ℕ → ℕ

abbrev pub block_size : ℕ
block_size = 4096

pub bit_set : WordMap → ℕ → WordMap
bit_set map bit i = if i == bit / 32 then bit_or (map (bit / 32)) (2 ^ (bit % 32)) else map i

-- `~(1 << k)` on 32 bits.
pub bit_unset : WordMap → ℕ → WordMap
bit_unset map bit i =
    if i == bit / 32 then bit_and (map (bit / 32)) (2 ^ 32 - 1 - 2 ^ (bit % 32)) else map i

unfoldable pub bit_test : WordMap → ℕ → Bool
bit_test map bit = not (bit_and (map (bit / 32)) (2 ^ (bit % 32)) == 0)

pub record Frames : Type 0 where
  pub memory_map : WordMap
  pub blocks_used : ℕ
  pub blocks_max : ℕ

-- The inner loop of `find_free_block`: bits `j`, `j + 1`, … of one word.
find_bit : ℕ → ℕ → ℕ → Option ℕ
find_bit zero j word = none
find_bit (suc left) j word =
    let rest = find_bit left (j + 1) word in if bit_and word (2 ^ j) == 0 then some j else rest

-- The outer loop, `left` words before its bound.
find_word : ℕ → ℕ → WordMap → Option ℕ
find_word zero i map = none
find_word (suc left) i map =
    let rest = find_word left (i + 1) map in
    if map i == 0xffffffff
    then rest
    else elim (find_bit 32 0 (map i)) [ some j ↦ some (i * 4 * 8 + j) | none ↦ rest ]

pub find_free_block : Frames → Option ℕ
find_free_block f = find_word (f.blocks_max / 32) 0 f.memory_map

-- The counting loop of `mmap_first_free_s`: does it reach `free == size`?
count_free : ℕ → ℕ → ℕ → ℕ → WordMap → Bool
count_free zero at free size map = false
count_free (suc left) at free size map =
    let free' = if bit_test map (at % 2 ^ 32) then free else free + 1 in
    let rest = count_free left (at + 1) free' size map in if free' == size then true else rest

-- The source starts the count at bit `i * 32 + bit`, where `bit` is the mask `1 << j`.
first_free_bit : ℕ → ℕ → ℕ → ℕ → WordMap → Option ℕ
first_free_bit zero j i size map = none
first_free_bit (suc left) j i size map =
    let rest = first_free_bit left (j + 1) i size map in
    let starting = (i * 32 + 2 ^ j) % 2 ^ 32 in
    if bit_and (map i) (2 ^ j) == 0
    then (if count_free (size + 1) starting 0 size map then some (i * 4 * 8 + j) else rest)
    else rest

first_free_word : ℕ → ℕ → ℕ → WordMap → Option ℕ
first_free_word zero i size map = none
first_free_word (suc left) i size map =
    let rest = first_free_word left (i + 1) size map in
    if map i == 0xffffffff
    then rest
    else elim (first_free_bit 32 0 i size map) [ some b ↦ some b | none ↦ rest ]

pub mmap_first_free_s : Frames → ℕ → Option ℕ
mmap_first_free_s f size =
    if size == 0
    then none
    else if size == 1
    then find_free_block f
    else first_free_word f.blocks_max 0 size f.memory_map

pub alloc_block : Frames → Outcome (ℕ × Frames)
alloc_block f =
    if leb f.blocks_max f.blocks_used then died (status_nomem + 1) else elim (find_free_block f) [
      | none ↦ died status_nomem
      | some frame ↦ done (
        frame * block_size % 2 ^ 32,
        record f {
          memory_map = bit_set f.memory_map frame;
          blocks_used = (f.blocks_used + 1) % 2 ^ 32;
        },
      )
    ]

pub free_block : Frames → ℕ → Frames
free_block f addr = record f {
  memory_map = bit_unset f.memory_map (addr / block_size);
  blocks_used = (f.blocks_used + 2 ^ 32 - 1) % 2 ^ 32;
}

set_range : ℕ → ℕ → WordMap → WordMap
set_range zero frame map = map
set_range (suc left) frame map = set_range left (frame + 1) (bit_set map frame)

unset_range : ℕ → ℕ → WordMap → WordMap
unset_range zero frame map = map
unset_range (suc left) frame map = unset_range left (frame + 1) (bit_unset map frame)

pub alloc_blocks : Frames → ℕ → Outcome (ℕ × Frames)
alloc_blocks f size =
    if leb ((f.blocks_used + 2 ^ 32 - f.blocks_max) % 2 ^ 32) size
    then died status_nomem
    else elim (mmap_first_free_s f size) [
      | none ↦ died status_nomem
      | some frame ↦ done (
        frame * block_size % 2 ^ 32,
        record f {
          memory_map = set_range size frame f.memory_map;
          blocks_used = (f.blocks_used + size) % 2 ^ 32;
        },
      )
    ]

pub free_blocks : Frames → ℕ → ℕ → Frames
free_blocks f addr size = record f {
  memory_map = unset_range size (addr / block_size) f.memory_map;
  blocks_used = (f.blocks_used + 2 ^ 32 - size) % 2 ^ 32;
}

-- One round of the loop of `mem_init_region`.
pub release : Frames → ℕ → Frames
release f at =
    if bit_test f.memory_map at
    then record f {
      memory_map = bit_unset f.memory_map at;
      blocks_used = (f.blocks_used + 2 ^ 32 - 1) % 2 ^ 32;
    }
    else f

-- One round of the loop of `mem_deinit_region`.
pub reserve : Frames → ℕ → Frames
reserve f at = if bit_test f.memory_map at then f else record f {
  memory_map = bit_set f.memory_map at;
  blocks_used = (f.blocks_used + 1) % 2 ^ 32;
}

release_from : ℕ → ℕ → Frames → Frames
release_from zero at f = f
release_from (suc blocks) at f = release_from blocks (at + 1) (release f at)

reserve_from : ℕ → ℕ → Frames → Frames
reserve_from zero at f = f
reserve_from (suc blocks) at f = reserve_from blocks (at + 1) (reserve f at)

-- Frame 0 is marked used at the end, without a change of `blocks_used`.
pub mem_init_region : Frames → ℕ → ℕ → Frames
mem_init_region f base size =
    let f' = release_from (size / block_size) (base / block_size) f in
    record f' { memory_map = bit_set f'.memory_map 0 }

pub mem_deinit_region : Frames → ℕ → ℕ → Frames
mem_deinit_region f base size = reserve_from (size / block_size) (base / block_size) f

pub get_free_mem : Frames → ℕ
get_free_mem f = (f.blocks_max + 2 ^ 32 - f.blocks_used) % 2 ^ 32 * 0x1000 % 2 ^ 32
