-- ===== src/Frames/Several.antt =====
-- `alloc_blocks` and `free_blocks` of mem/mem.h: several frames at a time.
use owmice.Base.{
  ℕ, zero, suc, ◌+◌, ◌-◌, ◌*◌, ◌/◌, ◌%◌, ◌^◌, ◌<◌, ◌≤◌, true, false, none, some, ◌≡◌, refl, arith,
  leb, if◌then◌else◌, done, died, status_nomem,
}
use owmice.Frames.{
  WordMap, Frames, block_size, bit_set, bit_unset, bit_test, set_range, unset_range,
  mmap_first_free_s, alloc_blocks, free_blocks,
}
use owmice.Frames.Bitmap.{bit_test-bit_set, bit_test-bit_unset}
use owmice.Frames.Region.{in_range}

set_range_test :
    (left frame : ℕ) (map : WordMap) (c : ℕ)
    → bit_test (set_range left frame map) c
      ≡ (if in_range frame left c then true else bit_test map c)
unfolding set_range
set_range_test zero frame map c = ground arith
set_range_test (suc left) frame map c =
    ground
      (arith, set_range_test left (frame + 1) (bit_set map frame) c, bit_test-bit_set map frame c)

unset_range_test :
    (left frame : ℕ) (map : WordMap) (c : ℕ)
    → bit_test (unset_range left frame map) c
      ≡ (if in_range frame left c then false else bit_test map c)
unfolding unset_range
unset_range_test zero frame map c = ground arith
unset_range_test (suc left) frame map c = ground (
  arith,
  unset_range_test left (frame + 1) (bit_unset map frame) c,
  bit_test-bit_unset map frame c,
)

-- While the count says that some frame is free, the test at the head of `alloc_blocks` refuses no
-- request below `2^31` blocks, however few frames are left: the request is decided by the search
-- alone.
pub alloc_blocks_search :
    (f : Frames) (size : ℕ)
    → f.blocks_used < f.blocks_max
    → f.blocks_max ≤ 2 ^ 20
    → size < 2 ^ 31
    → (mmap_first_free_s f size ≡ none → alloc_blocks f size ≡ died status_nomem)
      × ((frame : ℕ)
          → mmap_first_free_s f size ≡ some frame
          → (g : Frames) × (alloc_blocks f size ≡ done (frame * block_size % 2 ^ 32, g))
            × ((c : ℕ)
                → bit_test g.memory_map c
                  ≡ (if in_range frame size c then true else bit_test f.memory_map c))
            × (g.blocks_used ≡ (f.blocks_used + size) % 2 ^ 32))
unfolding alloc_blocks
alloc_blocks_search f size room fits small =
    let pass : leb ((f.blocks_used + 2 ^ 32 - f.blocks_max) % 2 ^ 32) size ≡ false = ground arith in
    (
      λ e. rw (pass, e),
      λ frame e. (
        record f {
          memory_map = set_range size frame f.memory_map;
          blocks_used = (f.blocks_used + size) % 2 ^ 32;
        },
        rw (pass, e),
        set_range_test size frame f.memory_map,
        refl,
      ),
    )

-- When the count says that every frame is used, every request is refused.
pub alloc_blocks_full :
    (f : Frames) (size : ℕ) → f.blocks_used ≡ f.blocks_max → alloc_blocks f size ≡ died status_nomem
unfolding alloc_blocks
alloc_blocks_full f size e =
    let refuse : leb ((f.blocks_used + 2 ^ 32 - f.blocks_max) % 2 ^ 32) size ≡ true =
      ground arith in
    rw refuse

-- `free_blocks` clears exactly the frames of the block and takes `size` off the count modulo 2^32.
pub bit_test-free_blocks :
    (f : Frames) (addr size : ℕ)
    → ((c : ℕ)
        → bit_test (free_blocks f addr size).memory_map c
          ≡ (if in_range (addr / block_size) size c then false else bit_test f.memory_map c))
      × ((free_blocks f addr size).blocks_used ≡ (f.blocks_used + 2 ^ 32 - size) % 2 ^ 32)
unfolding free_blocks
bit_test-free_blocks f addr size = (unset_range_test size (addr / block_size) f.memory_map, refl)
