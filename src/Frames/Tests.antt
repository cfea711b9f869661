-- ===== src/Frames/Tests.antt =====
-- The frame allocator at concrete maps.
use owmice.Base.{
  ℕ, ◌+◌, ◌%◌, ◌*◌, ◌^◌, true, false, none, some, ◌≡◌, refl, arith, ◌==◌, if◌then◌else◌, done, died,
  status_nomem,
}
use owmice.Frames.{
  Frames, block_size, bit_set, bit_unset, bit_test, find_bit, find_word, find_free_block,
  alloc_block, free_block, mem_init_region, mem_deinit_region, mmap_first_free_s, alloc_blocks,
  first_free_word, first_free_bit, count_free, free_blocks,
}
use owmice.Frames.Single.{Allocated, alloc_block-Allocated, free_block-alloc_block}
use owmice.Frames.Steps.{Steps, stop, next, allocates, frees, Steps-IsCounted}
use owmice.Frames.Count.{IsCounted, count_used}
use owmice.Frames.Region.{in_range, bit_test-mem_init_region, bit_test-mem_deinit_region}
use owmice.Frames.Several.{alloc_blocks_search, bit_test-free_blocks}
use owmice.Frames.Bitmap.{bit_test-bit_set, bit_test-bit_unset}

-- Frames 0 to 2 are used, out of 64.
abbrev three_used : Frames
three_used = record { memory_map = λ i. if i == 0 then 7 else 0; blocks_used = 3; blocks_max = 64 }

-- Frames 0 and 2 are used.
abbrev gap : Frames
gap = record { memory_map = λ i. if i == 0 then 5 else 0; blocks_used = 2; blocks_max = 64 }

abbrev full : Frames
full = record { memory_map = λ i. 0xffffffff; blocks_used = 60; blocks_max = 64 }

abbrev after_one : Frames
after_one = record three_used { memory_map = bit_set three_used.memory_map 3; blocks_used = 4 }

first_found : (find_free_block three_used ≡ some 3) × (find_free_block full ≡ none)
unfolding find_free_block find_word find_bit
first_found = (refl, refl)

alloc_three : alloc_block three_used ≡ done (0x3000, after_one)
unfolding alloc_block find_free_block find_word find_bit
alloc_three = refl

full_dies : alloc_block full ≡ died status_nomem
unfolding alloc_block find_free_block find_word find_bit
full_dies = refl

-- The multi-block search hands out frame 1 for two blocks although frame 2 is used: it counts
-- free frames from frame 2 on and not from frame 1.
overlap : (mmap_first_free_s gap 2 ≡ some 1) × (bit_test gap.memory_map 2 ≡ true)
unfolding mmap_first_free_s first_free_word first_free_bit count_free bit_test
overlap = (refl, refl)

three_used-IsCounted : IsCounted three_used
unfolding count_used bit_test
three_used-IsCounted = record { counted = refl; fits = omega arith }

set_bit : bit_test (bit_set three_used.memory_map 40) 40 ≡ true
unfolding bit_test
set_bit = bit_test-bit_set three_used.memory_map 40 40

unset_bit : bit_test (bit_unset three_used.memory_map 1) 2 ≡ true
unfolding bit_test
unset_bit = bit_test-bit_unset three_used.memory_map 1 2

alloc_block-Allocated_example : Allocated three_used (alloc_block three_used)
alloc_block-Allocated_example = alloc_block-Allocated three_used (omega arith)

free_block-alloc_block_example :
    ((c : ℕ)
      → bit_test (free_block after_one 0x3000).memory_map c ≡ bit_test three_used.memory_map c)
    × ((free_block after_one 0x3000).blocks_used ≡ 3)
free_block-alloc_block_example =
    free_block-alloc_block three_used 0x3000 after_one (omega arith) alloc_three

bit_test-mem_init_region_example :
    bit_test (mem_init_region three_used 0x1000 0x1000).memory_map 2 ≡ true
unfolding bit_test
bit_test-mem_init_region_example = bit_test-mem_init_region three_used 0x1000 0x1000 2

reserved_frame : bit_test (mem_deinit_region three_used 0x4000 0x2000).memory_map 5 ≡ true
reserved_frame = bit_test-mem_deinit_region three_used 0x4000 0x2000 5

used_three : bit_test after_one.memory_map 3 ≡ true
unfolding bit_test bit_set
used_three = refl

-- A fourth block is allocated and freed again.
allocated_and_freed : Steps three_used (free_block after_one 0x3000)
allocated_and_freed =
    next (allocates 0x3000 after_one alloc_three)
      (next (frees 0x3000 (omega arith) used_three) stop)

Steps-IsCounted_example : IsCounted (free_block after_one 0x3000)
Steps-IsCounted_example = Steps-IsCounted allocated_and_freed three_used-IsCounted

alloc_blocks_search_example :
    (mmap_first_free_s gap 2 ≡ none → alloc_blocks gap 2 ≡ died status_nomem)
    × ((frame : ℕ)
        → mmap_first_free_s gap 2 ≡ some frame
        → (g : Frames) × (alloc_blocks gap 2 ≡ done (frame * block_size % 2 ^ 32, g))
          × ((c : ℕ)
              → bit_test g.memory_map c
                ≡ (if in_range frame 2 c then true else bit_test gap.memory_map c))
          × (g.blocks_used ≡ (2 + 2) % 2 ^ 32))
alloc_blocks_search_example = alloc_blocks_search gap 2 (omega arith) (omega arith) (omega arith)

freed_frames :
    ((c : ℕ)
      → bit_test (free_blocks three_used 0x1000 2).memory_map c
        ≡ (if in_range 1 2 c then false else bit_test three_used.memory_map c))
    × ((free_blocks three_used 0x1000 2).blocks_used ≡ 1)
unfolding free_blocks
freed_frames = bit_test-free_blocks three_used 0x1000 2
