-- ===== src/Frames/Steps.antt =====
-- Runs of the frame allocator: single blocks and regions, in any order.
use owmice.Base.{ℕ, ◌+◌, ◌/◌, ◌<◌, ◌≤◌, ◌≡◌, true, done}
use owmice.Frames.{
  Frames, block_size, bit_test, alloc_block, free_block, mem_init_region, mem_deinit_region,
}
use owmice.Frames.Count.{IsCounted, alloc_block-IsCounted, free_block-IsCounted}
use owmice.Frames.Region.{mem_init_region-IsCounted, mem_deinit_region-IsCounted}

-- Whether the frames of a region are managed.
abbrev Managed : Frames → ℕ → ℕ → Type 0
Managed f base size = base / block_size + size / block_size ≤ f.blocks_max

-- One call: a block is allocated, a used block is freed, a region above the used frame 0 is freed,
-- a region is reserved.
pub data Step (f : Frames) : Frames → Type 0 where
  allocates : (addr : ℕ) (g : Frames) → alloc_block f ≡ done (addr, g) → Step f g
  frees :
      (addr : ℕ)
      → addr / block_size < f.blocks_max
      → bit_test f.memory_map (addr / block_size) ≡ true
      → Step f (free_block f addr)
  frees_region :
      (base size : ℕ)
      → Managed f base size
      → 0 < base / block_size
      → bit_test f.memory_map 0 ≡ true
      → Step f (mem_init_region f base size)
  reserves_region : (base size : ℕ) → Managed f base size → Step f (mem_deinit_region f base size)

pub data Steps : Frames → Frames → Type 0 where
  stop : {f : Frames} → Steps f f
  next : {f g h : Frames} → Step f g → Steps g h → Steps f h

Step-IsCounted : {f g : Frames} → Step f g → IsCounted f → IsCounted g
Step-IsCounted (allocates addr g e) c = alloc_block-IsCounted c addr g e
Step-IsCounted (frees addr below used) c = free_block-IsCounted c addr below used
Step-IsCounted (frees_region base size managed above used) c =
    mem_init_region-IsCounted base size c managed above used
Step-IsCounted (reserves_region base size managed) c =
    mem_deinit_region-IsCounted base size c managed

-- However often blocks are allocated, used blocks freed, and regions of managed frames reserved or,
-- above a used frame 0, freed, `blocks_used` stays the number of used frames.
pub Steps-IsCounted : {f g : Frames} → Steps f g → IsCounted f → IsCounted g
Steps-IsCounted stop c = c
Steps-IsCounted (next s rest) c = Steps-IsCounted rest (Step-IsCounted s c)
