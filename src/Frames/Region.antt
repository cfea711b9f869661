-- ===== src/Frames/Region.antt =====
-- `mem_init_region` and `mem_deinit_region` of mem/mem.h: the boot-time marking of whole regions.
use owmice.Base.{
  ℕ, zero, suc, ◌+◌, ◌/◌, ◌<◌, ◌≤◌, Bool, true, false, ◌&&◌, ◌≡◌, arith, ◌∙◌, leb, ltb, ◌==◌,
  if◌then◌else◌,
}
use owmice.Frames.{
  Frames, block_size, bit_set, bit_test, release, reserve, release_from, reserve_from,
  mem_init_region, mem_deinit_region,
}
use owmice.Frames.Bitmap.{bit_test-bit_set, bit_test-bit_unset}
use owmice.Frames.Count.{IsCounted, count_used_same, release-IsCounted, reserve-IsCounted}

-- Is frame `c` among the `blocks` frames from `at` on?
abbrev pub in_range : ℕ → ℕ → ℕ → Bool
in_range at blocks c = leb at c && ltb c (at + blocks)

-- Is frame `c` in the region, with its start and its length rounded down to frames?
abbrev pub in_region : ℕ → ℕ → ℕ → Bool
in_region base size c = in_range (base / block_size) (size / block_size) c

release_test :
    (f : Frames) (at c : ℕ)
    → bit_test (release f at).memory_map c ≡ (if at == c then false else bit_test f.memory_map c)
unfolding release
release_test f at c = ground (arith, bit_test-bit_unset f.memory_map at c)

reserve_test :
    (f : Frames) (at c : ℕ)
    → bit_test (reserve f at).memory_map c ≡ (if at == c then true else bit_test f.memory_map c)
unfolding reserve
reserve_test f at c = ground (arith, bit_test-bit_set f.memory_map at c)

release_max : (f : Frames) (at : ℕ) → (release f at).blocks_max ≡ f.blocks_max
unfolding release
release_max f at = ground arith

reserve_max : (f : Frames) (at : ℕ) → (reserve f at).blocks_max ≡ f.blocks_max
unfolding reserve
reserve_max f at = ground arith

release_from_test :
    (blocks at : ℕ) (f : Frames) (c : ℕ)
    → bit_test (release_from blocks at f).memory_map c
      ≡ (if in_range at blocks c then false else bit_test f.memory_map c)
unfolding release_from
release_from_test zero at f c = ground arith
release_from_test (suc blocks) at f c =
    ground (arith, release_from_test blocks (at + 1) (release f at) c, release_test f at c)

reserve_from_test :
    (blocks at : ℕ) (f : Frames) (c : ℕ)
    → bit_test (reserve_from blocks at f).memory_map c
      ≡ (if in_range at blocks c then true else bit_test f.memory_map c)
unfolding reserve_from
reserve_from_test zero at f c = ground arith
reserve_from_test (suc blocks) at f c =
    ground (arith, reserve_from_test blocks (at + 1) (reserve f at) c, reserve_test f at c)

release_from-IsCounted :
    (blocks at : ℕ) (f : Frames)
    → IsCounted f
    → at + blocks ≤ f.blocks_max
    → IsCounted (release_from blocks at f)
unfolding release_from
release_from-IsCounted zero at f c h = c
release_from-IsCounted (suc blocks) at f c h =
    release_from-IsCounted blocks (at + 1) (release f at) (release-IsCounted c at (omega arith))
      (omega (arith, release_max f at))

reserve_from-IsCounted :
    (blocks at : ℕ) (f : Frames)
    → IsCounted f
    → at + blocks ≤ f.blocks_max
    → IsCounted (reserve_from blocks at f)
unfolding reserve_from
reserve_from-IsCounted zero at f c h = c
reserve_from-IsCounted (suc blocks) at f c h =
    reserve_from-IsCounted blocks (at + 1) (reserve f at) (reserve-IsCounted c at (omega arith))
      (omega (arith, reserve_max f at))

-- `mem_init_region` frees exactly the frames of the region, except that frame 0 is used afterwards
-- whatever the region is.
pub bit_test-mem_init_region :
    (f : Frames) (base size c : ℕ)
    → bit_test (mem_init_region f base size).memory_map c
      ≡ (if c == 0 then true else if in_region base size c then false else bit_test f.memory_map c)
unfolding mem_init_region
bit_test-mem_init_region f base size c =
    let g = release_from (size / block_size) (base / block_size) f in
    ground (
      arith,
      bit_test-bit_set g.memory_map 0 c,
      release_from_test (size / block_size) (base / block_size) f c,
    )

-- `mem_deinit_region` marks exactly the frames of the region used.
pub bit_test-mem_deinit_region :
    (f : Frames) (base size c : ℕ)
    → bit_test (mem_deinit_region f base size).memory_map c
      ≡ (if in_region base size c then true else bit_test f.memory_map c)
unfolding mem_deinit_region
bit_test-mem_deinit_region f base size c =
    reserve_from_test (size / block_size) (base / block_size) f c

-- Reserving a region of managed frames keeps the count right.
pub mem_deinit_region-IsCounted :
    {f : Frames} (base size : ℕ)
    → IsCounted f
    → base / block_size + size / block_size ≤ f.blocks_max
    → IsCounted (mem_deinit_region f base size)
unfolding mem_deinit_region
mem_deinit_region-IsCounted {f} base size c h =
    reserve_from-IsCounted (size / block_size) (base / block_size) f c h

-- Freeing a region of managed frames that lies above a used frame 0 keeps the count right.
pub mem_init_region-IsCounted :
    {f : Frames} (base size : ℕ)
    → IsCounted f
    → base / block_size + size / block_size ≤ f.blocks_max
    → 0 < base / block_size
    → bit_test f.memory_map 0 ≡ true
    → IsCounted (mem_init_region f base size)
unfolding mem_init_region
mem_init_region-IsCounted {f} base size c h above used =
    let g = release_from (size / block_size) (base / block_size) f in
    let cg = release_from-IsCounted (size / block_size) (base / block_size) f c h in
    let zero_used : bit_test g.memory_map 0 ≡ true =
      ground (arith, release_from_test (size / block_size) (base / block_size) f 0) in
    record {
      counted =
          cg.counted
          ∙ count_used_same (bit_test g.memory_map) (bit_test (bit_set g.memory_map 0)) g.blocks_max
              (λ b p. ground (arith, bit_test-bit_set g.memory_map 0 b));
      fits = cg.fits;
    }
