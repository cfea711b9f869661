-- ===== src/Frames/Single.antt =====
-- `alloc_block` and `free_block` of mem/mem.h: one frame at a time.
use owmice.Base.{
  ℕ, ◌+◌, ◌*◌, ◌/◌, ◌%◌, ◌^◌, ◌<◌, ◌≤◌, true, false, some, ◌≡◌, ◌⊎◌, inl, inr, refl, arith, leb,
  ◌==◌, if◌then◌else◌, Bool-cases, Option-cases, Outcome, done, died, status_nomem,
}
use owmice.Frames.{Frames, block_size, bit_set, bit_test, find_free_block, alloc_block, free_block}
use owmice.Frames.Bitmap.{bit_test-bit_set, bit_test-bit_unset}
use owmice.Frames.Search.{IsFirst, find_free_block-IsFirst}

-- The frame count that the allocator can hand out.
abbrev pub searched : Frames → ℕ
searched f = f.blocks_max / 32 * 32

-- What `alloc_block` may end in.
abbrev pub Allocated : Frames → Outcome (ℕ × Frames) → Type 0
Allocated f (died status) =
    ((status ≡ status_nomem + 1) × (f.blocks_max ≤ f.blocks_used))
    ⊎ ((status ≡ status_nomem) × ((c : ℕ) → c < searched f → bit_test f.memory_map c ≡ true))
Allocated f (done (addr, g)) =
    (f.blocks_used < f.blocks_max)
    × (addr % block_size ≡ 0)
    × (addr / block_size < searched f)
    × (bit_test f.memory_map (addr / block_size) ≡ false)
    × ((c : ℕ)
        → bit_test g.memory_map c
          ≡ (if addr / block_size == c then true else bit_test f.memory_map c))
    × ((c : ℕ) → c < addr / block_size → bit_test f.memory_map c ≡ true)
    × (g.blocks_used ≡ f.blocks_used + 1)
    × (g.blocks_max ≡ f.blocks_max)

module _ (f : Frames) (fits : f.blocks_max ≤ 2 ^ 20) where
  taken :
      (r : ℕ)
      → f.blocks_used < f.blocks_max
      → IsFirst (bit_test f.memory_map) 0 (searched f) (some r)
      → Allocated f (
          done (
            r * block_size % 2 ^ 32,
            record f {
              memory_map = bit_set f.memory_map r;
              blocks_used = (f.blocks_used + 1) % 2 ^ 32;
            },
          ))
  taken r room first =
      let below : r < 2 ^ 20 = omega (arith, first.1) in
      let exact : r * block_size % 2 ^ 32 / block_size ≡ r = omega arith in
      (
        room,
        omega arith,
        rw exact first.1,
        rw exact first.2,
        λ c. rw exact (bit_test-bit_set f.memory_map r c),
        λ c h. first.3 c (omega arith) (rw exact at h),
        omega arith,
        refl,
      )

  -- On a machine with 32-bit addresses, `alloc_block` either returns the page-aligned address of
  -- the lowest free frame, after marking exactly that frame used and counting it, or dies: with
  -- `STATUS_NOMEM + 1` when the count says that no frame is left, with `STATUS_NOMEM` when every
  -- frame that it searches is used.
  pub alloc_block-Allocated : Allocated f (alloc_block f)
  unfolding alloc_block
  alloc_block-Allocated = elim (Bool-cases (leb f.blocks_max f.blocks_used)) [
    | inl full ↦ rw full (inl (refl, ground arith))
    | inr room ↦ rw room (elim (Option-cases (find_free_block f)) [
      | inl e ↦
          let all = find_free_block-IsFirst f in
          rw e (inr (refl, λ c h. (rw e at all) c (omega arith) h))
      | inr (r, e) ↦
          let first = find_free_block-IsFirst f in rw e (taken r (ground arith) (rw e at first))
    ])
  ]

-- Freeing the block that was just allocated gives back the same set of used frames and the same
-- count.
pub free_block-alloc_block :
    (f : Frames) (addr : ℕ) (g : Frames)
    → f.blocks_max ≤ 2 ^ 20
    → alloc_block f ≡ done (addr, g)
    → ((c : ℕ) → bit_test (free_block g addr).memory_map c ≡ bit_test f.memory_map c)
      × ((free_block g addr).blocks_used ≡ f.blocks_used)
unfolding free_block
free_block-alloc_block f addr g fits e =
    let a = alloc_block-Allocated f fits in
    let (room, aligned, below, clear, after, first, count, same) = rw e at a in
    (
      λ c. ground (arith, bit_test-bit_unset g.memory_map (addr / block_size) c, after c),
      omega (arith, room, count),
    )
