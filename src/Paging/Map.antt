-- ===== src/Paging/Map.antt =====
-- `map_page` against the walk of the processor.
use owmice.Base.{
  ℕ, ◌+◌, ◌*◌, ◌/◌, ◌%◌, ◌^◌, ◌<◌, ◌≤◌, ◌≡◌, ◌⊎◌, inl, inr, arith, refl, ◌∙◌, true, false, some,
  ◌==◌, if◌then◌else◌, Bool-cases, ==→eq, ==→ne, ne→==, Outcome, done, died, and_then, status_nomem,
}
use owmice.Memory.{store32, load32}
use owmice.Bytes.{memset}
use owmice.Frames.{Frames, alloc_block, bit_test}
use owmice.Frames.Single.{Allocated, alloc_block-Allocated, searched}
use owmice.Paging.{Paging, ensure_table, new_table, link_table, set_page, map_page}
use owmice.Paging.Entry.{pagedir_idx_lem, has_table_lem, link_table_zero}
use owmice.Paging.Walk.{word, dir_index, translate, IsMapped, word-memset}
use owmice.Paging.Page.{set_page_lem, written-IsMapped, translate-written}
use owmice.Paging.Fresh.{fresh-IsMapped, fresh-present, translate-linked, not_dir, t_bounds}

-- Why there is no table: the count is full, no searched frame is free, or the free one is frame 0,
-- whose address the source takes for a failure.
abbrev pub NoFrame : Frames → ℕ → Type 0
NoFrame f status =
    ((status ≡ status_nomem + 1) × (f.blocks_max ≤ f.blocks_used))
    ⊎ ((status ≡ status_nomem)
        × (((c : ℕ) → c < searched f → bit_test f.memory_map c ≡ true)
            ⊎ (bit_test f.memory_map 0 ≡ false)))

abbrev Ensured : Paging → ℕ → Outcome Paging → Type 0
Ensured s virt (died status) = NoFrame s.frames status
Ensured s virt (done s') =
    IsMapped s'
    × (s'.dir_current ≡ s.dir_current)
    × (word s'.memory s'.dir_current (dir_index virt) % 2 ≡ 1)
    × ((v : ℕ)
        → v < 2 ^ 32
        → translate s'.memory s'.dir_current v ≡ translate s.memory s.dir_current v)

module _ (s : Paging) (virt : ℕ) (is : IsMapped s) where
  -- What the directory gets from the frame allocator.
  from_frames : Outcome (ℕ × Frames) → Outcome Paging
  from_frames o =
      and_then
        (and_then o (λ (table, frames).
          if table == 0
          then died status_nomem
          else done (table, record s { frames = frames; memory = memset s.memory table 0 4096 })))
        (λ (table, s'). done (record s' {
          memory =
              store32 s'.memory (s.dir_current + 4 * dir_index virt)
                (link_table (load32 s'.memory (s.dir_current + 4 * dir_index virt)) table);
        }))

  from_frames-Ensured :
      (o : Outcome (ℕ × Frames))
      → word s.memory s.dir_current (dir_index virt) % 2 ≡ 0
      → Allocated s.frames o
      → Ensured s virt (from_frames o)
  unfolding from_frames word
  from_frames-Ensured (died status) absent (inl full) = inl full
  from_frames-Ensured (died status) absent (inr (code, all)) = inr (code, inl all)
  from_frames-Ensured (done (t, g)) absent allocated = elim (Bool-cases (t == 0)) [
    | inl zero_frame ↦
        let free = allocated.3 in
        rw zero_frame (inr (refl, inr (rw (==→eq _ _ zero_frame) at free)))
    | inr other ↦
        let (aligned, small) = t_bounds s virt is absent t g allocated in
        let cleared =
          word-memset s.memory t s.dir_current (dir_index virt) aligned is.aligned (omega arith) in
        let apart = ne→== _ _ (not_dir s virt is absent t g allocated) in
        let old : load32 (memset s.memory t 0 4096) (s.dir_current + 4 * dir_index virt) ≡ 0 =
          cleared ∙ rw apart (is.empty (dir_index virt) (omega arith) absent) in
        rw (other, old, link_table_zero t (omega arith) aligned)
          (
            fresh-IsMapped s virt is absent t g allocated,
            refl,
            fresh-present s virt is absent t g allocated,
            translate-linked s virt is absent t g allocated,
          )
  ]

  ensure_table-Ensured : Ensured s virt (ensure_table s virt)
  unfolding ensure_table new_table from_frames word
  ensure_table-Ensured =
      let test = has_table_lem (load32 s.memory (s.dir_current + 4 * dir_index virt)) in
      rw (pagedir_idx_lem virt, test)
        (elim (Bool-cases (load32 s.memory (s.dir_current + 4 * dir_index virt) % 2 == 1)) [
          | inl there ↦ rw there (is, refl, ==→eq _ _ there, λ v h. refl)
          | inr none_there ↦
              let odd = ==→ne _ _ none_there in
              rw none_there (
                from_frames-Ensured (alloc_block s.frames) (omega arith)
                  (alloc_block-Allocated s.frames (omega (arith, is.few))))
        ])

-- What `map_page` ends in.
abbrev pub Mapped : Paging → ℕ → ℕ → Outcome Paging → Type 0
Mapped s phys virt (died status) = NoFrame s.frames status
Mapped s phys virt (done s') =
    IsMapped s'
    × (s'.dir_current ≡ s.dir_current)
    × ((v : ℕ)
        → v < 2 ^ 32
        → translate s'.memory s'.dir_current v ≡ (
            if virt / 4096 == v / 4096
            then some (phys + v % 4096)
            else translate s.memory s.dir_current v))

module _ (s : Paging) (phys virt : ℕ) (phys_small : phys < 2 ^ 31) (aligned : phys % 4096 ≡ 0)
    (virt_small : virt < 2 ^ 32) where
  set_page-Mapped :
      (o : Outcome Paging)
      → Ensured s virt o
      → Mapped s phys virt (and_then o (λ s'. done (set_page s' phys virt)))
  set_page-Mapped (died status) h = h
  set_page-Mapped (done s') (is, dir, present, same) =
      rw (set_page_lem s' phys virt is present phys_small aligned) (
        written-IsMapped s' phys virt is present phys_small aligned,
        dir,
        λ v hv.
            translate-written s' phys virt is present phys_small aligned v hv virt_small
            ∙ rw (same v hv) refl,
      )

  -- On a directory in order, for a frame below 2^31, `map_page` dies only for want of a frame, and
  -- otherwise leaves the directory in order, with every address of the page leading into the frame
  -- and every other address where it led before.
  pub map_page-Mapped : IsMapped s → Mapped s phys virt (map_page s phys virt)
  unfolding map_page
  map_page-Mapped is = set_page-Mapped (ensure_table s virt) (ensure_table-Ensured s virt is)
