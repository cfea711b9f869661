-- ===== src/Heap/Refine.antt =====
-- The allocator of mem/heap.h against first fit, for the kernel's one block.
use owmice.Base.{
  ℕ, zero, suc, ◌+◌, ◌^◌, ◌<◌, ◌≡◌, inl, inr, Option, none, some, ◌>>=◌, List, length, arith, ap,
  ◌∙◌, ne→==, if◌then◌else◌, Bool-cases,
}
use owmice.Memory.{load32}
use owmice.Heap.{
  Heap, State, block_header_size, u32, size_at, next_at, scan_headers, scan_blocks, alloc,
}
use owmice.Heap.Layout.{Chunk}
use owmice.Heap.Fit.{place}
use owmice.Heap.Alloc.{Scanned, scan_headers-Scanned, IsHeap, has_room, AllocResult}

module _ (s : State) (hb n : ℕ) (cs : List Chunk) (is : IsHeap s hb n cs) (size : ℕ)
    (small : size < 2 ^ 31) where
  -- Behind the only block the list ends.
  no_more :
      (fuel k : ℕ) → scan_blocks (suc fuel) k s (load32 s.memory (next_at hb)) size ≡ some (0, s)
  unfolding scan_blocks
  no_more fuel k = rw is.only

  limit : u32 (hb + load32 s.memory (size_at hb)) ≡ hb + n
  limit = let h = is.inside in rw is.bytes (omega arith)

  abbrev behind : ℕ → ℕ → Option (ℕ × State)
  behind blocks k = scan_blocks blocks k s (load32 s.memory (next_at hb)) size

  abbrev or_behind : ℕ → ℕ → Option (Option (ℕ × State)) → Option (ℕ × State)
  or_behind blocks k r = do found ← r; elim found [ some r ↦ some r | none ↦ behind blocks k ]

  scan_one :
      (blocks k : ℕ)
      → scan_blocks (suc blocks) k s hb size ≡ (
          if has_room s hb n size
          then or_behind blocks k (scan_headers k s hb (hb + block_header_size) (hb + n) size)
          else behind blocks k)
  unfolding scan_blocks
  scan_one blocks k = rw (ne→== hb 0 is.not_null, limit, is.bytes)

  found_result :
      (fuel k : ℕ) (o : Option (ℕ × List Chunk)) (r : Option (Option (ℕ × State)))
      → Scanned s hb size (hb + block_header_size) (hb + n) cs o r
      → AllocResult s hb n size cs o (or_behind (suc fuel) k r)
  found_result fuel k none r h = rw h (no_more fuel k)
  found_result fuel k (some (o, ds)) r (t, run, chunks, elsewhere, used, total) = (
    t,
    rw run,
    record {
      first = ap (λ (h : Heap). h.fblock) total ∙ is.first;
      not_null = is.not_null;
      bytes = elsewhere (size_at hb) (inl (omega arith)) (inl (omega arith)) ∙ is.bytes;
      only = elsewhere (next_at hb) (inl (omega arith)) (inr (omega arith)) ∙ is.only;
      inside = is.inside;
      chunks = chunks;
    },
    elsewhere,
    used,
    total,
  )

  -- `k_heapLCABAlloc` refines first fit. With one block, and more fuel than the block has chunks,
  -- it returns. When the block's counters leave no room for the request and a header, or no free
  -- chunk is large enough, it returns 0 and changes nothing. Else it returns the address behind
  -- the header of the first free chunk that is large enough; afterwards the block is tiled by the
  -- chunks that first fit gives; no word outside that chunk changes but the block's counter; and
  -- both counters grow by the requested size, and by a header where the chunk was split.
  pub alloc-place :
      (fuel : ℕ)
      → length cs + 1 < fuel
      → AllocResult s hb n size cs
          (if has_room s hb n size then place size cs else none)
          (alloc fuel s size)
  unfolding alloc
  alloc-place zero h = absurd (omega arith)
  alloc-place (suc zero) h = absurd (omega arith)
  alloc-place (suc (suc fuel)) h =
      let enter = ap (λ (p : ℕ). scan_blocks (suc (suc fuel)) (suc (suc fuel)) s p size) is.first in
      rw (enter ∙ scan_one (suc fuel) (suc (suc fuel))) (elim (Bool-cases (has_room s hb n size)) [
        | inl room ↦ rw room (
            found_result fuel (suc (suc fuel)) (place size cs) _ (
              scan_headers-Scanned s hb size (hb + n) is.inside small (suc (suc fuel))
                (hb + block_header_size) cs (omega arith) (omega arith) is.chunks))
        | inr short ↦ rw short (no_more fuel (suc (suc fuel)))
      ])
