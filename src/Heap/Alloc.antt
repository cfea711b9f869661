-- ===== src/Heap/Alloc.antt =====
-- `k_heapLCABAlloc` refines first fit on the list of chunks of a block.
use owmice.Base.{
  ℕ, zero, suc, ◌+◌, ◌/◌, ◌^◌, ◌<◌, ◌≤◌, ◌≡◌, ◌≢◌, inl, inr, Bool, true, false, not, Option, none,
  some, List, [], ◌∷◌, ◌++◌, length, arith, ap, ◌∙◌, ltb, leb, lt→ltb, ◌==◌, if◌then◌else◌,
  Bool-cases, bit_and,
}
use owmice.Bits.{bit_and_not_top}
use owmice.Memory.{Memory, load32}
use owmice.Heap.{
  State, header_size, block_header_size, u32, sub32, size_at, used_at, next_at, flagsize_at,
  take_chunk, scan_headers,
}
use owmice.Heap.Layout.{Chunk, chunk, flagsize, Chunks, Chunks-extent, Chunks-frame, Chunks-append}
use owmice.Heap.Fit.{fits, taken, place}
use owmice.Heap.Take.{Outside, NotUsed, cost, counted, take_chunk-IsTaken}

-- The chunk that first fit takes.
unfoldable pub chosen : ℕ → List Chunk → Chunk
chosen size [] = chunk 0 true
chosen size (c ∷ cs) = if fits size c then c else chosen size cs

-- What a scan of the chunks `cs` from the header `a` on should end in.
abbrev pub Scanned :
    State
    → ℕ
    → ℕ
    → ℕ
    → ℕ
    → List Chunk
    → Option (ℕ × List Chunk)
    → Option (Option (ℕ × State))
    → Type 0
Scanned s hb size a stop cs none r = r ≡ some none
Scanned s hb size a stop cs (some (o, ds)) r =
    (t : State) × (r ≡ some (some (a + o + header_size, t)))
    × Chunks t.memory a ds stop
    × ((b : ℕ)
        → Outside (a + o) (a + o + header_size + (chosen size cs).sz) b
        → NotUsed hb b
        → load32 t.memory b ≡ load32 s.memory b)
    × (load32 t.memory (used_at hb)
        ≡ u32 (load32 s.memory (used_at hb) + cost size (chosen size cs)))
    × (t.heap ≡ counted s (cost size (chosen size cs)))

taken-append : (size : ℕ) (c : Chunk) (cs : List Chunk) → taken size c cs ≡ taken size c [] ++ cs
taken-append size c cs = ground arith

module _ (size : ℕ) (c : Chunk) (cs : List Chunk) where
  chosen_first : fits size c ≡ true → chosen size (c ∷ cs) ≡ c
  unfolding chosen
  chosen_first h = rw h

  chosen_later : fits size c ≡ false → chosen size (c ∷ cs) ≡ chosen size cs
  unfolding chosen
  chosen_later h = rw h

module _ (s : State) (hb size stop : ℕ) (inside : stop < 2 ^ 32) (small : size < 2 ^ 31) where
  flag_parts :
      (m : Memory) (a : ℕ) (c : Chunk)
      → c.sz < 2 ^ 31
      → load32 m (flagsize_at a) ≡ flagsize c
      → ((load32 m (flagsize_at a) / 2 ^ 31 == 0) ≡ not c.used)
        × (bit_and (load32 m (flagsize_at a)) 0x7fffffff ≡ c.sz)
  flag_parts m a c h e = (ground arith, bit_and_not_top (load32 m (flagsize_at a)) ∙ ground arith)

  -- The chunk at the front is taken.
  Scanned-taken :
      (a : ℕ) (c : Chunk) (cs : List Chunk)
      → hb + 8 ≤ a
      → Chunks s.memory a (c ∷ cs) stop
      → fits size c ≡ true
      → Scanned s hb size a stop
          (c ∷ cs)
          (some (0, taken size c cs))
          (some (some (a + header_size, take_chunk s hb a c.sz size)))
  Scanned-taken a c cs above h fit =
      let behind = Chunks-extent s.memory (a + header_size + c.sz) cs stop h.2 in
      let t = take_chunk s hb a c.sz size in
      let is =
        take_chunk-IsTaken s hb a size c (ground arith) (ground arith) h.0 (ground arith)
          (omega arith) above in
      let here = λ (b : ℕ) (out : Outside (a + 0) (a + 0 + header_size + c.sz) b).
        (let w : Outside a (a + header_size + c.sz) b = omega arith in w) in
      let later =
        Chunks-frame s.memory t.memory (a + header_size + c.sz) cs stop
          (λ b p q. is.elsewhere (flagsize_at b) (inr (omega arith)) (inr (omega arith))) h.2 in
      (
        t,
        ap (λ (p : ℕ). some (some (p, t))) (omega arith),
        rw (taken-append size c cs) (
            Chunks-append t.memory a (taken size c []) (a + header_size + c.sz) cs stop is.here
              later),
        λ b out apart. is.elsewhere b (here b (rw (chosen_first size c cs fit) at out)) apart,
        rw (chosen_first size c cs fit) is.used,
        rw (chosen_first size c cs fit) is.counters,
      )

  -- The chunk at the front is passed over.
  Scanned-cons :
      (a : ℕ) (c : Chunk) (cs : List Chunk) (o : Option (ℕ × List Chunk))
      (r : Option (Option (ℕ × State)))
      → hb + 8 ≤ a
      → Chunks s.memory a (c ∷ cs) stop
      → fits size c ≡ false
      → Scanned s hb size (a + header_size + c.sz) stop cs o r
      → Scanned s hb size a stop
          (c ∷ cs)
          (elim o [ none ↦ none | some (o, ds) ↦ some (header_size + c.sz + o, c ∷ ds) ])
          r
  Scanned-cons a c cs none r above h pass rest = rest
  Scanned-cons a c cs (some (o, ds)) r above h pass (t, run, chunks, elsewhere, used, total) =
      let behind = Chunks-extent s.memory (a + header_size + c.sz) cs stop h.2 in
      let along =
        λ (b : ℕ)
            (out : Outside (a + (header_size + c.sz + o))
              (a + (header_size + c.sz + o) + header_size + (chosen size cs).sz) b).
          (let w : Outside (a + header_size + c.sz + o)
                (a + header_size + c.sz + o + header_size + (chosen size cs).sz) b =
              omega arith in
            w) in
      (
        t,
        run ∙ ap (λ (p : ℕ). some (some (p, t))) (omega arith),
        (h.0, elsewhere (flagsize_at a) (inl (omega arith)) (inr (omega arith)) ∙ h.1, chunks),
        λ b out apart. elsewhere b (along b (rw (chosen_later size c cs pass) at out)) apart,
        rw (chosen_later size c cs pass) used,
        rw (chosen_later size c cs pass) total,
      )

  -- One round of the loop, with the header read as a chunk.
  scan_step :
      (fuel a : ℕ) (c : Chunk) (cs : List Chunk)
      → Chunks s.memory a (c ∷ cs) stop
      → scan_headers (suc fuel) s hb a stop size ≡ (
          if fits size c
          then some (some (a + header_size, take_chunk s hb a c.sz size))
          else scan_headers fuel s hb (a + header_size + c.sz) stop size)
  unfolding scan_headers
  scan_step fuel a c cs h =
      let behind = Chunks-extent s.memory (a + header_size + c.sz) cs stop h.2 in
      let (flag, sz) = flag_parts s.memory a c h.0 h.1 in
      let below : ltb a stop ≡ true = lt→ltb a stop (omega arith) in
      let next : u32 (a + header_size + c.sz) ≡ a + header_size + c.sz = omega arith in
      let at : u32 (a + header_size) ≡ a + header_size = omega arith in
      rw (below, flag, sz, next, at)

  pub scan_headers-Scanned :
      (fuel a : ℕ) (cs : List Chunk)
      → length cs < fuel
      → hb + 8 ≤ a
      → Chunks s.memory a cs stop
      → Scanned s hb size a stop cs (place size cs) (scan_headers fuel s hb a stop size)
  unfolding scan_headers place
  scan_headers-Scanned zero a cs f above h = absurd (omega arith)
  scan_headers-Scanned (suc fuel) a [] f above h = ground arith
  scan_headers-Scanned (suc fuel) a (c ∷ cs) f above h =
      let behind = Chunks-extent s.memory (a + header_size + c.sz) cs stop h.2 in
      rw (scan_step fuel a c cs h) (elim (Bool-cases (fits size c)) [
        | inl fit ↦ rw fit (Scanned-taken a c cs above h fit)
        | inr pass ↦ rw pass (
            Scanned-cons a c cs (place size cs) _ above h pass (
              scan_headers-Scanned fuel (a + header_size + c.sz) cs (omega arith) (omega arith)
                h.2))
      ])

-- The kernel's heap: one block of `n` bytes at `hb`, tiled by the chunks `cs`.
pub record IsHeap (s : State) (hb n : ℕ) (cs : List Chunk) : Type 0 where
  pub first : s.heap.fblock ≡ hb
  pub not_null : hb ≢ 0
  pub bytes : load32 s.memory (size_at hb) ≡ n
  pub only : load32 s.memory (next_at hb) ≡ 0
  pub inside : hb + n < 2 ^ 32
  pub chunks : Chunks s.memory (hb + block_header_size) cs (hb + n)

-- The test that `k_heapLCABAlloc` makes of a block.
abbrev pub has_room : State → ℕ → ℕ → ℕ → Bool
has_room s hb n size = leb (u32 (size + header_size)) (sub32 n (load32 s.memory (used_at hb)))

-- What `k_heapLCABAlloc` should end in.
abbrev pub AllocResult :
    State → ℕ → ℕ → ℕ → List Chunk → Option (ℕ × List Chunk) → Option (ℕ × State) → Type 0
AllocResult s hb n size cs none r = r ≡ some (0, s)
AllocResult s hb n size cs (some (o, ds)) r =
    (t : State) × (r ≡ some (hb + block_header_size + o + header_size, t))
    × IsHeap t hb n ds
    × ((b : ℕ)
        → Outside (hb + block_header_size + o)
            (hb + block_header_size + o + header_size + (chosen size cs).sz) b
        → NotUsed hb b
        → load32 t.memory b ≡ load32 s.memory b)
    × (load32 t.memory (used_at hb)
        ≡ u32 (load32 s.memory (used_at hb) + cost size (chosen size cs)))
    × (t.heap ≡ counted s (cost size (chosen size cs)))
