-- ===== src/Heap/Init.antt =====
-- `k_heapLCABAddBlock` of mem/heap.h: the first block of a heap.
use owmice.Base.{
  ℕ, ◌+◌, ◌-◌, ◌^◌, ◌<◌, ◌≤◌, ◌≡◌, ◌≢◌, ◌⊎◌, inr, false, List, [], ◌∷◌, arith, refl, ap, ◌∙◌,
}
use owmice.Memory.{Memory, load32, store32}
use owmice.Memory.Word.{load32-store32_self, load32-store32_ne}
use owmice.Heap.{
  State, block_header_size, sub32, size_at, used_at, next_at, lastdsize_at, lastdhdr_at,
  flagsize_at, add_block,
}
use owmice.Heap.Layout.{Chunk, chunk}
use owmice.Heap.Alloc.{IsHeap}

module _ (s : State) (addr n : ℕ) (small : n < 2 ^ 31) (large : 60 ≤ n) where
  -- The memory after each of the writes.
  abbrev m₁ : Memory
  m₁ = store32 s.memory (size_at addr) n

  abbrev m₂ : Memory
  m₂ = store32 m₁ (used_at addr) 0

  abbrev m₃ : Memory
  m₃ = store32 m₂ (next_at addr) s.heap.fblock

  abbrev m₄ : Memory
  m₄ = store32 m₃ (flagsize_at (addr + block_header_size)) (n - 52)

  abbrev m₅ : Memory
  m₅ = store32 m₄ (lastdsize_at addr) 0

  first_size : sub32 (load32 m₃ (size_at addr)) (block_header_size + 32) ≡ n - 52
  first_size =
      let e =
        load32-store32_ne m₂ (next_at addr) s.heap.fblock (size_at addr) (inr (omega arith))
        ∙ load32-store32_ne m₁ (used_at addr) 0 (size_at addr) (inr (omega arith))
        ∙ load32-store32_self s.memory (size_at addr) n (omega arith) in
      omega (arith, e)

  memory_lem : (add_block s addr n).memory ≡ store32 m₅ (lastdhdr_at addr) 0
  unfolding add_block
  memory_lem = rw first_size

  -- Words that no write of `add_block` touches.
  abbrev Untouched : ℕ → Type 0
  Untouched b =
      ((b + 4 ≤ addr) ⊎ (addr + block_header_size ≤ b))
      × ((b + 4 ≤ addr + block_header_size + 4) ⊎ (addr + block_header_size + 8 ≤ b))

  untouched : (b : ℕ) → Untouched b → load32 (add_block s addr n).memory b ≡ load32 s.memory b
  untouched b h = rw memory_lem (
      load32-store32_ne m₅ (lastdhdr_at addr) 0 b (ground arith)
      ∙ load32-store32_ne m₄ (lastdsize_at addr) 0 b (ground arith)
      ∙ load32-store32_ne m₃ (flagsize_at (addr + block_header_size)) (n - 52) b (ground arith)
      ∙ load32-store32_ne m₂ (next_at addr) s.heap.fblock b (ground arith)
      ∙ load32-store32_ne m₁ (used_at addr) 0 b (ground arith)
      ∙ load32-store32_ne s.memory (size_at addr) n b (ground arith))

  size_word : load32 (add_block s addr n).memory (size_at addr) ≡ n
  size_word = rw memory_lem (
      load32-store32_ne m₅ (lastdhdr_at addr) 0 (size_at addr) (omega arith)
      ∙ load32-store32_ne m₄ (lastdsize_at addr) 0 (size_at addr) (omega arith)
      ∙ load32-store32_ne m₃ (flagsize_at (addr + block_header_size)) (n - 52) (size_at addr)
          (omega arith)
      ∙ load32-store32_ne m₂ (next_at addr) s.heap.fblock (size_at addr) (omega arith)
      ∙ load32-store32_ne m₁ (used_at addr) 0 (size_at addr) (omega arith)
      ∙ load32-store32_self s.memory (size_at addr) n (omega arith))

  used_word : load32 (add_block s addr n).memory (used_at addr) ≡ 0
  used_word = rw memory_lem (
      load32-store32_ne m₅ (lastdhdr_at addr) 0 (used_at addr) (omega arith)
      ∙ load32-store32_ne m₄ (lastdsize_at addr) 0 (used_at addr) (omega arith)
      ∙ load32-store32_ne m₃ (flagsize_at (addr + block_header_size)) (n - 52) (used_at addr)
          (omega arith)
      ∙ load32-store32_ne m₂ (next_at addr) s.heap.fblock (used_at addr) (omega arith)
      ∙ load32-store32_self m₁ (used_at addr) 0 (omega arith))

  next_word : s.heap.fblock ≡ 0 → load32 (add_block s addr n).memory (next_at addr) ≡ 0
  next_word empty = rw memory_lem (
      load32-store32_ne m₅ (lastdhdr_at addr) 0 (next_at addr) (omega arith)
      ∙ load32-store32_ne m₄ (lastdsize_at addr) 0 (next_at addr) (omega arith)
      ∙ load32-store32_ne m₃ (flagsize_at (addr + block_header_size)) (n - 52) (next_at addr)
          (omega arith)
      ∙ load32-store32_self m₂ (next_at addr) s.heap.fblock (omega arith)
      ∙ empty)

  flag_word : load32 (add_block s addr n).memory (flagsize_at (addr + block_header_size)) ≡ n - 52
  flag_word = rw memory_lem (
      load32-store32_ne m₅ (lastdhdr_at addr) 0 (flagsize_at (addr + block_header_size))
        (omega arith)
      ∙ load32-store32_ne m₄ (lastdsize_at addr) 0 (flagsize_at (addr + block_header_size))
          (omega arith)
      ∙ load32-store32_self m₃ (flagsize_at (addr + block_header_size)) (n - 52) (omega arith))

  abbrev pub fresh_chunks : List Chunk
  fresh_chunks = chunk (n - 52) false ∷ chunk 0 false ∷ chunk 0 false ∷ chunk 0 false ∷ []

  -- For a block of at least 60 bytes and fewer than 2^31, at an address that is not 0 and with its end
  -- below 2^32, k_heapLCABAddBlock on an empty heap makes a block that is tiled by one free chunk of
  -- all but 52 bytes and three empty chunks, and counts none of it as used, provided that three words
  -- in the last 24 bytes of the block were 0 before, since it writes no header there.
  pub add_block-IsHeap :
      addr ≢ 0
      → addr + n < 2 ^ 32
      → s.heap.fblock ≡ 0
      → load32 s.memory (addr + n - 20) ≡ 0
      → load32 s.memory (addr + n - 12) ≡ 0
      → load32 s.memory (addr + n - 4) ≡ 0
      → IsHeap (add_block s addr n) addr n fresh_chunks
        × (load32 (add_block s addr n).memory (used_at addr) ≡ 0)
  add_block-IsHeap ne inside empty z₁ z₂ z₃ =
      let tail =
        λ (b : ℕ) (k : ℕ) (e : b ≡ addr + n - k) (z : load32 s.memory (addr + n - k) ≡ 0)
            (out : Untouched b).
          (let w : load32 (add_block s addr n).memory b ≡ 0 =
              untouched b out ∙ ap (load32 s.memory) e ∙ z in
            w) in
      (
        record {
          first = unfold add_block in refl;
          not_null = ne;
          bytes = size_word;
          only = next_word empty;
          inside = inside;
          chunks = (
            omega arith,
            flag_word,
            (
              omega arith,
              tail _ 20 (omega arith) z₁ (omega arith),
              (
                omega arith,
                tail _ 12 (omega arith) z₂ (omega arith),
                (omega arith, tail _ 4 (omega arith) z₃ (omega arith), omega arith),
              ),
            ),
          );
        },
        used_word,
      )
