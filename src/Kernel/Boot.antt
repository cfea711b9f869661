-- ===== src/Kernel/Boot.antt =====
-- The heap that the set-up makes.
use owmice.Base.{
  ℕ, ◌+◌, ◌-◌, ◌*◌, ◌/◌, ◌%◌, ◌^◌, ◌<◌, ◌≤◌, ◌≡◌, arith, refl, ◌∙◌, true, false, none, some, List,
  [], ◌∷◌, ◌++◌, bit_and,
}
use owmice.Bits.{bit_and_page}
use owmice.Kernel.{Kernel, MmapEntry, is_available, heap_range, pmem_init, offset, malloc}
use owmice.Kernel.Regions.{
  first_range, given, first_range-append, kernel_mem-add_regions, heap-add_regions,
}
use owmice.Memory.{load32}
use owmice.Heap as H
use owmice.Heap.Layout.{Chunk, chunk}
use owmice.Heap.Alloc.{IsHeap}
use owmice.Heap.Init.{add_block-IsHeap}

-- The image of the kernel in whole pages, as `pmem_init` counts it.
abbrev pub image_pages : ℕ → ℕ
image_pages kernel_size = kernel_size / 4096 * 4096 + 4096

-- Whether a region has room for the kernel, the 30 pages and a heap of at least 60 bytes and fewer
-- than 2^31, below 2^32.
pub record HasRoom (kernel_size : ℕ) (e : MmapEntry) : Type 0 where
  pub room : image_pages kernel_size + 0x1e000 + 60 ≤ e.length_low
  pub small : e.length_low < image_pages kernel_size + 0x1e000 + 2 ^ 31
  pub below : e.base_addr_low + e.length_low < 2 ^ 32

pub heap_range_lem :
    (kernel_size : ℕ) (e : MmapEntry)
    → HasRoom kernel_size e
    → heap_range (image_pages kernel_size) e ≡ record {
      start = e.base_addr_low + image_pages kernel_size + 0x1e000;
      end = e.base_addr_low + e.length_low;
    }
unfolding heap_range
heap_range_lem kernel_size e room =
    let fits = room.room in
    let below = room.below in
    let start : ((e.base_addr_low + image_pages kernel_size) % 2 ^ 32 + 4096 * 30) % 2 ^ 32
        ≡ e.base_addr_low + image_pages kernel_size + 0x1e000 =
      omega arith in
    let end : (e.base_addr_low
            + image_pages kernel_size
            + 0x1e000
            + (e.length_low + 2 * 2 ^ 32 - image_pages kernel_size - 4096 * 30) % 2 ^ 32)
          % 2 ^ 32
        ≡ e.base_addr_low + e.length_low =
      omega arith in
    rw (start, end) refl

-- The range that `pmem_init` gives the heap of such a region.
abbrev pub heap_start : ℕ → MmapEntry → ℕ
heap_start kernel_size e = e.base_addr_low + image_pages kernel_size + 0x1e000

abbrev pub heap_length : ℕ → MmapEntry → ℕ
heap_length kernel_size e = e.length_low - (image_pages kernel_size + 0x1e000)

abbrev pub heap_end : MmapEntry → ℕ
heap_end e = e.base_addr_low + e.length_low

-- One free chunk and three empty ones.
abbrev pub one_chunk : ℕ → List Chunk
one_chunk n = chunk (n - 52) false ∷ chunk 0 false ∷ chunk 0 false ∷ chunk 0 false ∷ []

given-IsHeap :
    (kernel_size : ℕ) (e : MmapEntry) (h : H.State)
    → HasRoom kernel_size e
    → load32 h.memory (heap_end e - 20) ≡ 0
    → load32 h.memory (heap_end e - 12) ≡ 0
    → load32 h.memory (heap_end e - 4) ≡ 0
    → IsHeap
        (given h (record { start = heap_start kernel_size e; end = heap_end e }))
        (heap_start kernel_size e)
        (heap_length kernel_size e)
        (one_chunk (heap_length kernel_size e))
unfolding H.init
given-IsHeap kernel_size e h has_room z₁ z₂ z₃ =
    let room = has_room.room in
    let small = has_room.small in
    let below = has_room.below in
    let size : (heap_end e + 2 ^ 32 - heap_start kernel_size e) % 2 ^ 32
        ≡ heap_length kernel_size e =
      omega arith in
    let last : heap_start kernel_size e + heap_length kernel_size e ≡ heap_end e = omega arith in
    rw size
      (add_block-IsHeap (record h { heap = H.init h.heap }) (heap_start kernel_size e)
        (heap_length kernel_size e) (omega arith) (omega arith) (λ null. absurd (omega arith))
        (omega arith) refl (rw last z₁) (rw last z₂) (rw last z₃)).0

-- Where no heap was, for a kernel below 2^31 bytes, and where the first available region has room
-- behind the kernel and 30 pages for at least 60 bytes and fewer than 2^31 and ends below 2^32,
-- pmem_init always returns: kernel_mem is the range from behind the kernel and 30 pages up to the end
-- of the region, and the heap has this range as its only block, tiled by one free chunk of all but 52
-- bytes and three empty ones, provided that three words in the last 24 bytes of the region were 0.
pub pmem_init-IsHeap :
    (fuel kernel_size mem_upper : ℕ) (past : ℕ → ℕ) (before after : List MmapEntry) (e : MmapEntry)
    (k : Kernel)
    → kernel_size < 2 ^ 31
    → k.kernel_mem ≡ none
    → first_range (image_pages kernel_size) before ≡ none
    → is_available e ≡ true
    → HasRoom kernel_size e
    → load32 k.heap.memory (heap_end e - 20) ≡ 0
    → load32 k.heap.memory (heap_end e - 12) ≡ 0
    → load32 k.heap.memory (heap_end e - 4) ≡ 0
    → (k' : Kernel) × (pmem_init fuel kernel_size mem_upper past (before ++ e ∷ after) k ≡ some k')
      × (k'.kernel_mem ≡ some (record { start = heap_start kernel_size e; end = heap_end e }))
      × IsHeap k'.heap
          (heap_start kernel_size e)
          (heap_length kernel_size e)
          (one_chunk (heap_length kernel_size e))
unfolding pmem_init malloc offset
pmem_init-IsHeap fuel kernel_size mem_upper past before after e k small fresh no_region available
      room z₁ z₂ z₃ =
    let pages : (bit_and kernel_size 0xFFFFF000 + 0x1000) % 2 ^ 32 ≡ image_pages kernel_size =
      omega (arith, bit_and_page kernel_size (omega arith)) in
    let first = first_range-append (image_pages kernel_size) before after e no_region available in
    let range = heap_range_lem kernel_size e room in
    rw (fresh, pages)
      (
        _,
        refl,
        kernel_mem-add_regions (image_pages kernel_size) (before ++ e ∷ after) _
            ∙ rw (first, range) refl,
        rw (heap-add_regions (image_pages kernel_size) (before ++ e ∷ after) _, first, range)
            (given-IsHeap kernel_size e k.heap room z₁ z₂ z₃),
      )
