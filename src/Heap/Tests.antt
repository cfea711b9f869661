-- ===== src/Heap/Tests.antt =====
-- The kernel heap at concrete blocks.
use owmice.Base.{
  ℕ, ◌-◌, ◌≡◌, ◌↔◌, false, Option, none, some, [], ◌∷◌, refl, arith, ◌==◌, if◌then◌else◌,
}
use owmice.Memory.{Memory, load8, store8, load32, store32}
use owmice.Heap.{
  State, add_block, alloc, used_at, scan_blocks, scan_headers, take_chunk, split_chunk, mark_used,
  charge, previous_header,
}
use owmice.Heap.Layout.{chunk}
use owmice.Heap.Fit.{place}
use owmice.Heap.Init.{add_block-IsHeap}
use owmice.Heap.Alloc.{IsHeap, AllocResult, has_room}
use owmice.Heap.Refine.{alloc-place}
use owmice.Heap.Previous.{previous_header_iff}

abbrev empty_heap : State
empty_heap = record {
  heap = record { fblock = 0; bcnt = 0; mem_in_use = 0; size = 0 };
  memory = λ a. 0;
}

-- A block of 1000 bytes at 0x1000, where the memory was 0.
abbrev one_block : State
one_block = add_block empty_heap 0x1000 1000

zero_word : (a : ℕ) → load32 empty_heap.memory a ≡ 0
unfolding load32 load8
zero_word a = refl

add_block-IsHeap_example :
    IsHeap one_block 0x1000 1000
      (chunk 948 false ∷ chunk 0 false ∷ chunk 0 false ∷ chunk 0 false ∷ [])
    × (load32 one_block.memory (used_at 0x1000) ≡ 0)
add_block-IsHeap_example =
    add_block-IsHeap empty_heap 0x1000 1000 (omega arith) (omega arith) (omega arith) (omega arith)
      refl (zero_word _) (zero_word _) (zero_word _)

abbrev address_of : Option (ℕ × State) → ℕ
address_of none = 1
address_of (some (p, s)) = p

-- The first request is served behind the first header, the second behind the chunk of the first.
two_requests :
    (address_of (alloc 9 one_block 100) ≡ 0x101c) × (address_of (alloc 9 one_block 1000) ≡ 0)
unfolding alloc scan_blocks scan_headers take_chunk split_chunk mark_used charge add_block load32
    store32 load8 store8
two_requests = (refl, refl)

alloc-place_example :
    AllocResult one_block 0x1000 1000 100
      (chunk 948 false ∷ chunk 0 false ∷ chunk 0 false ∷ chunk 0 false ∷ [])
      (if has_room one_block 0x1000 1000 100
        then place 100 (chunk 948 false ∷ chunk 0 false ∷ chunk 0 false ∷ chunk 0 false ∷ [])
        else none)
      (alloc 9 one_block 100)
alloc-place_example =
    alloc-place one_block 0x1000 1000
      (chunk 948 false ∷ chunk 0 false ∷ chunk 0 false ∷ chunk 0 false ∷ [])
      add_block-IsHeap_example.0 100 (omega arith) 9 (omega arith)

-- A header at 0x2000 behind a chunk of 100 bytes, and the local variable at 0x9000.
abbrev behind_100 : Memory
behind_100 = λ a. if a == 0x2000 then 100 else 0

previous_header_iff_example :
    (previous_header behind_100 0x9000 0x2000 ≡ 0x2000 - 108) ↔ (◌≡◌ {A = ℕ} 0x9000 0x2000)
unfolding load32 load8
previous_header_iff_example =
    previous_header_iff behind_100 0x9000 0x2000 (omega arith) (omega arith) (omega arith)
      (omega arith)
