-- ===== src/Kernel/Tests.antt =====
-- The memory of the kernel at concrete values.
use owmice.Base.{ℕ, ◌≡◌, arith, refl, true, none, some, List, [], ◌∷◌, ◌++◌}
use owmice.Kernel.{Kernel, MmapEntry, is_available, pmem_init, offset_alloc}
use owmice.Kernel.Regions.{first_range}
use owmice.Kernel.Boot.{image_pages, heap_start, heap_end, heap_length, one_chunk, pmem_init-IsHeap}
use owmice.Memory.{load8, load32}
use owmice.Heap.Alloc.{IsHeap}

-- Behind 0x101234 the next page starts at 0x102000.
next_page : offset_alloc 0x101234 0x20 true ≡ (0x102000, 0x102020)
unfolding offset_alloc
next_page = refl

-- An aligned address is moved up by a page all the same.
skips_a_page : offset_alloc 0x102000 0x20 true ≡ (0x103000, 0x103020)
unfolding offset_alloc
skips_a_page = refl

abbrev at_boot : Kernel
at_boot = record {
  frames = record { memory_map = λ i. 0; blocks_used = 0; blocks_max = 0 };
  kernel_mem = none;
  mem_unused = 0x120000;
  heap = record {
    heap = record { fblock = 0; bcnt = 0; mem_in_use = 0; size = 0 };
    memory = λ a. 0;
  };
  mem_size = 0;
  mem_avail = 0;
}

-- The first 639 KiB start at address 0, so they are not taken; the next entry is reserved.
abbrev low_entries : List MmapEntry
low_entries =
    record { base_addr_low = 0; length_low = 0x9fc00; type = 1 }
    ∷ record { base_addr_low = 0x9fc00; length_low = 0x400; type = 2 }
    ∷ []

abbrev upper_entry : MmapEntry
upper_entry = record { base_addr_low = 0x100000; length_low = 0x1f00000; type = 1 }

no_region : first_range (image_pages 0x12345) low_entries ≡ none
unfolding first_range is_available
no_region = refl

available : is_available upper_entry ≡ true
unfolding is_available
available = refl

zeros : (a : ℕ) → load32 at_boot.heap.memory a ≡ 0
unfolding load32 load8
zeros a = refl

pmem_init-IsHeap_example :
    (k' : Kernel) × (pmem_init 0 0x12345 0x7c00 (λ i. 0) (low_entries ++ upper_entry ∷ []) at_boot
      ≡ some k')
    × (k'.kernel_mem
        ≡ some (record { start = heap_start 0x12345 upper_entry; end = heap_end upper_entry }))
    × IsHeap k'.heap
        (heap_start 0x12345 upper_entry)
        (heap_length 0x12345 upper_entry)
        (one_chunk (heap_length 0x12345 upper_entry))
pmem_init-IsHeap_example =
    pmem_init-IsHeap 0 0x12345 0x7c00 (λ i. 0) low_entries [] upper_entry at_boot (omega arith) refl
      no_region available (record { room = omega arith; small = omega arith; below = omega arith })
      (zeros _) (zeros _) (zeros _)
