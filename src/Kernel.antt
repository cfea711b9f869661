-- ===== src/Kernel.antt =====
-- The memory of the kernel in mem/mem.h: the set-up from the boot loader's memory map, and
-- `malloc`, `amalloc` and `free`, which take the heap once it is there and before that hand out
-- addresses one behind the other. The entries of the memory map are a list, in the order of the
-- walk along them; the kernel's size and the end of its image are arguments. The structure that
-- `kernel_mem` points to is an option, and messages are left out.
pub mod Offset
pub mod Regions
pub mod Boot
mod Tests
use owmice.Base.{
  ℕ, zero, suc, ◌+◌, ◌-◌, ◌*◌, ◌/◌, ◌%◌, ◌^◌, bit_and, Bool, true, false, not, ◌&&◌, Option, none,
  some, ◌>>=◌, List, [], ◌∷◌, ltb, ◌==◌, if◌then◌else◌,
}
use owmice.Frames.{
  Frames, WordMap, bit_set, bit_unset, bit_test, mem_init_region, mem_deinit_region,
}
use owmice.Heap.{FreeResult, freed, hangs}
use owmice.Heap as H

abbrev u32 : ℕ → ℕ
u32 n = n % 2 ^ 32

-- `mem_t`.
pub record MemRange : Type 0 where
  pub start : ℕ
  pub end : ℕ

pub record Kernel : Type 0 where
  pub frames : Frames
  pub kernel_mem : Option MemRange
  pub mem_unused : ℕ
  pub heap : H.State
  pub mem_size : ℕ
  pub mem_avail : ℕ

-- An entry of the boot loader's memory map: what `pmem_init` reads of it.
pub record MmapEntry : Type 0 where
  pub base_addr_low : ℕ
  pub length_low : ℕ
  pub type : ℕ

pub mmap_set : WordMap → ℕ → WordMap
mmap_set map bit = bit_set map bit

pub mmap_unset : WordMap → ℕ → WordMap
mmap_unset map bit = bit_unset map bit

pub mmap_test : WordMap → ℕ → Bool
mmap_test map bit = bit_test map bit

-- `alloc`: the address, and where the unused memory starts afterwards.
unfoldable pub offset_alloc : ℕ → ℕ → Bool → ℕ × ℕ
offset_alloc mem_unused sz palign =
    let start =
      if palign && not (bit_and mem_unused 0xFFFFF000 == 0)
      then u32 (bit_and mem_unused 0xFFFFF000 + 0x1000)
      else mem_unused in
    (start, u32 (start + sz))

offset : Kernel → ℕ → Bool → ℕ × Kernel
offset k sz palign =
    let (addr, unused) = offset_alloc k.mem_unused sz palign in
    (addr, record k { mem_unused = unused })

pub malloc : ℕ → Kernel → ℕ → Option (ℕ × Kernel)
malloc fuel k sz = elim k.kernel_mem [
  | none ↦ some (offset k sz false)
  | some _ ↦ (do (addr, heap) ← H.alloc fuel k.heap sz; some (addr, record k { heap = heap }))
]

-- The heap's address is rounded down.
pub amalloc : ℕ → Kernel → ℕ → Option (ℕ × Kernel)
amalloc fuel k sz = elim k.kernel_mem [
  | none ↦ some (offset k sz true)
  | some _ ↦ (do
    (addr, heap) ← H.alloc fuel k.heap (u32 (sz + 0x1000))
    some (bit_and addr 0xFFFFF000, record k { heap = heap }))
]

-- `free`, with the address of the local variable of `k_heapLCABFree`; `none` in the middle where
-- that loops for ever.
pub free : ℕ → Kernel → ℕ → ℕ → Option (Option Kernel)
free fuel k slot sz = elim k.kernel_mem [
  | none ↦ some (some (record k { mem_unused = u32 (k.mem_unused + 2 ^ 32 - sz) }))
  | some _ ↦ (do
    r ← H.free fuel k.heap slot sz
    some (elim r [ freed heap ↦ some (record k { heap = heap }) | hangs ↦ none ]))
]

-- The range that a region gives the heap, behind the kernel and 30 pages.
pub heap_range : ℕ → MmapEntry → MemRange
heap_range size_pa e =
    let start = u32 (u32 (e.base_addr_low + size_pa) + 4096 * 30) in
    record {
      start = start;
      end = u32 (start + (e.length_low + 2 * 2 ^ 32 - size_pa - 4096 * 30) % 2 ^ 32);
    }

unfoldable pub is_available : MmapEntry → Bool
is_available e = e.type == 1 && ltb 0 e.base_addr_low

-- One round of the loop of `pmem_init`. The first available region becomes the heap's block; the
-- structure for it comes from `malloc`, before there is a heap.
pub add_region : ℕ → Kernel → MmapEntry → Kernel
add_region size_pa k e =
    if is_available e
    then (let k = record k { frames = mem_init_region k.frames e.base_addr_low e.length_low } in
        elim k.kernel_mem [
          | some r ↦ k
          | none ↦
              let r = heap_range size_pa e in
              let (_, k) = offset k 8 false in
              record k {
                kernel_mem = some r;
                heap =
                    H.add_block (record (k.heap) { heap = H.init k.heap.heap }) r.start
                      (u32 (r.end + 2 ^ 32 - r.start));
              }
        ])
    else record k { frames = mem_deinit_region k.frames e.base_addr_low e.length_low }

pub add_regions : ℕ → List MmapEntry → Kernel → Kernel
add_regions size_pa [] k = k
add_regions size_pa (e ∷ es) k = add_regions size_pa es (add_region size_pa k e)

-- The bitmap that `memset` fills with the byte 0xf, `mmap_len` bytes long; `past` is what follows.
pub initial_map : ℕ → WordMap → WordMap
initial_map mmap_len past i = if ltb (4 * i + 3) mmap_len then 0x0f0f0f0f else past i

-- `none` where `malloc` runs out of fuel, which it does not need before there is a heap.
pub pmem_init : ℕ → ℕ → ℕ → WordMap → List MmapEntry → Kernel → Option Kernel
pmem_init fuel kernel_size mem_upper past entries k = (do
  let blocks_max = u32 (mem_upper * 1024) / 4096
  let mmap_len = blocks_max / 8
  (_, k) ← malloc fuel k mmap_len
  let k = record k {
    frames = record {
      memory_map = initial_map mmap_len past;
      blocks_used = blocks_max;
      blocks_max = blocks_max;
    };
  }
  let size_pa = u32 (bit_and kernel_size 0xFFFFF000 + 0x1000)
  let k = add_regions size_pa entries k
  some (record k {
    mem_avail = u32 (k.frames.blocks_used * 4096);
    mem_size = u32 (mem_upper * 1024);
  }))
