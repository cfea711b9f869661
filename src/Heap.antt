-- ===== src/Heap.antt =====
-- The kernel heap of mem/heap.h. The `KHEAPLCAB` of the kernel is a record; a `KHEAPBLOCKLCAB` and
-- a `KHEAPHDRLCAB` stand in memory, at the address by which the source points to them. Sums of
-- addresses and counters are `uint32`, so they are taken modulo 2^32. The walks along the blocks
-- and along the headers take fuel.
pub mod Layout
pub mod Fit
pub mod Take
pub mod Previous
pub mod Init
pub mod Alloc
pub mod Refine
mod Tests
use owmice.Base.{
  ℕ, zero, suc, ◌+◌, ◌-◌, ◌*◌, ◌/◌, ◌%◌, ◌^◌, bit_and, bit_or, Bool, true, false, not, ◌&&◌, ◌||◌,
  Option, none, some, ◌>>=◌, ltb, leb, ◌==◌, if◌then◌else◌,
}
use owmice.Memory.{Memory, load32, store32}

pub record Heap : Type 0 where
  pub fblock : ℕ
  pub bcnt : ℕ
  pub mem_in_use : ℕ
  pub size : ℕ

-- The heap and the memory that it hands out.
pub record State : Type 0 where
  pub heap : Heap
  pub memory : Memory

-- `sizeof(KHEAPHDRLCAB)` and `sizeof(KHEAPBLOCKLCAB)`.
abbrev pub header_size : ℕ
header_size = 8

abbrev pub block_header_size : ℕ
block_header_size = 20

abbrev pub u32 : ℕ → ℕ
u32 n = n % 2 ^ 32

-- a - b as `uint32`.
abbrev pub sub32 : ℕ → ℕ → ℕ
sub32 a b = (a + 2 ^ 32 - b) % 2 ^ 32

-- The fields of a block at `hb` and of a header at `hdr`.
abbrev pub size_at : ℕ → ℕ
size_at hb = hb

abbrev pub used_at : ℕ → ℕ
used_at hb = hb + 4

abbrev pub next_at : ℕ → ℕ
next_at hb = hb + 8

abbrev pub lastdsize_at : ℕ → ℕ
lastdsize_at hb = hb + 12

abbrev pub lastdhdr_at : ℕ → ℕ
lastdhdr_at hb = hb + 16

abbrev pub prevsize_at : ℕ → ℕ
prevsize_at hdr = hdr

abbrev pub flagsize_at : ℕ → ℕ
flagsize_at hdr = hdr + 4

-- `size` is left as it is.
unfoldable pub init : Heap → Heap
init h = record h { fblock = 0; bcnt = 0; mem_in_use = 0 }

-- The first header gets no `prevsize`: whatever the memory holds there stays.
pub add_block : State → ℕ → ℕ → State
add_block s addr size =
    let h = s.heap in
    let m = store32 s.memory (size_at addr) size in
    let m = store32 m (used_at addr) 0 in
    let m = store32 m (next_at addr) h.fblock in
    let m =
      store32 m (flagsize_at (addr + block_header_size))
        (sub32 (load32 m (size_at addr)) (block_header_size + 32)) in
    let m = store32 m (lastdsize_at addr) 0 in
    record {
      heap = record h { fblock = addr; bcnt = u32 (h.bcnt + 1); size = u32 (h.size + size) };
      memory = store32 m (lastdhdr_at addr) 0;
    }

-- `hb->used += n; heap->mem_in_use += n`.
pub charge : State → ℕ → ℕ → State
charge s hb n = record {
  heap = record (s.heap) { mem_in_use = u32 (s.heap.mem_in_use + n) };
  memory = store32 s.memory (used_at hb) (u32 (load32 s.memory (used_at hb) + n));
}

-- `hb->used -= n; heap->mem_in_use -= n`.
pub refund : State → ℕ → ℕ → State
refund s hb n = record {
  heap = record (s.heap) { mem_in_use = sub32 s.heap.mem_in_use n };
  memory = store32 s.memory (used_at hb) (sub32 (load32 s.memory (used_at hb)) n);
}

-- Breaking the chunk at `hdr` in two: a header for the rest, then the used one of `size` bytes.
pub split_chunk : Memory → ℕ → ℕ → ℕ → Memory
split_chunk m hdr sz size =
    let rest = u32 (hdr + header_size + size) in
    let m = store32 m (flagsize_at rest) (sub32 sz (u32 (size + header_size))) in
    let m = store32 m (prevsize_at rest) size in
    store32 m (flagsize_at hdr) (bit_or 0x80000000 size)

-- `hdr->flagsize |= 0x80000000`.
pub mark_used : Memory → ℕ → Memory
mark_used m hdr = store32 m (flagsize_at hdr) (bit_or (load32 m (flagsize_at hdr)) 0x80000000)

-- The body of the inner loop of `k_heapLCABAlloc` for a free header with `sz >= size`.
pub take_chunk : State → ℕ → ℕ → ℕ → ℕ → State
take_chunk s hb hdr sz size =
    if ltb (u32 (size + header_size + 16)) sz
    then charge (charge (record s { memory = split_chunk s.memory hdr sz size }) hb header_size) hb
        size
    else charge (record s { memory = mark_used s.memory hdr }) hb size

-- The inner loop, from the header `hdr` up to `limit`. The inner `none` means that no header fits.
pub scan_headers : ℕ → State → ℕ → ℕ → ℕ → ℕ → Option (Option (ℕ × State))
scan_headers zero s hb hdr limit size = none
scan_headers (suc fuel) s hb hdr limit size =
    let flagsize = load32 s.memory (flagsize_at hdr) in
    let fg = flagsize / 2 ^ 31 in
    let sz = bit_and flagsize 0x7fffffff in
    let rest = scan_headers fuel s hb (u32 (hdr + header_size + sz)) limit size in
    if ltb hdr limit
    then (if fg == 0 && leb size sz
        then some (some (u32 (hdr + header_size), take_chunk s hb hdr sz size))
        else rest)
    else some none

-- The outer loop; `fuel` bounds the blocks and the headers of each block.
pub scan_blocks : ℕ → ℕ → State → ℕ → ℕ → Option (ℕ × State)
scan_blocks zero fuel s hb size = none
scan_blocks (suc blocks) fuel s hb size =
    let m = s.memory in
    let rest = scan_blocks blocks fuel s (load32 m (next_at hb)) size in
    let limit = u32 (hb + load32 m (size_at hb)) in
    if hb == 0
    then some (0, s)
    else if leb (u32 (size + header_size)) (sub32 (load32 m (size_at hb)) (load32 m (used_at hb)))
    then (do
      found ← scan_headers fuel s hb (hb + block_header_size) limit size
      elim found [ some r ↦ some r | none ↦ rest ])
    else rest

-- `k_heapLCABAlloc`: the address that it returns, 0 for none, and the new state.
pub alloc : ℕ → State → ℕ → Option (ℕ × State)
alloc fuel s size = scan_blocks fuel fuel s s.heap.fblock size

-- What `k_heapLCABFree` ends in: it returns, or it prints the blocks and loops for ever.
pub data FreeResult : Type 0 where
  freed : State → FreeResult
  hangs : FreeResult

abbrev pub is_used : Memory → ℕ → Bool
is_used m hdr = not (bit_and (load32 m (flagsize_at hdr)) 0x80000000 == 0)

-- Merging the header at `hdr` with the free one behind it.
merge_next : State → ℕ → ℕ → State
merge_next s hb hdr =
    let m = s.memory in
    let nhdr = u32 (hdr + header_size + load32 m (flagsize_at hdr)) in
    if leb (u32 (hb + load32 m (size_at hb))) nhdr || nhdr == 0 || is_used m nhdr
    then s
    else (let size = u32 (load32 m (flagsize_at hdr) + header_size + load32 m (flagsize_at nhdr)) in
        let s' = refund (record s { memory = store32 m (flagsize_at hdr) size }) hb header_size in
        let m' = s'.memory in
        record s' {
          memory =
              store32 m' (prevsize_at (u32 (hdr + header_size + load32 m' (flagsize_at hdr))))
                (load32 m' (flagsize_at hdr));
        })

-- The header that is taken for the previous one. The source computes its address from `&hdr`, the
-- address of its local variable, here `slot`, and not from `hdr`.
pub previous_header : Memory → ℕ → ℕ → ℕ
previous_header m slot hdr =
    let prevsize = load32 m (prevsize_at hdr) in
    if prevsize == 0 then 0 else sub32 slot (u32 (header_size + prevsize))

-- Merging with that header. The result's header is the merged one.
merge_previous : State → ℕ → ℕ → ℕ → State × ℕ
merge_previous s hb hdr phdr =
    let m = s.memory in
    if phdr == 0 || is_used m phdr
    then (s, hdr)
    else (let size = u32 (load32 m (flagsize_at phdr) + header_size + load32 m (flagsize_at hdr)) in
        let s' = refund (record s { memory = store32 m (flagsize_at phdr) size }) hb header_size in
        let m' = s'.memory in
        let nhdr = u32 (phdr + header_size + load32 m' (flagsize_at phdr)) in
        let inside = ltb nhdr (u32 (hb + block_header_size + load32 m' (size_at hb))) in
        (
          record s' {
            memory =
                if inside then store32 m' (prevsize_at nhdr) (load32 m' (flagsize_at phdr)) else m';
          },
          phdr,
        ))

-- `if (hdr->flagsize > hb->lastdsize) …`.
remember_largest : State → ℕ → ℕ → State
remember_largest s hb hdr =
    let m = s.memory in
    if ltb (load32 m (lastdsize_at hb)) (load32 m (flagsize_at hdr))
    then record s {
      memory =
          store32 (store32 m (lastdsize_at hb) (load32 m (flagsize_at hdr))) (lastdhdr_at hb) hdr;
    }
    else s

-- `hdr->flagsize &= ~0x80000000`.
clear_flag : State → ℕ → State
clear_flag s hdr = record s {
  memory =
      store32 s.memory (flagsize_at hdr) (bit_and (load32 s.memory (flagsize_at hdr)) 0x7fffffff);
}

-- The work of `k_heapLCABFree` in the block that the pointer lies in.
free_in_block : State → ℕ → ℕ → ℕ → State
free_in_block s slot hb hdr =
    let s = clear_flag s hdr in
    let s = refund s hb (load32 s.memory (flagsize_at hdr)) in
    let phdr = previous_header s.memory slot hdr in
    let (s, hdr) = merge_previous (merge_next s hb hdr) hb hdr phdr in remember_largest s hb hdr

find_block : ℕ → State → ℕ → ℕ → ℕ → Option FreeResult
find_block zero s slot hb ptr = none
find_block (suc fuel) s slot hb ptr =
    let m = s.memory in
    let rest = find_block fuel s slot (load32 m (next_at hb)) ptr in
    let limit = u32 (hb + load32 m (size_at hb)) in
    if hb == 0
    then some hangs
    else if ltb hb ptr && ltb ptr limit
    then some (freed (free_in_block s slot hb (sub32 ptr header_size)))
    else rest

-- `k_heapLCABFree`, with `slot` the address of its local variable `hdr`.
pub free : ℕ → State → ℕ → ℕ → Option FreeResult
free fuel s slot ptr = find_block fuel (clear_flag s (sub32 ptr header_size)) slot s.heap.fblock ptr
