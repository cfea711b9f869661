-- ===== src/Heap/Previous.antt =====
-- The backward merge of `k_heapLCABFree` in mem/heap.h.
use owmice.Base.{ℕ, ◌+◌, ◌-◌, ◌^◌, ◌<◌, ◌≤◌, ◌≡◌, ◌≢◌, ◌↔◌, arith, ne→==}
use owmice.Memory.{Memory, load32}
use owmice.Heap.{header_size, prevsize_at, previous_header}

-- The header that the source takes for the one before `hdr` is the one before `hdr` exactly when the
-- local variable itself stands at the address `hdr`, that is, never for a variable on the stack.
pub previous_header_iff :
    (m : Memory) (slot hdr : ℕ)
    → load32 m (prevsize_at hdr) ≢ 0
    → load32 m (prevsize_at hdr) + header_size ≤ hdr
    → hdr < 2 ^ 32
    → slot < 2 ^ 32
    → (previous_header m slot hdr ≡ hdr - (header_size + load32 m (prevsize_at hdr))) ↔ (slot ≡ hdr)
unfolding previous_header
previous_header_iff m slot hdr some_before fits h k =
    rw (ne→== (load32 m (prevsize_at hdr)) 0 some_before) (λ e. omega arith, λ e. omega arith)
