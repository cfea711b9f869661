-- ===== src/Kernel/Offset.antt =====
-- The addresses handed out before there is a heap.
use owmice.Base.{ℕ, ◌+◌, ◌%◌, ◌^◌, ◌<◌, ◌≤◌, ◌≡◌, arith, true, false}
use owmice.Bits.{bit_and_page}
use owmice.Kernel.{offset_alloc}

-- With at least a page in use and room below 2^32, an aligned address is a multiple of a page, lies
-- behind what is in use by at most a page, and its range is in use afterwards; an address that is
-- not aligned is where the unused memory started.
pub offset_alloc_bounds :
    (unused sz : ℕ)
    → 4096 ≤ unused
    → unused + 4096 + sz < 2 ^ 32
    → ((offset_alloc unused sz true).0 % 4096 ≡ 0)
      × (unused < (offset_alloc unused sz true).0)
      × ((offset_alloc unused sz true).0 ≤ unused + 4096)
      × ((offset_alloc unused sz true).1 ≡ (offset_alloc unused sz true).0 + sz)
      × ((offset_alloc unused sz false).0 ≡ unused)
      × ((offset_alloc unused sz false).1 ≡ unused + sz)
unfolding offset_alloc
offset_alloc_bounds unused sz page room = ground (arith, bit_and_page unused (omega arith))
