-- ===== src/Paging/Tests.antt =====
-- Paging at an empty directory.
use owmice.Base.{ℕ, ◌≡◌, refl, arith, if◌then◌else◌, ◌==◌}
use owmice.Memory.{load8, load32}
use owmice.Frames.{bit_test}
use owmice.Paging.{Paging, map_page, map_pages, size_to_pages, size_to_tables}
use owmice.Paging.Walk.{word, IsMapped}
use owmice.Paging.Map.{Mapped, map_page-Mapped}
use owmice.Paging.Range.{MappedRange, map_pages-MappedRange}

-- Frame 0 and the directory's frame 1 are used, out of 64.
abbrev start : Paging
start = record {
  frames = record { memory_map = λ i. if i == 0 then 3 else 0; blocks_used = 2; blocks_max = 64 };
  memory = λ a. 0;
  dir_current = 0x1000;
}

zero_word : (t k : ℕ) → word start.memory t k ≡ 0
unfolding word load32 load8
zero_word t k = refl

start-IsMapped : IsMapped start
unfolding bit_test
start-IsMapped = record {
  aligned = refl;
  low = λ i h. rw (zero_word 0x1000 i) (omega arith);
  empty = λ i h e. zero_word 0x1000 i;
  apart = λ i h. rw (zero_word 0x1000 i) (λ e. absurd (omega arith));
  distinct = λ i j hi hj. rw (zero_word 0x1000 i) (λ e. absurd (omega arith));
  pages = λ i k hi hk. rw (zero_word 0x1000 i) (λ e. absurd (omega arith));
  in_use = λ i h. rw (zero_word 0x1000 i) (λ e. absurd (omega arith));
  dir_in_use = refl;
  few = omega arith;
}

map_page-Mapped_example : Mapped start 0x200000 0xC0000123 (map_page start 0x200000 0xC0000123)
map_page-Mapped_example =
    map_page-Mapped start 0x200000 0xC0000123 (omega arith) refl (omega arith) start-IsMapped

map_pages-MappedRange_example :
    MappedRange start 20 0x100000 0xC0000000 (map_pages 20 start 0x100000 0xC0000000)
map_pages-MappedRange_example =
    map_pages-MappedRange 20 start 0x100000 0xC0000000 refl (omega arith) (omega arith)
      start-IsMapped

-- A whole number of pages takes a page too many, and 5 MiB take one table, which maps 4 MiB.
sizes : (size_to_pages 0x3000 ≡ 4) × (size_to_tables 0x500000 ≡ 1)
unfolding size_to_pages size_to_tables
sizes = (refl, refl)
