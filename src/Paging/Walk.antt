-- ===== src/Paging/Walk.antt =====
-- What the processor makes of a directory: the walk from a virtual address through the directory
-- and a table to the physical address, and when a directory is in order.
use owmice.Base.{
  ℕ, ◌+◌, ◌*◌, ◌/◌, ◌%◌, ◌^◌, ◌<◌, ◌≤◌, ◌≡◌, ◌≢◌, inl, inr, arith, true, Option, none, some, ◌==◌,
  ◌&&◌, if◌then◌else◌, Bool-cases, ==→eq, ==→ne,
}
use owmice.Memory.{Memory, load32, store32}
use owmice.Memory.Word.{load32-store32_self, load32-store32_ne}
use owmice.Frames.{bit_test}
use owmice.Bytes.{memset}
use owmice.Bytes.Copy.{load8-memset}
use owmice.Paging.{Paging}

-- Word `k` of the table or directory at `t`.
unfoldable pub word : Memory → ℕ → ℕ → ℕ
word m t k = load32 m (t + 4 * k)

-- The frame that an entry names.
abbrev pub frame_of : ℕ → ℕ
frame_of e = e / 4096 * 4096

abbrev pub dir_index : ℕ → ℕ
dir_index virt = virt / 2 ^ 22 % 1024

abbrev pub table_index : ℕ → ℕ
table_index virt = virt / 2 ^ 12 % 1024

abbrev through : ℕ → ℕ → Option ℕ
through p virt = if p % 2 == 1 then some (frame_of p + virt % 4096) else none

abbrev pub translate : Memory → ℕ → ℕ → Option ℕ
translate m dir virt =
    let e = word m dir (dir_index virt) in
    if e % 2 == 1 then through (word m (frame_of e) (table_index virt)) virt else none

-- Words of page-aligned tables.
pub word-store32 :
    (m : Memory) (t k v t' k' : ℕ)
    → t % 4096 ≡ 0
    → t' % 4096 ≡ 0
    → k < 1024
    → k' < 1024
    → v < 2 ^ 32
    → word (store32 m (t + 4 * k) v) t' k' ≡ (if t == t' && k == k' then v else word m t' k')
unfolding word
word-store32 m t k v t' k' ht ht' hk hk' hv = elim (Bool-cases (t == t')) [
  | inr other ↦
      let apart = ==→ne _ _ other in
      rw other (load32-store32_ne m (t + 4 * k) v (t' + 4 * k') (omega arith))
  | inl same ↦ elim (Bool-cases (k == k')) [
    | inr other ↦
        let apart = ==→ne _ _ other in
        let table = ==→eq _ _ same in
        rw (same, other) (load32-store32_ne m (t + 4 * k) v (t' + 4 * k') (omega arith))
    | inl here ↦
        let table = ==→eq _ _ same in
        let index = ==→eq _ _ here in
        let slot : t' + 4 * k' ≡ t + 4 * k = omega arith in
        rw (same, here, slot) (load32-store32_self m (t + 4 * k) v hv)
  ]
]

pub word-memset :
    (m : Memory) (t t' k' : ℕ)
    → t % 4096 ≡ 0
    → t' % 4096 ≡ 0
    → k' < 1024
    → word (memset m t 0 4096) t' k' ≡ (if t == t' then 0 else word m t' k')
unfolding word load32
word-memset m t t' k' ht ht' hk' = elim (Bool-cases (t == t')) [
  | inl same ↦
      let table = ==→eq _ _ same in
      rw same (
        ground (
          arith,
          load8-memset m t 0 4096 (t' + 4 * k'),
          load8-memset m t 0 4096 (t' + 4 * k' + 1),
          load8-memset m t 0 4096 (t' + 4 * k' + 2),
          load8-memset m t 0 4096 (t' + 4 * k' + 3),
        ))
  | inr other ↦
      let apart = ==→ne _ _ other in
      rw other (
        ground (
          arith,
          load8-memset m t 0 4096 (t' + 4 * k'),
          load8-memset m t 0 4096 (t' + 4 * k' + 1),
          load8-memset m t 0 4096 (t' + 4 * k' + 2),
          load8-memset m t 0 4096 (t' + 4 * k' + 3),
        ))
]

-- The directory in order: its tables are frames below 2^31, each marked used, each of its own and
-- none the directory's; an entry without the present bit is 0; and no entry has its top bit set.
pub record IsMapped (s : Paging) : Type 0 where
  pub aligned : s.dir_current % 4096 ≡ 0
  pub low : (i : ℕ) → i < 1024 → word s.memory s.dir_current i < 2 ^ 31
  pub empty :
      (i : ℕ) → i < 1024 → word s.memory s.dir_current i % 2 ≡ 0 → word s.memory s.dir_current i ≡ 0
  pub apart :
      (i : ℕ)
      → i < 1024
      → word s.memory s.dir_current i % 2 ≡ 1
      → frame_of (word s.memory s.dir_current i) ≢ s.dir_current
  pub distinct :
      (i j : ℕ)
      → i < 1024
      → j < 1024
      → word s.memory s.dir_current i % 2 ≡ 1
      → word s.memory s.dir_current j % 2 ≡ 1
      → frame_of (word s.memory s.dir_current i) ≡ frame_of (word s.memory s.dir_current j)
      → i ≡ j
  pub pages :
      (i k : ℕ)
      → i < 1024
      → k < 1024
      → word s.memory s.dir_current i % 2 ≡ 1
      → word s.memory (frame_of (word s.memory s.dir_current i)) k < 2 ^ 31
  pub in_use :
      (i : ℕ)
      → i < 1024
      → word s.memory s.dir_current i % 2 ≡ 1
      → bit_test s.frames.memory_map (word s.memory s.dir_current i / 4096) ≡ true
  pub dir_in_use : bit_test s.frames.memory_map (s.dir_current / 4096) ≡ true
  pub few : s.frames.blocks_max ≤ 2 ^ 19

-- Two addresses share a page exactly when they share both indices.
pub same_page :
    (a b : ℕ)
    → a < 2 ^ 32
    → b < 2 ^ 32
    → (a / 4096 == b / 4096) ≡ (dir_index a == dir_index b && table_index a == table_index b)
same_page a b ha hb = ground arith
