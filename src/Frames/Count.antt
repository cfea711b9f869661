-- ===== src/Frames/Count.antt =====
-- `blocks_used` of mem/mem.h against the number of set bits of the bitmap.
use owmice.Base.{
  ℕ, zero, suc, ◌+◌, ◌/◌, ◌^◌, ◌<◌, ◌≤◌, Bool, true, false, ◌≡◌, sym, inl, inr, refl, arith, ◌==◌,
  if◌then◌else◌, Bool-cases, done,
}
use owmice.Frames.{
  Frames, block_size, bit_set, bit_unset, bit_test, alloc_block, free_block, release, reserve,
}
use owmice.Frames.Bitmap.{bit_test-bit_set, bit_test-bit_unset}
use owmice.Frames.Single.{alloc_block-Allocated}

-- The number of used frames below `n`.
unfoldable pub count_used : (ℕ → Bool) → ℕ → ℕ
count_used used zero = 0
count_used used (suc n) = count_used used n + (if used n then 1 else 0)

pub count_used-le : (used : ℕ → Bool) (n : ℕ) → count_used used n ≤ n
unfolding count_used
count_used-le used zero = omega arith
count_used-le used (suc n) = ground (arith, count_used-le used n)

pub count_used_same :
    (u v : ℕ → Bool) (n : ℕ) → ((c : ℕ) → c < n → u c ≡ v c) → count_used u n ≡ count_used v n
unfolding count_used
count_used_same u v zero h = refl
count_used_same u v (suc n) h =
    ground (arith, h n, count_used_same u v n (λ c p. h c (omega arith)))

-- One more used frame adds one.
count_used_more :
    (u v : ℕ → Bool) (n r : ℕ)
    → r < n
    → u r ≡ false
    → ((c : ℕ) → v c ≡ (if r == c then true else u c))
    → count_used v n ≡ count_used u n + 1
unfolding count_used
count_used_more u v zero r h clear same = absurd (omega arith)
count_used_more u v (suc n) r h clear same = elim (Bool-cases (r == n)) [
  | inl here ↦ ground (arith, same n, count_used_same v u n (λ c p. ground (arith, same c)))
  | inr there ↦ ground (arith, same n, count_used_more u v n r (ground arith) clear same)
]

-- The count of the allocator is the number of used frames below `blocks_max`.
pub record IsCounted (f : Frames) : Type 0 where
  pub counted : f.blocks_used ≡ count_used (bit_test f.memory_map) f.blocks_max
  pub fits : f.blocks_max ≤ 2 ^ 20

module _ {f : Frames} (c : IsCounted f) where
  pub alloc_block-IsCounted : (addr : ℕ) (g : Frames) → alloc_block f ≡ done (addr, g) → IsCounted g
  alloc_block-IsCounted addr g e =
      let a = alloc_block-Allocated f c.fits in
      let (room, aligned, below, clear, after, first, count, same) = rw e at a in
      record {
        counted =
            rw (same, count, c.counted)
              (sym (
                count_used_more (bit_test f.memory_map) (bit_test g.memory_map) f.blocks_max
                  (addr / block_size) (omega (arith, below)) clear after));
        fits = rw same c.fits;
      }

  -- The count stays right when a used frame is freed.
  pub free_block-IsCounted :
      (addr : ℕ)
      → addr / block_size < f.blocks_max
      → bit_test f.memory_map (addr / block_size) ≡ true
      → IsCounted (free_block f addr)
  unfolding free_block
  free_block-IsCounted addr below used =
      let more =
        count_used_more (bit_test (bit_unset f.memory_map (addr / block_size)))
          (bit_test f.memory_map) f.blocks_max (addr / block_size) below
          (ground (arith, bit_test-bit_unset f.memory_map (addr / block_size) (addr / block_size)))
          (λ b. ground (arith, bit_test-bit_unset f.memory_map (addr / block_size) b)) in
      record {
        counted =
            omega
              (arith, more, c.counted, c.fits, count_used-le (bit_test f.memory_map) f.blocks_max);
        fits = c.fits;
      }

  pub release-IsCounted : (at : ℕ) → at < f.blocks_max → IsCounted (release f at)
  unfolding release
  release-IsCounted at below = elim (Bool-cases (bit_test f.memory_map at)) [
    | inl used ↦
        let more =
          count_used_more (bit_test (bit_unset f.memory_map at)) (bit_test f.memory_map)
            f.blocks_max at below (ground (arith, bit_test-bit_unset f.memory_map at at))
            (λ b. ground (arith, bit_test-bit_unset f.memory_map at b)) in
        rw used (record {
          counted =
              omega (
                arith,
                more,
                c.counted,
                c.fits,
                count_used-le (bit_test f.memory_map) f.blocks_max,
              );
          fits = c.fits;
        })
    | inr clear ↦ rw clear c
  ]

  pub reserve-IsCounted : (at : ℕ) → at < f.blocks_max → IsCounted (reserve f at)
  unfolding reserve
  reserve-IsCounted at below = elim (Bool-cases (bit_test f.memory_map at)) [
    | inl used ↦ rw used c
    | inr clear ↦
        let more =
          count_used_more (bit_test f.memory_map) (bit_test (bit_set f.memory_map at)) f.blocks_max
            at below clear (λ b. bit_test-bit_set f.memory_map at b) in
        rw clear (record {
          counted =
              omega (
                arith,
                more,
                c.counted,
                c.fits,
                count_used-le (bit_test f.memory_map) f.blocks_max,
              );
          fits = c.fits;
        })
  ]
