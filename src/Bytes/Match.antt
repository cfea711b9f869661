-- ===== src/Bytes/Match.antt =====
-- What `memcmp` of standard/stdio.h answers.
use owmice.Base.{
  ℕ, zero, suc, ◌+◌, ◌-◌, ◌^◌, ◌<◌, ◌≤◌, ◌≡◌, ◌⊎◌, inl, inr, arith, refl, ◌==◌, ==→eq, Bool-cases,
  ltb, ltb→lt,
}
use owmice.Memory.{Memory, load8}
use owmice.Bytes.{compare_from, memcmp}

-- The bytes agree on `[i, k)`.
abbrev pub Agree : Memory → ℕ → ℕ → ℕ → ℕ → Type 0
Agree m a b i k = (j : ℕ) → i ≤ j → j < k → load8 m (a + j) ≡ load8 m (b + j)

-- What the comparison of the bytes `[i, size)` may answer: 0 if all agree; else, at the first byte
-- that differs, 1 or -1 as the byte of `a` is the greater or the smaller one.
abbrev pub Verdict : Memory → ℕ → ℕ → ℕ → ℕ → ℕ → Type 0
Verdict m a b i size r =
    ((r ≡ 0) × Agree m a b i size)
    ⊎ ((r ≡ 1)
        × ((k : ℕ) × (i ≤ k) × (k < size) × Agree m a b i k × (load8 m (b + k) < load8 m (a + k))))
    ⊎ ((r ≡ 2 ^ 32 - 1)
        × ((k : ℕ) × (i ≤ k) × (k < size) × Agree m a b i k × (load8 m (a + k) < load8 m (b + k))))

module _ (m : Memory) (a b : ℕ) where
  Agree-cons :
      (i k : ℕ) → load8 m (a + i) ≡ load8 m (b + i) → Agree m a b (i + 1) k → Agree m a b i k
  Agree-cons i k e rest = λ j p q. elim (Bool-cases (j == i)) [
    | inl here ↦ let at : j ≡ i = ==→eq j i here in rw at e
    | inr past ↦ rest j (ground arith) q
  ]

  Verdict-cons :
      (i size r : ℕ)
      → load8 m (a + i) ≡ load8 m (b + i)
      → Verdict m a b (i + 1) size r
      → Verdict m a b i size r
  Verdict-cons i size r e (inl (z, all)) = inl (z, Agree-cons i size e all)
  Verdict-cons i size r e (inr (inl (z, (k, p, q, all, d)))) =
      inr (inl (z, (k, omega arith, q, Agree-cons i k e all, d)))
  Verdict-cons i size r e (inr (inr (z, (k, p, q, all, d)))) =
      inr (inr (z, (k, omega arith, q, Agree-cons i k e all, d)))

  compare_from-Verdict :
      (left i size : ℕ) → i + left ≡ size → Verdict m a b i size (compare_from left i m a b)
  unfolding compare_from
  compare_from-Verdict zero i size e = inl (refl, λ j p q. absurd (omega arith))
  compare_from-Verdict (suc left) i size e =
      elim (Bool-cases (ltb (load8 m (a + i)) (load8 m (b + i)))) [
        | inl less ↦ rw less (
            inr (
              inr (
                refl,
                (i, omega arith, omega arith, λ j p q. absurd (omega arith), ltb→lt _ _ less),
              )))
        | inr more ↦ rw more (elim (Bool-cases (ltb (load8 m (b + i)) (load8 m (a + i)))) [
          | inl less ↦ rw less (
              inr (
                inl (
                  refl,
                  (i, omega arith, omega arith, λ j p q. absurd (omega arith), ltb→lt _ _ less),
                )))
          | inr more' ↦ rw more' (
              Verdict-cons i size (compare_from left (i + 1) m a b) (ground arith)
                (compare_from-Verdict left (i + 1) size (omega arith)))
        ])
      ]

-- `memcmp` answers 0 exactly when the ranges agree, and otherwise 1 or -1 by the order of the first
-- bytes that differ.
pub memcmp-Verdict : (m : Memory) (a b size : ℕ) → Verdict m a b 0 size (memcmp m a b size)
unfolding memcmp
memcmp-Verdict m a b size = compare_from-Verdict m a b size 0 size (omega arith)
