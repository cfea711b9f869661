-- ===== src/Memory.antt =====
-- The memory that pointers name: a byte for each address. A cell may hold any number and is read
-- modulo 256. A pointer is an address, a natural number: objects end below 2^32, so pointer
-- arithmetic does not wrap. Words are little-endian, as on the i386.
pub mod Block
pub mod Word
use owmice.Base.{
  ℕ, zero, suc, ◌+◌, ◌*◌, ◌/◌, ◌%◌, ◌^◌, ◌<◌, ◌≡◌, List, [], ◌∷◌, arith, ◌==◌, if◌then◌else◌,
}

abbrev pub Memory : Type 0
Memory = ℕ → ℕ

unfoldable pub load8 : Memory → ℕ → ℕ
load8 m a = m a % 2 ^ 8

unfoldable pub store8 : Memory → ℕ → ℕ → Memory
store8 m a v b = if a == b then v % 2 ^ 8 else m b

pub load8-lt : (m : Memory) (a : ℕ) → load8 m a < 2 ^ 8
unfolding load8
load8-lt m a = omega arith

pub load8-store8 :
    (m : Memory) (a v b : ℕ) → load8 (store8 m a v) b ≡ (if a == b then v % 2 ^ 8 else load8 m b)
unfolding load8 store8
load8-store8 m a v b = ground arith

unfoldable pub load32 : Memory → ℕ → ℕ
load32 m a =
    load8 m a + load8 m (a + 1) * 2 ^ 8 + load8 m (a + 2) * 2 ^ 16 + load8 m (a + 3) * 2 ^ 24

unfoldable pub store32 : Memory → ℕ → ℕ → Memory
store32 m a v =
    store8 (store8 (store8 (store8 m a v) (a + 1) (v / 2 ^ 8)) (a + 2) (v / 2 ^ 16)) (a + 3)
      (v / 2 ^ 24)

-- A memory that holds the bytes `s` from `p` on and 0 elsewhere, for examples.
abbrev pub written : ℕ → List ℕ → Memory
written p [] a = 0
written p (c ∷ s) a = if p == a then c else written (p + 1) s a
