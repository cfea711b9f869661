-- ===== src/Memory/Word.antt =====
-- Reading back 32-bit words.
use owmice.Base.{ℕ, ◌+◌, ◌/◌, ◌%◌, ◌^◌, ◌<◌, ◌≤◌, ◌≡◌, ◌⊎◌, arith, ◌==◌, if◌then◌else◌}
use owmice.Memory.{Memory, load8, load8-lt, load8-store8, load32, store32}

pub load32-lt : (m : Memory) (a : ℕ) → load32 m a < 2 ^ 32
unfolding load32
load32-lt m a =
    omega (arith, load8-lt m a, load8-lt m (a + 1), load8-lt m (a + 2), load8-lt m (a + 3))

pub load8-store32 :
    (m : Memory) (a v b : ℕ)
    → load8 (store32 m a v) b ≡ (
        if a + 3 == b
        then v / 2 ^ 24 % 2 ^ 8
        else if a + 2 == b
        then v / 2 ^ 16 % 2 ^ 8
        else if a + 1 == b
        then v / 2 ^ 8 % 2 ^ 8
        else if a == b
        then v % 2 ^ 8
        else load8 m b)
unfolding store32
load8-store32 m a v b = simp load8-store8

pub load32-store32_self : (m : Memory) (a v : ℕ) → v < 2 ^ 32 → load32 (store32 m a v) a ≡ v
unfolding load32
load32-store32_self m a v h = ground (
  arith,
  load8-store32 m a v a,
  load8-store32 m a v (a + 1),
  load8-store32 m a v (a + 2),
  load8-store32 m a v (a + 3),
)

-- A write elsewhere is not seen.
pub load8-store32_ne :
    (m : Memory) (a v b : ℕ) → (a + 4 ≤ b) ⊎ (b < a) → load8 (store32 m a v) b ≡ load8 m b
load8-store32_ne m a v b h = ground (arith, load8-store32 m a v b)

pub load32-store32_ne :
    (m : Memory) (a v b : ℕ) → (a + 4 ≤ b) ⊎ (b + 4 ≤ a) → load32 (store32 m a v) b ≡ load32 m b
unfolding load32
load32-store32_ne m a v b h = ground (
  arith,
  load8-store32_ne m a v b,
  load8-store32_ne m a v (b + 1),
  load8-store32_ne m a v (b + 2),
  load8-store32_ne m a v (b + 3),
)
