-- ===== src/Bytes/Copy.antt =====
-- What the copies and the fill of standard/stdio.h leave in memory.
use owmice.Base.{
  ℕ, zero, suc, ◌+◌, ◌-◌, ◌%◌, ◌^◌, ◌≤◌, ◌≡◌, ◌<◌, ◌⊎◌, refl, ◌∙◌, false, ◌==◌, inl, inr, ◌&&◌,
  arith, ltb, leb, ltb→lt, ltb→le, Bool-cases, Bool, if◌then◌else◌,
}
use owmice.Memory.{Memory, load8, store8, load8-store8, load8-lt}
use owmice.Bytes.{copy_forward, copy_backward, memmove, memcpy, fill, memset}

-- `a` is one of the `size` bytes from `p` on.
abbrev pub within : ℕ → ℕ → ℕ → Bool
within p size a = leb p a && ltb a (p + size)

forward_load :
    (left i : ℕ) (m : Memory) (dst src a : ℕ)
    → (dst ≤ src) ⊎ (src + i + left ≤ dst)
    → load8 (copy_forward left i m dst src) a
      ≡ (if within (dst + i) left a then load8 m (src + (a - dst)) else load8 m a)
unfolding copy_forward
forward_load zero i m dst src a h = ground arith
forward_load (suc left) i m dst src a h =
    let m' = store8 m (dst + i) (load8 m (src + i)) in
    ground (
      arith,
      forward_load left (i + 1) m' dst src a (omega arith),
      load8-store8 m (dst + i) (load8 m (src + i)) a,
      load8-store8 m (dst + i) (load8 m (src + i)) (src + (a - dst)),
      load8-lt m (src + i),
    )

backward_load :
    (left : ℕ) (m : Memory) (dst src a : ℕ)
    → src ≤ dst
    → load8 (copy_backward left m dst src) a
      ≡ (if within dst left a then load8 m (src + (a - dst)) else load8 m a)
unfolding copy_backward
backward_load zero m dst src a h = ground arith
backward_load (suc left) m dst src a h =
    let m' = store8 m (dst + left) (load8 m (src + left)) in
    ground (
      arith,
      backward_load left m' dst src a h,
      load8-store8 m (dst + left) (load8 m (src + left)) a,
      load8-store8 m (dst + left) (load8 m (src + left)) (src + (a - dst)),
      load8-lt m (src + left),
    )

-- `memmove` puts at each byte of the target the byte that the source held before the call, also
-- where the two ranges overlap, and changes no byte outside the target.
pub load8-memmove :
    (m : Memory) (dst src size a : ℕ)
    → load8 (memmove m dst src size) a
      ≡ (if within dst size a then load8 m (src + (a - dst)) else load8 m a)
unfolding memmove
load8-memmove m dst src size a = elim (Bool-cases (ltb dst src)) [
  | inl e ↦
      let lt = ltb→lt dst src e in
      rw e (ground (arith, forward_load size 0 m dst src a (omega arith)))
  | inr e ↦ rw e (backward_load size m dst src a (ltb→le dst src e))
]

-- `memcpy` does the same when the source does not begin before a target that it overlaps.
pub load8-memcpy :
    (m : Memory) (dst src size a : ℕ)
    → (dst ≤ src) ⊎ (src + size ≤ dst)
    → load8 (memcpy m dst src size) a
      ≡ (if within dst size a then load8 m (src + (a - dst)) else load8 m a)
unfolding memcpy
load8-memcpy m dst src size a h = ground (arith, forward_load size 0 m dst src a (omega arith))

forward_outside :
    (left i : ℕ) (m : Memory) (dst src a : ℕ)
    → (a < dst + i) ⊎ (dst + i + left ≤ a)
    → load8 (copy_forward left i m dst src) a ≡ load8 m a
unfolding copy_forward
forward_outside zero i m dst src a out = refl
forward_outside (suc left) i m dst src a out =
    let v = load8 m (src + i) in
    let other : (dst + i == a) ≡ false = ground arith in
    forward_outside left (i + 1) (store8 m (dst + i) v) dst src a (ground arith)
    ∙ load8-store8 m (dst + i) v a
    ∙ rw other refl

-- Wherever the source is, `memcpy` writes nothing outside the target.
pub load8-memcpy_outside :
    (m : Memory) (dst src size a : ℕ)
    → (a < dst) ⊎ (dst + size ≤ a)
    → load8 (memcpy m dst src size) a ≡ load8 m a
unfolding memcpy
load8-memcpy_outside m dst src size a out = forward_outside size 0 m dst src a (ground arith)

fill_load :
    (left i : ℕ) (m : Memory) (buf value a : ℕ)
    → load8 (fill left i m buf value) a
      ≡ (if within (buf + i) left a then value % 2 ^ 8 else load8 m a)
unfolding fill
fill_load zero i m buf value a = ground arith
fill_load (suc left) i m buf value a = ground (
  arith,
  fill_load left (i + 1) (store8 m (buf + i) value) buf value a,
  load8-store8 m (buf + i) value a,
)

-- `memset` writes the low byte of the value into each byte of the range, and into no other.
pub load8-memset :
    (m : Memory) (buf value size a : ℕ)
    → load8 (memset m buf value size) a ≡ (if within buf size a then value % 2 ^ 8 else load8 m a)
unfolding memset
load8-memset m buf value size a = ground (arith, fill_load size 0 m buf value a)
