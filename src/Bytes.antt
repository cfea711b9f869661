-- ===== src/Bytes.antt =====
-- `memmove`, `memcmp`, `memset` and `memcpy` of standard/stdio.h. Each returns its first pointer,
-- which is left out here: the new memory is the result.
pub mod Copy
pub mod Match
mod Tests
use owmice.Base.{ℕ, zero, suc, ◌+◌, ◌-◌, ◌^◌, ltb, if◌then◌else◌}
use owmice.Memory.{Memory, load8, store8}

-- `for (i…; i < size; i++) dst[i] = src[i];` with `left` rounds to go.
copy_forward : ℕ → ℕ → Memory → ℕ → ℕ → Memory
copy_forward zero i m dst src = m
copy_forward (suc left) i m dst src =
    copy_forward left (i + 1) (store8 m (dst + i) (load8 m (src + i))) dst src

-- `for (i = size; i != 0; i--) dst[i-1] = src[i-1];`
copy_backward : ℕ → Memory → ℕ → ℕ → Memory
copy_backward zero m dst src = m
copy_backward (suc i) m dst src = copy_backward i (store8 m (dst + i) (load8 m (src + i))) dst src

unfoldable pub memmove : Memory → ℕ → ℕ → ℕ → Memory
unfolding copy_forward copy_backward
memmove m dst src size =
    if ltb dst src then copy_forward size 0 m dst src else copy_backward size m dst src

unfoldable pub memcpy : Memory → ℕ → ℕ → ℕ → Memory
unfolding copy_forward
memcpy m dst src size = copy_forward size 0 m dst src

-- `left` rounds of the loop of `memset`, at the address `buf + i`.
fill : ℕ → ℕ → Memory → ℕ → ℕ → Memory
fill zero i m buf value = m
fill (suc left) i m buf value = fill left (i + 1) (store8 m (buf + i) value) buf value

unfoldable pub memset : Memory → ℕ → ℕ → ℕ → Memory
unfolding fill
memset m buf value size = fill size 0 m buf value

-- The result is an `int`: 1, 0, or the pattern of -1.
compare_from : ℕ → ℕ → Memory → ℕ → ℕ → ℕ
compare_from zero i m a b = 0
compare_from (suc left) i m a b =
    let rest = compare_from left (i + 1) m a b in
    if ltb (load8 m (a + i)) (load8 m (b + i))
    then 2 ^ 32 - 1
    else if ltb (load8 m (b + i)) (load8 m (a + i))
    then 1
    else rest

unfoldable pub memcmp : Memory → ℕ → ℕ → ℕ → ℕ
unfolding compare_from
memcmp m a b size = compare_from size 0 m a b
