-- ===== src/Bytes/Tests.antt =====
-- The copies, the fill and the comparison at concrete memories.
use owmice.Base.{◌≡◌, inl, refl, arith, codes}
use owmice.Memory.{Memory, load8, store8, written}
use owmice.Bytes.{memmove, memcpy, memset, memcmp, copy_forward, copy_backward, compare_from}
use owmice.Bytes.Copy.{load8-memmove, load8-memcpy, load8-memset}

abbrev letters : Memory
letters = written 100 (codes "abcdef")

-- An overlapping move upwards: "abcdef" becomes "ababcd".
move_up : load8 (memmove letters 102 100 4) 105 ≡ b'd'
unfolding memmove copy_forward copy_backward load8 store8
move_up = refl

unequal : memcmp letters 100 101 3 ≡ 0xffffffff
unfolding memcmp compare_from load8
unequal = refl

load8-memmove_example : load8 (memmove letters 102 100 4) 104 ≡ b'c'
unfolding load8
load8-memmove_example = load8-memmove letters 102 100 4 104

copied_bytes : load8 (memcpy letters 100 103 3) 101 ≡ b'e'
unfolding load8
copied_bytes = load8-memcpy letters 100 103 3 101 (inl (omega arith))

filled_bytes : load8 (memset letters 100 0x10f 2) 101 ≡ 0x0f
filled_bytes = load8-memset letters 100 0x10f 2 101
