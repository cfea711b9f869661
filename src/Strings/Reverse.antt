-- ===== src/Strings/Reverse.antt =====
-- `reverse` of standard/strings.h turns a range of bytes round in place.
use owmice.Base.{
  ℕ, zero, suc, ◌+◌, ◌-◌, ◌<◌, ◌≡◌, ◌&&◌, some, arith, ◌==◌, ltb, leb, ltb→lt, ltb→le, Bool-cases,
  inl, inr, if◌then◌else◌,
}
use owmice.Memory.{Memory, load8, store8, load8-store8, load8-lt}
use owmice.Strings.{swap, reverse}

load8-swap :
    (m : Memory) (x y a : ℕ)
    → load8 (swap m x y) a ≡ (if y == a then load8 m x else if x == a then load8 m y else load8 m a)
unfolding swap
load8-swap m x y a = ground (
  arith,
  load8-store8 (store8 m x (load8 m y)) y (load8 m x) a,
  load8-store8 m x (load8 m y) a,
  load8-lt m x,
  load8-lt m y,
)

-- `reverse` with more fuel than `j` mirrors the bytes from index `i` to index `j` and
-- changes no other byte; where `j` does not exceed `i` it changes nothing.
pub load8-reverse :
    (fuel : ℕ) (m : Memory) (buffer i j : ℕ)
    → j < fuel
    → (m' : Memory) × (reverse fuel m buffer i j ≡ some m')
      × ((k : ℕ)
          → load8 m' (buffer + k)
            ≡ (if leb i k && leb k j then load8 m (buffer + (i + j - k)) else load8 m (buffer + k)))
unfolding reverse
load8-reverse zero m buffer i j h = absurd (omega arith)
load8-reverse (suc fuel) m buffer i j h = elim (Bool-cases (ltb i j)) [
  | inl e ↦
      let below = ltb→lt i j e in
      let m₁ = swap m (buffer + i) (buffer + j) in
      let (m', run, at) = load8-reverse fuel m₁ buffer (i + 1) (j - 1) (omega arith) in
      (
        m',
        ground arith,
        λ k. ground (
          arith,
          at k,
          load8-swap m (buffer + i) (buffer + j) (buffer + k),
          load8-swap m (buffer + i) (buffer + j) (buffer + (i + 1 + (j - 1) - k)),
        ),
      )
  | inr e ↦
      let above = ltb→le i j e in
      (
        m,
        ground arith,
        λ k. elim (Bool-cases (leb i k && leb k j)) [
          | inl at ↦ let mirror : i + j - k ≡ k = ground arith in rw (mirror, at)
          | inr off ↦ rw off
        ],
      )
]
