-- ===== src/Frames/Search.antt =====
-- `find_free_block` of mem/mem.h returns the lowest free frame.
use owmice.Base.{
  ℕ, zero, suc, ◌+◌, ◌-◌, ◌*◌, ◌/◌, ◌%◌, ◌^◌, ◌<◌, ◌≤◌, bit_and, Bool, true, false, Option, none,
  some, ◌≡◌, inl, inr, refl, arith, ◌==◌, Bool-cases, Option-cases, ==→eq, ltb, ltb→lt, ltb→le,
}
use native.Mathlib.Nat.{one-le-pow}
use owmice.Bits.{digit, digit-le, digit_not, zero-digit, bit_and_pow}
use owmice.Frames.{WordMap, Frames, bit_test, find_bit, find_word, find_free_block}
use owmice.Frames.Bitmap.{bit_test-digit}

-- What a search of `[lo, hi)` for the first place where `used` fails may answer.
abbrev pub IsFirst : (ℕ → Bool) → ℕ → ℕ → Option ℕ → Type 0
IsFirst used lo hi none = (c : ℕ) → lo ≤ c → c < hi → used c ≡ true
IsFirst used lo hi (some r) =
    (lo ≤ r) × (r < hi) × (used r ≡ false) × ((c : ℕ) → lo ≤ c → c < r → used c ≡ true)

abbrev pub word_bit : ℕ → ℕ → Bool
word_bit w k = digit w k == 1

clear_bit : (w j : ℕ) → (bit_and w (2 ^ j) == 0) ≡ true → word_bit w j ≡ false
clear_bit w j h = ground (arith, bit_and_pow w j, digit-le w j, one-le-pow j 2)

taken_bit : (w j : ℕ) → (bit_and w (2 ^ j) == 0) ≡ false → word_bit w j ≡ true
taken_bit w j h = ground (arith, bit_and_pow w j, digit-le w j, one-le-pow j 2)

-- Places that are used, and the answer for the places after them.
IsFirst-append :
    (used : ℕ → Bool) (lo mid hi : ℕ) (o : Option ℕ)
    → lo ≤ mid
    → mid ≤ hi
    → ((c : ℕ) → lo ≤ c → c < mid → used c ≡ true)
    → IsFirst used mid hi o
    → IsFirst used lo hi o
IsFirst-append used lo mid hi none h h' front rest = λ c p q. elim (Bool-cases (ltb c mid)) [
  | inl e ↦ front c p (ltb→lt c mid e)
  | inr e ↦ rest c (ltb→le c mid e) q
]
IsFirst-append used lo mid hi (some r) h h' front rest = (
  omega arith,
  rest.1,
  rest.2,
  λ c p q. elim (Bool-cases (ltb c mid)) [
    | inl e ↦ front c p (ltb→lt c mid e)
    | inr e ↦ rest.3 c (ltb→le c mid e) q
  ],
)

find_bit-IsFirst : (left j w hi : ℕ) → j + left ≡ hi → IsFirst (word_bit w) j hi (find_bit left j w)
unfolding find_bit
find_bit-IsFirst zero j w hi e = λ c p q. absurd (omega arith)
find_bit-IsFirst (suc left) j w hi e = elim (Bool-cases (bit_and w (2 ^ j) == 0)) [
  | inl free ↦ rw free (omega arith, omega arith, clear_bit w j free, λ c p q. absurd (omega arith))
  | inr used ↦ rw used (
      IsFirst-append (word_bit w) j (j + 1) hi (find_bit left (j + 1) w) (omega arith) (omega arith)
        (λ c p q. let at : c ≡ j = omega arith in rw at (taken_bit w j used))
        (find_bit-IsFirst left (j + 1) w hi (omega arith)))
]

full_word : (k : ℕ) → k < 32 → word_bit 0xffffffff k ≡ true
full_word k h = ground (arith, digit_not 32 0 k (omega arith) h, zero-digit k)

module _ (map : WordMap) where
  in_word : (i k : ℕ) → k < 32 → bit_test map (i * 32 + k) ≡ word_bit (map i) k
  in_word i k h =
      let e : (i * 32 + k) / 32 ≡ i = omega arith in
      let e' : (i * 32 + k) % 32 ≡ k = omega arith in rw (bit_test-digit, e, e')

  -- The frames of one word of which every bit is set.
  full_frames :
      (i : ℕ)
      → ((k : ℕ) → k < 32 → word_bit (map i) k ≡ true)
      → (c : ℕ) → i * 32 ≤ c
      → c < (i + 1) * 32
      → bit_test map c ≡ true
  full_frames i full c p q =
      let e : c ≡ i * 32 + (c - i * 32) = omega arith in
      rw (e, in_word i (c - i * 32) (omega arith)) (full (c - i * 32) (omega arith))

  IsFirst-some :
      (i j hi : ℕ)
      → (i + 1) * 32 ≤ hi
      → IsFirst (word_bit (map i)) 0 32 (some j)
      → IsFirst (bit_test map) (i * 32) hi (some (i * 4 * 8 + j))
  IsFirst-some i j hi h f =
      let e : i * 4 * 8 + j ≡ i * 32 + j = omega arith in
      rw e (
        omega arith,
        omega (arith, f.1),
        rw (in_word i j f.1) f.2,
        λ c p q.
            let e' : c ≡ i * 32 + (c - i * 32) = omega arith in
            rw (e', in_word i (c - i * 32) (omega (arith, f.1)))
              (f.3 (c - i * 32) (omega arith) (omega arith)),
      )

  find_word-IsFirst :
      (left i hi : ℕ)
      → (i + left) * 32 ≡ hi
      → IsFirst (bit_test map) (i * 32) hi (find_word left i map)
  unfolding find_word
  find_word-IsFirst zero i hi e = λ c p q. absurd (omega arith)
  find_word-IsFirst (suc left) i hi e =
      let rest = find_word-IsFirst left (i + 1) hi (omega arith) in
      let append = λ (full : (k : ℕ) → k < 32 → word_bit (map i) k ≡ true).
        IsFirst-append (bit_test map) (i * 32) ((i + 1) * 32) hi (find_word left (i + 1) map)
          (omega arith) (omega arith) (full_frames i full) rest in
      let room : (i + 1) * 32 ≤ hi = omega arith in
      let search = find_bit-IsFirst 32 0 (map i) 32 refl in
      let none_full = λ (e : find_bit 32 0 (map i) ≡ none).
        (λ (k : ℕ) (h : k < 32). (rw e at search) k (omega arith) h) in
      elim (Bool-cases (map i == 0xffffffff)) [
        | inl full ↦
            rw full
              (append (λ k h. let m : map i ≡ 0xffffffff = ==→eq _ _ full in rw m (full_word k h)))
        | inr other ↦ rw other (elim (Option-cases (find_bit 32 0 (map i))) [
          | inl e ↦ let full = none_full e in rw e (append full)
          | inr (j, e) ↦ rw e (IsFirst-some i j hi room (rw e at search))
        ])
      ]

-- `find_free_block` searches the frames below `blocks_max` rounded down to a multiple of 32: it
-- answers the lowest frame whose bit is clear, every lower frame being used, and -1 only if every
-- one of those frames is used.
pub find_free_block-IsFirst :
    (f : Frames) → IsFirst (bit_test f.memory_map) 0 (f.blocks_max / 32 * 32) (find_free_block f)
unfolding find_free_block
find_free_block-IsFirst f = find_word-IsFirst f.memory_map (f.blocks_max / 32) 0 _ (omega arith)
