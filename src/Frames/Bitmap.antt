-- ===== src/Frames/Bitmap.antt =====
-- standard/bitmap.h: the bitmap is a set of frames.
use native.Mathlib.Nat.{one-le-pow}
use owmice.Base.{ℕ, ◌-◌, ◌/◌, ◌%◌, ◌^◌, ◌<◌, true, false, ◌≡◌, arith, ◌==◌, if◌then◌else◌}
use owmice.Bits.{
  digit, digit-le, digit-bit_or, digit-bit_and, digit-pow, digit_not, bit_and_pow, bit_or-lt,
  bit_and-le, pow-lt_word,
}
use owmice.Frames.{WordMap, bit_set, bit_unset, bit_test}

-- A bit of the map is read as a digit of its word.
pub bit_test-digit : (map : WordMap) (b : ℕ) → bit_test map b ≡ (digit (map (b / 32)) (b % 32) == 1)
unfolding bit_test
bit_test-digit map b = ground (
  arith,
  bit_and_pow (map (b / 32)) (b % 32),
  digit-le (map (b / 32)) (b % 32),
  one-le-pow (b % 32) 2,
)

-- Setting a bit sets that bit and leaves every other one alone.
pub bit_test-bit_set :
    (map : WordMap) (b c : ℕ)
    → bit_test (bit_set map b) c ≡ (if b == c then true else bit_test map c)
unfolding bit_set
bit_test-bit_set map b c = ground (
  arith,
  bit_test-digit (bit_set map b) c,
  bit_test-digit map c,
  digit-bit_or (map (b / 32)) (2 ^ (b % 32)) (c % 32),
  digit-pow (b % 32) (c % 32),
  digit-le (map (c / 32)) (c % 32),
)

-- Clearing a bit clears that bit and leaves every other one alone.
pub bit_test-bit_unset :
    (map : WordMap) (b c : ℕ)
    → bit_test (bit_unset map b) c ≡ (if b == c then false else bit_test map c)
unfolding bit_unset
bit_test-bit_unset map b c = ground (
  arith,
  bit_test-digit (bit_unset map b) c,
  bit_test-digit map c,
  digit-bit_and (map (b / 32)) (2 ^ 32 - 1 - 2 ^ (b % 32)) (c % 32),
  digit_not 32 (2 ^ (b % 32)) (c % 32) (pow-lt_word (b % 32) (omega arith)) (omega arith),
  digit-pow (b % 32) (c % 32),
  digit-le (map (c / 32)) (c % 32),
)

-- The words of a map fit 32 bits.
abbrev pub IsWords : WordMap → Type 0
IsWords map = (i : ℕ) → map i < 2 ^ 32

pub bit_set-IsWords : (map : WordMap) (b : ℕ) → IsWords map → IsWords (bit_set map b)
unfolding bit_set
bit_set-IsWords map b h i = ground (
  arith,
  h i,
  bit_or-lt 32 (map (b / 32)) (2 ^ (b % 32)) (h (b / 32)) (pow-lt_word (b % 32) (omega arith)),
)

pub bit_unset-IsWords : (map : WordMap) (b : ℕ) → IsWords map → IsWords (bit_unset map b)
unfolding bit_unset
bit_unset-IsWords map b h i =
    ground (arith, h i, h (b / 32), bit_and-le (map (b / 32)) (2 ^ 32 - 1 - 2 ^ (b % 32)))
