-- ===== src/Bits/Digit.antt =====
-- Bit `k` of a word, and what `|`, `&`, `1 << j` and `~` do to it.
use native.Mathlib.Nat.{pow-suc, one-le-pow}
use owmice.Base.{
  ℕ, zero, suc, ◌-◌, ◌*◌, ◌/◌, ◌%◌, ◌^◌, ◌≤◌, ◌<◌, min, max, bit_and, bit_or, ◌≡◌, refl, ap, arith,
  ◌==◌, if◌then◌else◌,
}
use owmice.Bits.Step.{bit_or_halves, bit_and_halves, bit_and-nothing, bit_and-zero, halving}

unfoldable pub digit : ℕ → ℕ → ℕ
digit w zero = w % 2
digit w (suc k) = digit (w / 2) k

pub digit-le : (w k : ℕ) → digit w k ≤ 1
unfolding digit
digit-le w zero = omega arith
digit-le w (suc k) = digit-le (w / 2) k

pub zero-digit : (k : ℕ) → digit 0 k ≡ 0
unfolding digit
zero-digit zero = refl
zero-digit (suc k) = zero-digit k

pub digit-bit_or : (a b k : ℕ) → digit (bit_or a b) k ≡ max (digit a k) (digit b k)
unfolding digit
digit-bit_or a b zero = omega (arith, bit_or_halves a b)
digit-bit_or a b (suc k) =
    let half : bit_or a b / 2 ≡ bit_or (a / 2) (b / 2) = omega (arith, bit_or_halves a b) in
    rw half (digit-bit_or (a / 2) (b / 2) k)

pub digit-bit_and : (a b k : ℕ) → digit (bit_and a b) k ≡ min (digit a k) (digit b k)
unfolding digit
digit-bit_and a b zero = omega (arith, bit_and_halves a b)
digit-bit_and a b (suc k) =
    let half : bit_and a b / 2 ≡ bit_and (a / 2) (b / 2) = omega (arith, bit_and_halves a b) in
    rw half (digit-bit_and (a / 2) (b / 2) k)

-- `1 << j` has bit `j` and no other.
pub digit-pow : (j k : ℕ) → digit (2 ^ j) k ≡ (if j == k then 1 else 0)
unfolding digit
digit-pow zero zero = refl
digit-pow zero (suc k) = ground (arith, zero-digit k)
digit-pow (suc j) zero = ground (arith, pow-suc 2 j)
digit-pow (suc j) (suc k) =
    let half : 2 ^ suc j / 2 ≡ 2 ^ j = omega (arith, pow-suc 2 j) in
    rw half (ground (arith, digit-pow j k))

-- `~x` on `n` bits.
pub digit_not : (n x k : ℕ) → x < 2 ^ n → k < n → digit (2 ^ n - 1 - x) k ≡ 1 - digit x k
unfolding digit
digit_not zero x k hx hk = absurd (omega arith)
digit_not (suc n) x zero hx hk = omega (arith, pow-suc 2 n, one-le-pow n 2)
digit_not (suc n) x (suc k) hx hk =
    let half : (2 ^ suc n - 1 - x) / 2 ≡ 2 ^ n - 1 - x / 2 =
      omega (arith, pow-suc 2 n, one-le-pow n 2) in
    rw half (digit_not n (x / 2) k (omega (arith, pow-suc 2 n)) (omega arith))

-- A word of `n` bits has no bit beyond.
pub digit_beyond : (n x k : ℕ) → x < 2 ^ n → n ≤ k → digit x k ≡ 0
unfolding digit
digit_beyond zero x k hx hk = let e : x ≡ 0 = omega arith in rw e (zero-digit k)
digit_beyond (suc n) x zero hx hk = absurd (omega arith)
digit_beyond (suc n) x (suc k) hx hk =
    digit_beyond n (x / 2) k (omega (arith, pow-suc 2 n)) (omega arith)

-- A word is its bits.
pub digit_ext : (n a b : ℕ) → a < 2 ^ n → b < 2 ^ n → ((k : ℕ) → digit a k ≡ digit b k) → a ≡ b
digit_ext zero a b ha hb h = omega arith
digit_ext (suc n) a b ha hb h =
    let low : a % 2 ≡ b % 2 = unfold digit in h 0 in
    let high : a / 2 ≡ b / 2 =
      digit_ext n (a / 2) (b / 2) (omega (arith, pow-suc 2 n)) (omega (arith, pow-suc 2 n))
        (λ k. unfold digit in h (suc k)) in
    omega (arith, low, high)

pub bit_or-lt : (n a b : ℕ) → a < 2 ^ n → b < 2 ^ n → bit_or a b < 2 ^ n
bit_or-lt zero a b ha hb =
    let ea : a ≡ 0 = omega arith in let eb : b ≡ 0 = omega arith in rw (ea, eb) (omega arith)
bit_or-lt (suc n) a b ha hb = omega (
  arith,
  bit_or_halves a b,
  pow-suc 2 n,
  bit_or-lt n (a / 2) (b / 2) (omega (arith, pow-suc 2 n)) (omega (arith, pow-suc 2 n)),
)

pub bit_and-le : (a b : ℕ) → bit_and a b ≤ a
bit_and-le =
    halving (λ a. (b : ℕ) → bit_and a b ≤ a) (λ b. omega (arith, bit_and-nothing b))
      (λ a h ih b. omega (arith, bit_and_halves a b, ih (b / 2)))

-- `w & (1 << j)` is bit `j` in its place.
pub bit_and_pow : (w j : ℕ) → bit_and w (2 ^ j) ≡ digit w j * 2 ^ j
unfolding digit
bit_and_pow w zero = ground (arith, bit_and_halves w 1, bit_and-zero (w / 2))
bit_and_pow w (suc j) =
    let half : 2 ^ suc j / 2 ≡ 2 ^ j = omega (arith, pow-suc 2 j) in
    let tail : bit_and (w / 2) (2 ^ suc j / 2) ≡ digit w (suc j) * 2 ^ j =
      rw half (bit_and_pow (w / 2) j) in
    let double : digit w (suc j) * 2 ^ suc j ≡ digit w (suc j) * 2 ^ j * 2 =
      omega (arith, ap (λ (t : ℕ). digit w (suc j) * t) (pow-suc 2 j)) in
    omega (arith, bit_and_halves w (2 ^ suc j), double, tail, pow-suc 2 j)

pow_mono : (j n : ℕ) → j < n → 2 ^ j < 2 ^ n
pow_mono j zero h = absurd (omega arith)
pow_mono zero (suc n) h = omega (arith, pow-suc 2 n, one-le-pow n 2)
pow_mono (suc j) (suc n) h = omega (arith, pow-suc 2 j, pow-suc 2 n, pow_mono j n (omega arith))

pub pow-lt_word : (j : ℕ) → j < 32 → 2 ^ j < 2 ^ 32
pow-lt_word j h = pow_mono j 32 h
