-- ===== src/Bits/Mask.antt =====
-- `&` with a mask of low or of high bits, and `|` of disjoint fields, as arithmetic.
use mathlib.Core.Path.{ap₂}
use native.Mathlib.Nat.{pow-suc, one-le-pow}
use owmice.Base.{ℕ, zero, suc, ◌+◌, ◌-◌, ◌*◌, ◌/◌, ◌%◌, ◌^◌, ◌<◌, bit_and, bit_or, ◌≡◌, arith, ap}
use owmice.Bits.Digit.{digit_ext, digit-bit_or, bit_or-lt}
use owmice.Bits.Step.{bit_or_halves, bit_and_halves, bit_and-zero, bit_or-zero, bit_or-nothing}

double_shift : (q k r : ℕ) → q * 2 ^ suc k + r ≡ 2 * (q * 2 ^ k) + r
double_shift q k r = omega (arith, ap (λ (t : ℕ). q * t) (pow-suc 2 k))

-- Both operations work on the bits from `k` on and on those below separately.
pub bit_and_split :
    (k q r p t : ℕ)
    → r < 2 ^ k
    → t < 2 ^ k
    → bit_and (q * 2 ^ k + r) (p * 2 ^ k + t) ≡ bit_and q p * 2 ^ k + bit_and r t
bit_and_split zero q r p t hr ht =
    let er : r ≡ 0 = omega arith in
    let et : t ≡ 0 = omega arith in
    let eq : q * 2 ^ 0 + 0 ≡ q = omega arith in
    let ep : p * 2 ^ 0 + 0 ≡ p = omega arith in rw (er, et, eq, ep) (omega arith)
bit_and_split (suc k) q r p t hr ht =
    let half =
      bit_and_split k q (r / 2) p (t / 2) (omega (arith, pow-suc 2 k))
        (omega (arith, pow-suc 2 k)) in
    ground (
      arith,
      half,
      bit_and_halves (q * 2 ^ suc k + r) (p * 2 ^ suc k + t),
      bit_and_halves r t,
      double_shift q k r,
      double_shift p k t,
      double_shift (bit_and q p) k 0,
    )

pub bit_or_split :
    (k q r p t : ℕ)
    → r < 2 ^ k
    → t < 2 ^ k
    → bit_or (q * 2 ^ k + r) (p * 2 ^ k + t) ≡ bit_or q p * 2 ^ k + bit_or r t
bit_or_split zero q r p t hr ht =
    let er : r ≡ 0 = omega arith in
    let et : t ≡ 0 = omega arith in
    let eq : q * 2 ^ 0 + 0 ≡ q = omega arith in
    let ep : p * 2 ^ 0 + 0 ≡ p = omega arith in rw (er, et, eq, ep) (omega arith)
bit_or_split (suc k) q r p t hr ht =
    let half =
      bit_or_split k q (r / 2) p (t / 2) (omega (arith, pow-suc 2 k))
        (omega (arith, pow-suc 2 k)) in
    ground (
      arith,
      half,
      bit_or_halves (q * 2 ^ suc k + r) (p * 2 ^ suc k + t),
      bit_or_halves r t,
      double_shift q k r,
      double_shift p k t,
      double_shift (bit_or q p) k 0,
    )

bit_and_ones : (k r : ℕ) → r < 2 ^ k → bit_and r (2 ^ k - 1) ≡ r
bit_and_ones zero r h = omega (arith, bit_and-zero r)
bit_and_ones (suc k) r h =
    let half : (2 ^ suc k - 1) / 2 ≡ 2 ^ k - 1 = omega (arith, pow-suc 2 k, one-le-pow k 2) in
    let odd : (2 ^ suc k - 1) % 2 ≡ 1 = omega (arith, pow-suc 2 k, one-le-pow k 2) in
    let step = rw (half, odd) at (bit_and_halves r (2 ^ suc k - 1)) in
    omega (arith, step, bit_and_ones k (r / 2) (omega (arith, pow-suc 2 k)))

-- `x & (2^k - 1)` is the remainder.
pub bit_and_low : (k a : ℕ) → bit_and a (2 ^ k - 1) ≡ a % 2 ^ k
bit_and_low k a =
    let pos = one-le-pow k 2 in
    let whole : a ≡ a / 2 ^ k * 2 ^ k + a % 2 ^ k = grind arith in
    let mask : 2 ^ k - 1 ≡ 0 * 2 ^ k + (2 ^ k - 1) = omega arith in
    let below : a % 2 ^ k < 2 ^ k = grind arith in
    let parts = bit_and_split k (a / 2 ^ k) (a % 2 ^ k) 0 (2 ^ k - 1) below (omega arith) in
    omega (
      arith,
      ap₂ bit_and whole mask,
      parts,
      ap (λ (t : ℕ). t * 2 ^ k) (bit_and-zero (a / 2 ^ k)),
      bit_and_ones k (a % 2 ^ k) below,
    )

-- Masking by `m << k` drops the low `k` bits and masks the rest by `m`.
pub bit_and_shift :
    (k q r m : ℕ) → r < 2 ^ k → bit_and (q * 2 ^ k + r) (m * 2 ^ k) ≡ bit_and q m * 2 ^ k
bit_and_shift k q r m h =
    let e : m * 2 ^ k ≡ m * 2 ^ k + 0 = omega arith in
    rw e (omega (arith, bit_and_split k q r m 0 h (one-le-pow k 2 (omega arith)), bit_and-zero r))

-- Fields that do not overlap add up.
pub bit_or_add : (k q r : ℕ) → r < 2 ^ k → bit_or (q * 2 ^ k) r ≡ q * 2 ^ k + r
bit_or_add k q r h =
    let parts = bit_or_split k q 0 0 r (one-le-pow k 2 (omega arith)) h in
    let high : q * 2 ^ k ≡ q * 2 ^ k + 0 = omega arith in
    let low : r ≡ 0 * 2 ^ k + r = omega arith in
    omega (
      arith,
      ap₂ bit_or high low,
      parts,
      ap (λ (t : ℕ). t * 2 ^ k) (bit_or-zero q),
      bit_or-nothing r,
    )

-- `x & 0xFFFFF000` rounds a 32-bit word down to a page.
pub bit_and_page : (a : ℕ) → a < 2 ^ 32 → bit_and a 0xFFFFF000 ≡ a / 4096 * 4096
bit_and_page a h =
    let split : a ≡ a / 2 ^ 12 * 2 ^ 12 + a % 2 ^ 12 = omega arith in
    let step : bit_and (a / 2 ^ 12 * 2 ^ 12 + a % 2 ^ 12) (0xFFFFF * 2 ^ 12)
        ≡ bit_and (a / 2 ^ 12) 0xFFFFF * 2 ^ 12 =
      bit_and_shift 12 (a / 2 ^ 12) (a % 2 ^ 12) 0xFFFFF (omega arith) in
    omega (arith, ap (λ (t : ℕ). bit_and t 0xFFFFF000) split, step, bit_and_low 20 (a / 2 ^ 12))

-- The top bit of a 32-bit word.
pub bit_and_top : (a : ℕ) → a < 2 ^ 32 → bit_and a 0x80000000 ≡ a / 2 ^ 31 * 2 ^ 31
bit_and_top a h =
    let split : a ≡ a / 2 ^ 31 * 2 ^ 31 + a % 2 ^ 31 = omega arith in
    let step : bit_and (a / 2 ^ 31 * 2 ^ 31 + a % 2 ^ 31) (1 * 2 ^ 31)
        ≡ bit_and (a / 2 ^ 31) 1 * 2 ^ 31 =
      bit_and_shift 31 (a / 2 ^ 31) (a % 2 ^ 31) 1 (omega arith) in
    omega (arith, ap (λ (t : ℕ). bit_and t 0x80000000) split, step, bit_and_low 1 (a / 2 ^ 31))

pub bit_and_not_top : (a : ℕ) → bit_and a 0x7fffffff ≡ a % 2 ^ 31
bit_and_not_top a = bit_and_low 31 a

pub bit_or_top : (a : ℕ) → a < 2 ^ 31 → bit_or 0x80000000 a ≡ 2 ^ 31 + a
bit_or_top a h = omega (arith, bit_or_add 31 1 a h)

pub bit_or_comm : (n a b : ℕ) → a < 2 ^ n → b < 2 ^ n → bit_or a b ≡ bit_or b a
bit_or_comm n a b ha hb =
    digit_ext n (bit_or a b) (bit_or b a) (bit_or-lt n a b ha hb) (bit_or-lt n b a hb ha)
      (λ k. omega (arith, digit-bit_or a b k, digit-bit_or b a k))
