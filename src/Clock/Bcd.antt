-- ===== src/Clock/Bcd.antt =====
-- Binary-coded decimals, in which the registers show a number.
use owmice.Base.{ℕ, ◌+◌, ◌*◌, ◌/◌, ◌%◌, ◌<◌, ◌≡◌, arith, true, ltb, lt→ltb}
use owmice.Bits.{bit_and_low}
use owmice.Clock.{Registers, cmos_dump, from_bcd}

abbrev pub bcd : ℕ → ℕ
bcd n = n / 10 * 16 + n % 10

pub from_bcd-bcd : (n : ℕ) → n < 100 → from_bcd (bcd n) ≡ n
unfolding from_bcd
from_bcd-bcd n h = omega (arith, bit_and_low 4 (bcd n))

-- A register whose number is below 80 has its top bit clear, and is read as it is.
pub read_bcd :
    (port : Registers) (i n : ℕ) → port i ≡ bcd n → n < 80 → from_bcd (cmos_dump port i) ≡ n
unfolding cmos_dump
read_bcd port i n e h =
    let plain : ltb (port i) 128 ≡ true = lt→ltb _ _ (omega arith) in
    rw (plain, e) (from_bcd-bcd n (omega arith))
