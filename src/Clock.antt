-- ===== src/Clock.antt =====
-- The clock of io/cmos.h. What `read_port` answers for each of the 128 registers is a function; a `uint16_t` is taken modulo 2^16 and an `int` is its 32-bit pattern. `tv_usec`, which is
-- always 0, and the `printf` of `today` are left out.
pub mod Calendar
pub mod Bcd
pub mod Epoch
pub mod Today
mod Tests
use owmice.Base.{
  ℕ, zero, suc, ◌+◌, ◌-◌, ◌*◌, ◌/◌, ◌%◌, ◌^◌, bit_and, Bool, true, false, not, ◌&&◌, ◌||◌, ltb, leb,
  ◌==◌, if◌then◌else◌,
}

abbrev pub Registers : Type 0
Registers = ℕ → ℕ

-- A byte of the clock is read as a `char`, and its sign goes on into the `uint16_t`.
pub cmos_dump : Registers → Registers
cmos_dump port index = if ltb (port index) 128 then port index else port index + 0xff00

pub from_bcd : ℕ → ℕ
from_bcd val = val / 16 * 10 + bit_and val 0xf

-- The globals of these names.
abbrev pub timezone : ℕ
timezone = 2

abbrev pub century : ℕ
century = 2

abbrev pub u16 : ℕ → ℕ
u16 n = n % 2 ^ 16

abbrev u32 : ℕ → ℕ
u32 n = n % 2 ^ 32

pub record Date : Type 0 where
  pub h : ℕ
  pub m : ℕ
  pub s : ℕ
  pub d : ℕ
  pub mo : ℕ
  pub y : ℕ

pub get_date : Registers → Date → Date
get_date port dt = record dt {
  mo = u16 (from_bcd (cmos_dump port 8));
  d = u16 (from_bcd (cmos_dump port 7));
  y = u16 (century * 1000 + from_bcd (cmos_dump port 9));
}

-- The date with the time set, and whether the hours ran over.
pub get_time : Registers → Date → Date × Bool
get_time port dt =
    let hours = u16 (u16 (from_bcd (cmos_dump port 4)) + timezone) in
    let ovf = leb 24 hours in
    (
      record dt {
        h = if ovf then hours - 24 else hours;
        m = u16 (from_bcd (cmos_dump port 2));
        s = u16 (from_bcd (cmos_dump port 0));
      },
      ovf,
    )

-- The `days++` of the loop of `secs_of_years`.
pub leap_day : ℕ → ℕ
leap_day years =
    if years % 4 == 0
    then (if years % 100 == 0 then (if years % 400 == 0 then 1 else 0) else 1)
    else 0

-- The loop, which adds the days of each year down to 1970.
pub days_of_years : ℕ → ℕ → ℕ
days_of_years zero days = days
days_of_years (suc year) days =
    let years = suc year in
    let rest = days_of_years year (u32 (u32 (days + 365) + leap_day years)) in
    if ltb 1969 years then rest else days

-- `years > 1969` compares an `int`: a negative number ends the loop.
pub secs_of_years : ℕ → ℕ
secs_of_years years =
    let years = u32 (years + 2000) in
    u32 ((if ltb years (2 ^ 31) then days_of_years years 0 else 0) * 86400)

pub is_leap_year : ℕ → Bool
is_leap_year year =
    if year % 4 == 0
    then (if year % 100 == 0 then (if year % 400 == 0 then true else false) else true)
    else false

-- What the case of a month in the `switch` of `secs_of_month` adds.
pub case_days : ℕ → ℕ → ℕ
case_days months year =
    if months == 11 || months == 9 || months == 6 || months == 4
    then 30
    else if months == 2
    then (if year % 4 == 0 && (not (year % 100 == 0) || year % 400 == 0) then 29 else 28)
    else 31

-- Each case falls through to the one below it.
pub fall_through : ℕ → ℕ → ℕ
fall_through zero year = 0
fall_through (suc months) year = case_days (suc months) year + fall_through months year

pub secs_of_month : ℕ → ℕ → ℕ
secs_of_month months year =
    let days = if leb months 11 then fall_through months (u32 (year + 2000)) else 0 in
    u32 (days * 86400)

-- `tv_sec`.
pub gettimeofday : Registers → ℕ
gettimeofday port = u32 (
    secs_of_years (u32 (from_bcd (cmos_dump port 9) + 2 ^ 32 - 1))
    + secs_of_month (u32 (from_bcd (cmos_dump port 8) + 2 ^ 32 - 1)) (from_bcd (cmos_dump port 9))
    + u32 (u32 (from_bcd (cmos_dump port 7) + 2 ^ 32 - 1) * 86400)
    + from_bcd (cmos_dump port 4) * 3600
    + from_bcd (cmos_dump port 2) * 60
    + from_bcd (cmos_dump port 0))

-- The roll-over of the months in `get_today`, in the order of the source.
pub roll_odd : Date → Date
roll_odd dt =
    if ltb 31 dt.d && not (dt.mo % 2 == 0) && not (dt.mo == 9)
    then record dt { d = 1; mo = u16 (dt.mo + 1) }
    else dt

pub roll_even : Date → Date
roll_even dt =
    if ltb 30 dt.d && dt.mo % 2 == 0 && not (dt.mo == 2)
    then record dt { d = 1; mo = u16 (dt.mo + 1) }
    else dt

pub roll_february : Date → Date
roll_february dt =
    if dt.mo == 2
    then (let leap = is_leap_year dt.y in
        if leap && ltb 29 dt.d || not leap && ltb 28 dt.d
        then record dt { mo = u16 (dt.mo + 1); d = 1 }
        else dt)
    else dt

pub roll_year : Date → Date
roll_year dt = if ltb 12 dt.mo then record dt { y = u16 (dt.y + 1) } else dt

-- The two dumps of the registers are taken at different moments.
pub get_today : Registers → Registers → Date → Date
get_today port port' dt =
    let (dt, ovf) = get_time port' (get_date port dt) in
    let dt = if ovf then record dt { d = u16 (dt.d + 1) } else dt in
    roll_year (roll_february (roll_even (roll_odd dt)))
