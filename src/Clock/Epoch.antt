-- ===== src/Clock/Epoch.antt =====
-- The seconds since 1970 of `gettimeofday`, against a count of the days of the calendar.
use owmice.Base.{
  ℕ, zero, suc, ◌+◌, ◌-◌, ◌*◌, ◌/◌, ◌%◌, ◌^◌, ◌≤◌, ◌<◌, ◌≡◌, arith, ltb, leb, true, refl, ap, sym,
  ◌∙◌, inl, inr, Bool-cases, ltb→lt, ltb→le, lt→ltb,
}
use owmice.Clock.{
  Registers, days_of_years, secs_of_years, secs_of_month, fall_through, case_days, leap_day,
  gettimeofday,
}
use owmice.Clock.Bcd.{bcd, read_bcd}
use owmice.Clock.Calendar.{
  Day, month_length, next_day, on, later, IsDay, next_day-Follows, next_day-IsDay, next_day-year,
  month_length-pos, month_length-le,
}

-- The days from 1970 to the end of a year.
abbrev pub days_through : ℕ → ℕ
days_through year = 365 * (year - 1969) + (year / 4 + year / 400 - year / 100 - 477)

leap_day-le : (year : ℕ) → leap_day year ≤ 1
unfolding leap_day
leap_day-le year = ground arith

days_through-suc :
    (year : ℕ)
    → 1969 ≤ year
    → days_through (suc year) ≡ days_through year + 365 + leap_day (suc year)
unfolding leap_day
days_through-suc year h = ground arith

pub days_of_years_lem :
    (year days : ℕ)
    → 1969 ≤ year
    → days + 366 * year < 2 ^ 32
    → days_of_years year days ≡ days + days_through year
unfolding days_of_years
days_of_years_lem zero days h small = absurd (omega arith)
days_of_years_lem (suc year) days h small = elim (Bool-cases (ltb 1969 (suc year))) [
  | inl more ↦
      let above = ltb→lt _ _ more in
      let bit = leap_day-le (suc year) in
      let step : ((days + 365) % 2 ^ 32 + leap_day (suc year)) % 2 ^ 32
          ≡ days + 365 + leap_day (suc year) =
        omega arith in
      let rest =
        days_of_years_lem year (days + 365 + leap_day (suc year)) (omega arith) (omega arith) in
      rw (more, step) (omega (arith, rest, days_through-suc year (omega arith)))
  | inr last ↦
      let below = ltb→le _ _ last in let first : year ≡ 1968 = omega arith in rw first (omega arith)
]

-- The number of a day, counted from 1970.
abbrev day_number : ℕ → ℕ → ℕ → ℕ
day_number year month day = days_through (year - 1) + fall_through (month - 1) year + (day - 1)

abbrev number : Day → ℕ
number t = day_number t.year t.month t.day

case_days_lem :
    (month year : ℕ) → 1 ≤ month → month ≤ 11 → case_days month year ≡ month_length year month
unfolding case_days
case_days_lem month year h h' = ground arith

next_month :
    (month year : ℕ)
    → suc month < 12
    → fall_through (suc month) year ≡ month_length year (suc month) + fall_through month year
unfolding fall_through
next_month month year h = rw (case_days_lem (suc month) year (omega arith) (omega arith)) refl

whole_year :
    (year : ℕ)
    → 1969 ≤ year
    → days_through (suc year) ≡ days_through year + fall_through 11 (suc year) + 31
unfolding fall_through case_days
whole_year year h = ground arith

new_year : (year : ℕ) → fall_through 0 year ≡ 0
unfolding fall_through
new_year year = refl

turn_of_month :
    (year month : ℕ)
    → 1 ≤ month
    → month < 12
    → day_number year (month + 1) 1 ≡ suc (day_number year month (month_length year month))
turn_of_month year zero some early = absurd (omega arith)
turn_of_month year (suc month) some early =
    let same : suc month + 1 - 1 ≡ suc month = omega arith in
    let before : suc month - 1 ≡ month = omega arith in
    rw (same, before)
      (omega (arith, next_month month year early, month_length-pos year (suc month)))

turn_of_year : (year : ℕ) → 1970 ≤ year → day_number (year + 1) 1 1 ≡ suc (day_number year 12 31)
turn_of_year zero h = absurd (omega arith)
turn_of_year (suc year) h = omega (arith, whole_year year (omega arith), new_year (suc year + 1))

pub number-next_day : (t : Day) → IsDay t → 1970 ≤ t.year → number (next_day t) ≡ suc (number t)
number-next_day t is h =
    let some = is.some_month in
    let some_day = is.some_day in
    elim (next_day-Follows t.year t.month t.day is) [
      | inl (more, e) ↦ ap number e ∙ omega arith
      | inr (inl (end, early, e)) ↦
          ap number e
          ∙ turn_of_month t.year t.month some early
          ∙ ap (λ (d : ℕ). suc (day_number t.year t.month d)) (sym end)
      | inr (inr (end, twelve, e)) ↦ ap number e ∙ turn_of_year t.year h ∙ rw (twelve, end) refl
    ]

abbrev pub millennium : Day
millennium = on 2000 1 1

module _ where
  later-IsDay : (n : ℕ) → IsDay (later n millennium) × (2000 ≤ (later n millennium).year)
  unfolding later
  later-IsDay zero = (
    record {
      some_month = omega arith;
      last_month = omega arith;
      some_day = omega arith;
      last_day = omega arith;
    },
    omega arith,
  )
  later-IsDay (suc n) =
      let (is, h) = later-IsDay n in
      (next_day-IsDay (later n millennium) is, omega (arith, next_day-year (later n millennium) is))

  number-millennium : number millennium ≡ 10957
  unfolding fall_through
  number-millennium = refl

  number-later : (n : ℕ) → number (later n millennium) ≡ 10957 + n
  unfolding later
  number-later zero = omega (arith, number-millennium)
  number-later (suc n) =
      let (is, h) = later-IsDay n in
      omega (arith, number-next_day (later n millennium) is (omega arith), number-later n)

-- The registers at a day before 2080 and a time.
pub record Shows (values : Registers) (t : Day) (hour minute second : ℕ) : Type 0 where
  pub years : values 9 ≡ bcd (t.year - 2000)
  pub months : values 8 ≡ bcd t.month
  pub days : values 7 ≡ bcd t.day
  pub hours : values 4 ≡ bcd hour
  pub minutes : values 2 ≡ bcd minute
  pub seconds : values 0 ≡ bcd second

secs_of_years_lem :
    (year : ℕ)
    → 2000 ≤ year
    → year < 2080
    → secs_of_years ((year - 2000 + 2 ^ 32 - 1) % 2 ^ 32) ≡ days_through (year - 1) * 86400
unfolding secs_of_years
secs_of_years_lem year h h' =
    let start : ((year - 2000 + 2 ^ 32 - 1) % 2 ^ 32 + 2000) % 2 ^ 32 ≡ year - 1 = omega arith in
    let positive : ltb (year - 1) (2 ^ 31) ≡ true = lt→ltb _ _ (omega arith) in
    rw (start, positive) (omega (arith, days_of_years_lem (year - 1) 0 (omega arith) (omega arith)))

fall_through-le : (months year : ℕ) → fall_through months year ≤ 31 * months
unfolding fall_through case_days
fall_through-le zero year = omega arith
fall_through-le (suc months) year = ground (arith, fall_through-le months year)

secs_of_month_lem :
    (month year : ℕ)
    → 1 ≤ month
    → month ≤ 12
    → 2000 ≤ year
    → year < 2080
    → secs_of_month ((month + 2 ^ 32 - 1) % 2 ^ 32) (year - 2000)
      ≡ fall_through (month - 1) year * 86400
unfolding secs_of_month
secs_of_month_lem month year some last h h' =
    let start : (month + 2 ^ 32 - 1) % 2 ^ 32 ≡ month - 1 = omega arith in
    let early : leb (month - 1) 11 ≡ true = ground arith in
    let years : (year - 2000 + 2000) % 2 ^ 32 ≡ year = omega arith in
    rw (start, early, years) (omega (arith, fall_through-le (month - 1) year))

-- The clock counts 86400 seconds for every day of the calendar: `n` days after the first of January
-- 2000, before the year 2080, `gettimeofday` is 946684800 seconds, the
-- seconds of `n` days and those of the time of day.
pub gettimeofday-later :
    (n : ℕ) (values : Registers) (hour minute second : ℕ)
    → (later n millennium).year < 2080
    → hour < 24
    → minute < 60
    → second < 60
    → Shows values (later n millennium) hour minute second
    → gettimeofday values ≡ 946684800 + 86400 * n + 3600 * hour + 60 * minute + second
unfolding gettimeofday
gettimeofday-later n values hour minute second century hh hm hs shows =
    let (is, from) = later-IsDay n in
    let t = later n millennium in
    let some_month = is.some_month in
    let last_month = is.last_month in
    let some_day = is.some_day in
    let last_day = is.last_day in
    let long = month_length-le t.year t.month in
    let years = read_bcd values 9 (t.year - 2000) shows.years (omega arith) in
    let months = read_bcd values 8 t.month shows.months (omega arith) in
    let days = read_bcd values 7 t.day shows.days (omega arith) in
    let hours = read_bcd values 4 hour shows.hours (omega arith) in
    let minutes = read_bcd values 2 minute shows.minutes (omega arith) in
    let seconds = read_bcd values 0 second shows.seconds (omega arith) in
    let whole_days = number-later n in
    let in_years = fall_through-le (t.month - 1) t.year in
    let by_year = secs_of_years_lem t.year from century in
    let by_month = secs_of_month_lem t.month t.year some_month last_month from century in
    rw (years, months, days, hours, minutes, seconds, by_year, by_month) (omega arith)
