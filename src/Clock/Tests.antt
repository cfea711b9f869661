-- ===== src/Clock/Tests.antt =====
-- The clock at concrete registers.
use owmice.Base.{ℕ, ◌≡◌, refl, arith, inr, ◌==◌, if◌then◌else◌}
use owmice.Clock.{Registers, Date, gettimeofday, get_today}
use owmice.Clock.Bcd.{bcd}
use owmice.Clock.Calendar.{on, later}
use owmice.Clock.Epoch.{Shows, gettimeofday-later, millennium}
use owmice.Clock.Today.{at, ShowsBoth, get_today-next_day, get_today-long_month}

-- The registers at a day and time of this century.
abbrev registers : ℕ → ℕ → ℕ → ℕ → ℕ → ℕ → Registers
registers year month day hour minute second i =
    if i == 9
    then bcd year
    else if i == 8
    then bcd month
    else if i == 7
    then bcd day
    else if i == 4
    then bcd hour
    else if i == 2
    then bcd minute
    else bcd second

-- 0:30:15 on the 29th of February 2000.
abbrev leap_day_2000 : Registers
leap_day_2000 = registers 0 2 29 0 30 15

sixty_days : later 59 millennium ≡ on 2000 2 29
unfolding later
sixty_days = refl

leap_day_2000-Shows : Shows leap_day_2000 (later 59 millennium) 0 30 15
unfolding later
leap_day_2000-Shows = record {
  years = refl;
  months = refl;
  days = refl;
  hours = refl;
  minutes = refl;
  seconds = refl;
}

gettimeofday-later_example : gettimeofday leap_day_2000 ≡ 951784215
unfolding later
gettimeofday-later_example =
    gettimeofday-later 59 leap_day_2000 0 30 15 (omega arith) (omega arith) (omega arith)
      (omega arith) leap_day_2000-Shows

abbrev unset : Date
unset = at 0 0 0 0 0 0

late_february-Shows : Shows (registers 24 2 29 23 5 9) (on 2024 2 29) 23 5 9
late_february-Shows = record {
  years = refl;
  months = refl;
  days = refl;
  hours = refl;
  minutes = refl;
  seconds = refl;
}

-- 23:05:09 on the 29th of February 2024.
late_february-ShowsBoth :
    ShowsBoth (registers 24 2 29 23 5 9) (registers 24 2 29 23 5 9) (on 2024 2 29) 23 5 9
late_february-ShowsBoth = record {
  is_day = record {
    some_month = omega arith;
    last_month = omega arith;
    some_day = omega arith;
    last_day = omega arith;
  };
  from_2000 = omega arith;
  to_2079 = omega arith;
  some_hour = omega arith;
  some_minute = omega arith;
  some_second = omega arith;
  date_dump = late_february-Shows;
  time_dump = late_february-Shows;
}

get_today-next_day_example :
    get_today (registers 24 2 29 23 5 9) (registers 24 2 29 23 5 9) unset ≡ at 1 5 9 2024 3 1
get_today-next_day_example =
    get_today-next_day (registers 24 2 29 23 5 9) (registers 24 2 29 23 5 9) unset (on 2024 2 29) 23
      5 9 late_february-ShowsBoth (omega arith)

year_end-Shows : Shows (registers 23 12 31 10 0 0) (on 2023 12 31) 10 0 0
year_end-Shows = record {
  years = refl;
  months = refl;
  days = refl;
  hours = refl;
  minutes = refl;
  seconds = refl;
}

-- 10:00:00 on the 31st of December 2023.
year_end-ShowsBoth :
    ShowsBoth (registers 23 12 31 10 0 0) (registers 23 12 31 10 0 0) (on 2023 12 31) 10 0 0
year_end-ShowsBoth = record {
  is_day = record {
    some_month = omega arith;
    last_month = omega arith;
    some_day = omega arith;
    last_day = omega arith;
  };
  from_2000 = omega arith;
  to_2079 = omega arith;
  some_hour = omega arith;
  some_minute = omega arith;
  some_second = omega arith;
  date_dump = year_end-Shows;
  time_dump = year_end-Shows;
}

get_today-long_month_example :
    get_today (registers 23 12 31 10 0 0) (registers 23 12 31 10 0 0) unset ≡ at 12 0 0 2024 13 1
get_today-long_month_example =
    get_today-long_month (registers 23 12 31 10 0 0) (registers 23 12 31 10 0 0) unset
      (on 2023 12 31) 10 0 0 year_end-ShowsBoth refl (inr (inr refl)) (omega arith)
