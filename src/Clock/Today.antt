-- ===== src/Clock/Today.antt =====
-- The date of `get_today` against the calendar: the day in the time zone, which is the next one
-- late in the evening.
use owmice.Base.{
  ℕ, ◌+◌, ◌-◌, ◌*◌, ◌%◌, ◌^◌, ◌≤◌, ◌<◌, ◌≡◌, ◌⊎◌, arith, if◌then◌else◌, ltb, leb, ◌==◌, ◌&&◌, ◌||◌,
  not, true, false, refl, ap, sym, ◌∙◌, inl, inr, Bool-cases, le→ltb, ==→eq, ==→ne, lt→ltb, ◌≢◌,
}
use owmice.Clock.{
  Registers, Date, timezone, get_date, get_time, is_leap_year, roll_odd, roll_even, roll_february,
  roll_year, get_today,
}
use owmice.Clock.Bcd.{read_bcd}
use owmice.Clock.Calendar.{
  Day, leap, month_length, next_day, IsDay, next_day-Follows, month_length-pos, month_length-le,
}
use owmice.Clock.Epoch.{Shows}

abbrev pub at : ℕ → ℕ → ℕ → ℕ → ℕ → ℕ → Date
at hour minute second year month day = record {
  h = hour;
  m = minute;
  s = second;
  d = day;
  mo = month;
  y = year;
}

module _ (hour minute second : ℕ) where
  abbrev roll : ℕ → ℕ → ℕ → Date
  roll year month day =
      roll_year (roll_february (roll_even (roll_odd (at hour minute second year month day))))

  is_leap_year_lem : (year : ℕ) → is_leap_year year ≡ leap year
  unfolding is_leap_year
  is_leap_year_lem year = ground arith

  odd_stays :
      (y mo d : ℕ)
      → (ltb 31 d && not (mo % 2 == 0) && not (mo == 9)) ≡ false
      → roll_odd (at hour minute second y mo d) ≡ at hour minute second y mo d
  unfolding roll_odd
  odd_stays y mo d h = rw h refl

  odd_rolls :
      (y mo d : ℕ)
      → (ltb 31 d && not (mo % 2 == 0) && not (mo == 9)) ≡ true
      → mo ≤ 12
      → roll_odd (at hour minute second y mo d) ≡ at hour minute second y (mo + 1) 1
  unfolding roll_odd
  odd_rolls y mo d h last =
      let small : (mo + 1) % 2 ^ 16 ≡ mo + 1 = omega arith in rw (h, small) refl

  even_stays :
      (y mo d : ℕ)
      → (ltb 30 d && mo % 2 == 0 && not (mo == 2)) ≡ false
      → roll_even (at hour minute second y mo d) ≡ at hour minute second y mo d
  unfolding roll_even
  even_stays y mo d h = rw h refl

  even_rolls :
      (y mo d : ℕ)
      → (ltb 30 d && mo % 2 == 0 && not (mo == 2)) ≡ true
      → mo ≤ 12
      → roll_even (at hour minute second y mo d) ≡ at hour minute second y (mo + 1) 1
  unfolding roll_even
  even_rolls y mo d h last =
      let small : (mo + 1) % 2 ^ 16 ≡ mo + 1 = omega arith in rw (h, small) refl

  february_stays :
      (y mo d : ℕ)
      → (mo ≡ 2 → d ≤ month_length y 2)
      → roll_february (at hour minute second y mo d) ≡ at hour minute second y mo d
  unfolding roll_february
  february_stays y mo d h = elim (Bool-cases (mo == 2)) [
    | inl two ↦
        let within : d ≤ month_length y 2 = h (==→eq _ _ two) in
        let test : (leap y && ltb 29 d || not (leap y) && ltb 28 d) ≡ false = ground arith in
        rw (two, is_leap_year_lem y, test) refl
    | inr other ↦ rw other refl
  ]

  february_rolls :
      (y d : ℕ)
      → month_length y 2 < d
      → roll_february (at hour minute second y 2 d) ≡ at hour minute second y 3 1
  unfolding roll_february
  february_rolls y d h =
      let test : (leap y && ltb 29 d || not (leap y) && ltb 28 d) ≡ true = ground arith in
      rw (is_leap_year_lem y, test) refl

  year_stays :
      (y mo d : ℕ)
      → mo ≤ 12
      → roll_year (at hour minute second y mo d) ≡ at hour minute second y mo d
  unfolding roll_year
  year_stays y mo d h = rw (le→ltb 12 mo h) refl

  -- Up to July a day of the month stays as it is.
  roll_within :
      (year month day : ℕ)
      → 1 ≤ month
      → month ≤ 7
      → day ≤ month_length year month
      → roll year month day ≡ at hour minute second year month day
  roll_within year month day some early within =
      let odd : (ltb 31 day && not (month % 2 == 0) && not (month == 9)) ≡ false = ground arith in
      let even : (ltb 30 day && month % 2 == 0 && not (month == 2)) ≡ false = ground arith in
      let february : month ≡ 2 → day ≤ month_length year 2 = λ e. rw e at within in
      rw
        (
          odd_stays year month day odd,
          even_stays year month day even,
          february_stays year month day february,
          year_stays year month day (omega arith),
        )
        refl

  over_february :
      (year : ℕ) → roll year 2 (month_length year 2 + 1) ≡ at hour minute second year 3 1
  over_february year =
      let day = month_length year 2 + 1 in
      let odd : (ltb 31 day && not (2 % 2 == 0) && not (2 == 9)) ≡ false = ground arith in
      let even : (ltb 30 day && 2 % 2 == 0 && not (2 == 2)) ≡ false = ground arith in
      rw
        (
          odd_stays year 2 day odd,
          even_stays year 2 day even,
          february_rolls year day (omega arith),
          year_stays year 3 1 (omega arith),
        )
        refl

  -- Up to July the day behind the last of the month becomes the first of the next.
  roll_over :
      (year month : ℕ)
      → 1 ≤ month
      → month ≤ 7
      → roll year month (month_length year month + 1) ≡ at hour minute second year (month + 1) 1
  roll_over year month some early = elim (Bool-cases (month == 2)) [
    | inl two ↦ let is_two = ==→eq _ _ two in rw is_two (over_february year)
    | inr other ↦ elim (Bool-cases (month % 2 == 0)) [
      | inl even ↦
          let day : month_length year month + 1 ≡ 31 = ground arith in
          let test : (ltb 30 31 && month % 2 == 0 && not (month == 2)) ≡ true = ground arith in
          let next : month + 1 ≢ 2 = omega (arith, ==→eq _ _ even) in
          rw
            (
              day,
              odd_stays year month 31 refl,
              even_rolls year month 31 test (omega arith),
              february_stays year (month + 1) 1 (λ e. absurd (next e)),
              year_stays year (month + 1) 1 (omega arith),
            )
            refl
      | inr odd ↦
          let day : month_length year month + 1 ≡ 32 = ground arith in
          let test : (ltb 31 32 && not (month % 2 == 0) && not (month == 9)) ≡ true =
            ground arith in
          rw
            (
              day,
              odd_rolls year month 32 test (omega arith),
              even_stays year (month + 1) 1 refl,
              february_stays year (month + 1) 1 (λ e. month_length-pos year 2),
              year_stays year (month + 1) 1 (omega arith),
            )
            refl
    ]
  ]

  year_rolls :
      (y mo d : ℕ)
      → 12 < mo
      → y < 2 ^ 15
      → roll_year (at hour minute second y mo d) ≡ at hour minute second (y + 1) mo d
  unfolding roll_year
  year_rolls y mo d h small =
      let next : (y + 1) % 2 ^ 16 ≡ y + 1 = omega arith in rw (lt→ltb 12 mo h, next) refl

  -- The 31st of a month with an even number is over.
  roll_31 :
      (year month : ℕ)
      → (month % 2 == 0) ≡ true
      → 8 ≤ month
      → month ≤ 12
      → year < 2 ^ 15
      → roll year month 31
        ≡ at hour minute second (if month == 12 then year + 1 else year) (month + 1) 1
  roll_31 year month even above last small =
      let test : (ltb 30 31 && month % 2 == 0 && not (month == 2)) ≡ true = ground arith in
      rw
        (
          odd_stays year month 31 refl,
          even_rolls year month 31 test last,
          february_stays year (month + 1) 1 (λ e. month_length-pos year 2),
        )
        (elim (Bool-cases (month == 12)) [
          | inl december ↦
              let twelve = ==→eq _ _ december in
              rw december (year_rolls year (month + 1) 1 (omega arith) small)
          | inr other ↦
              let differs = ==→ne _ _ other in
              rw other (year_stays year (month + 1) 1 (omega arith))
        ])

abbrev pub on_day : ℕ → ℕ → ℕ → Day → Date
on_day hour minute second t = at hour minute second t.year t.month t.day

-- Both dumps of the registers at one moment before 2080.
pub record ShowsBoth (values values' : Registers) (t : Day) (hour minute second : ℕ) : Type 0 where
  pub is_day : IsDay t
  pub from_2000 : 2000 ≤ t.year
  pub to_2079 : t.year < 2080
  pub some_hour : hour < 24
  pub some_minute : minute < 60
  pub some_second : second < 60
  pub date_dump : Shows values t hour minute second
  pub time_dump : Shows values' t hour minute second

module _ (values values' : Registers) (dt : Date) (t : Day) (hour minute second : ℕ)
    (shows : ShowsBoth values values' t hour minute second) where
  get_date_lem : get_date values dt ≡ record dt { mo = t.month; d = t.day; y = t.year }
  unfolding get_date
  get_date_lem =
      let is = shows.is_day in
      let from = shows.from_2000 in
      let to = shows.to_2079 in
      let last_month = is.last_month in
      let last_day = is.last_day in
      let long = month_length-le t.year t.month in
      let first = shows.date_dump in
      let years = read_bcd values 9 (t.year - 2000) first.years (omega arith) in
      let months = read_bcd values 8 t.month first.months (omega arith) in
      let days = read_bcd values 7 t.day first.days (omega arith) in
      let small_year : (2 * 1000 + (t.year - 2000)) % 2 ^ 16 ≡ t.year = omega arith in
      let small_month : t.month % 2 ^ 16 ≡ t.month = omega arith in
      let small_day : t.day % 2 ^ 16 ≡ t.day = omega arith in
      rw (years, months, days, small_year, small_month, small_day) refl

  get_time_lem :
      get_time values' (record dt { mo = t.month; d = t.day; y = t.year })
      ≡ (at ((hour + timezone) % 24) minute second t.year t.month t.day, leb 24 (hour + timezone))
  unfolding get_time
  get_time_lem =
      let hour_small = shows.some_hour in
      let minute_small = shows.some_minute in
      let second_small = shows.some_second in
      let dump = shows.time_dump in
      let hours = read_bcd values' 4 hour dump.hours (omega arith) in
      let minutes = read_bcd values' 2 minute dump.minutes (omega arith) in
      let seconds = read_bcd values' 0 second dump.seconds (omega arith) in
      let small_hour : (hour % 2 ^ 16 + 2) % 2 ^ 16 ≡ hour + 2 = omega arith in
      let small_minute : minute % 2 ^ 16 ≡ minute = omega arith in
      let small_second : second % 2 ^ 16 ≡ second = omega arith in
      let clock : (if leb 24 (hour + 2) then hour + 2 - 24 else hour + 2) ≡ (hour + 2) % 24 =
        ground arith in
      rw (hours, minutes, seconds, small_hour, small_minute, small_second, clock) refl

  -- The date before the roll-over of the months.
  get_today-roll :
      get_today values values' dt
      ≡ roll
          ((hour + timezone) % 24)
          minute
          second
          t.year
          t.month
          (if leb 24 (hour + timezone) then t.day + 1 else t.day)
  unfolding get_today
  get_today-roll =
      let is = shows.is_day in
      let last_day = is.last_day in
      let long = month_length-le t.year t.month in
      let small : (t.day + 1) % 2 ^ 16 ≡ t.day + 1 = omega arith in
      rw (get_date_lem, get_time_lem, small)
        (elim (Bool-cases (leb 24 (hour + timezone))) [
          | inl late ↦ rw late refl
          | inr early ↦ rw early refl
        ])

  -- Up to July `get_today` answers the time in the time zone, and the day there: the next one of
  -- the calendar when the hours run over.
  pub get_today-next_day :
      t.month ≤ 7
      → get_today values values' dt
        ≡ on_day
            ((hour + timezone) % 24)
            minute
            second
            (if leb 24 (hour + timezone) then next_day t else t)
  get_today-next_day half =
      let is = shows.is_day in
      let some = is.some_month in
      let late_hour = (hour + timezone) % 24 in
      get_today-roll ∙ elim (Bool-cases (leb 24 (hour + timezone))) [
        | inr early ↦
            rw early
              (roll_within late_hour minute second t.year t.month t.day some half is.last_day)
        | inl late ↦ rw late (elim (next_day-Follows t.year t.month t.day is) [
          | inl (more, e) ↦
              roll_within late_hour minute second t.year t.month (t.day + 1) some half (omega arith)
              ∙ sym (ap (on_day late_hour minute second) e)
          | inr (inl (end, _, e)) ↦
              ap (λ (d : ℕ). roll late_hour minute second t.year t.month (d + 1)) end
              ∙ roll_over late_hour minute second t.year t.month some half
              ∙ sym (ap (on_day late_hour minute second) e)
          | inr (inr (_, twelve, _)) ↦ absurd (omega arith)
        ])
      ]

  -- On the 31st of August, October and December `get_today` answers the first of the next month
  -- already on the day itself, and after December that is the first day of month 13 of the next year.
  pub get_today-long_month :
      t.day ≡ 31
      → (t.month ≡ 8) ⊎ ((t.month ≡ 10) ⊎ (t.month ≡ 12))
      → hour + timezone < 24
      → get_today values values' dt
        ≡ at
            (hour + timezone)
            minute
            second
            (if t.month == 12 then t.year + 1 else t.year)
            (t.month + 1)
            1
  get_today-long_month full long early =
      let to = shows.to_2079 in
      let even : (t.month % 2 == 0) ≡ true = elim long [
        | inl e ↦ rw e refl
        | inr (inl e) ↦ rw e refl
        | inr (inr e) ↦ rw e refl
      ] in
      let today : leb 24 (hour + timezone) ≡ false = ground arith in
      let same : (hour + timezone) % 24 ≡ hour + timezone = omega arith in
      get_today-roll
      ∙ rw (today, full, same)
          (roll_31 (hour + timezone) minute second t.year t.month even (omega arith) (omega arith)
            (omega arith))
