-- ===== src/Clock/Calendar.antt =====
-- The Gregorian calendar, by the length of each month and the day after each day, against which
-- the clock is stated.
use owmice.Base.{
  ℕ, zero, suc, ◌+◌, ◌%◌, ◌≤◌, ◌<◌, Bool, not, ◌&&◌, ◌||◌, ltb, ◌==◌, if◌then◌else◌, ◌≡◌, ◌⊎◌, inl,
  inr, refl, ap, ◌∙◌, arith, Bool-cases, ltb→lt, ltb→le, ==→eq, ==→ne,
}

pub record Day : Type 0 where
  pub year : ℕ
  pub month : ℕ
  pub day : ℕ

abbrev pub leap : ℕ → Bool
leap year = year % 4 == 0 && (not (year % 100 == 0) || year % 400 == 0)

abbrev pub month_length : ℕ → ℕ → ℕ
month_length year month =
    if month == 2
    then (if leap year then 29 else 28)
    else if month == 4 || month == 6 || month == 9 || month == 11
    then 30
    else 31

abbrev pub next_day : Day → Day
next_day t =
    if ltb t.day (month_length t.year t.month)
    then record t { day = t.day + 1 }
    else if t.month == 12
    then record { year = t.year + 1; month = 1; day = 1 }
    else record t { month = t.month + 1; day = 1 }

abbrev pub on : ℕ → ℕ → ℕ → Day
on year month day = record { year = year; month = month; day = day }

unfoldable pub later : ℕ → Day → Day
later zero t = t
later (suc n) t = next_day (later n t)

-- A day of the calendar.
pub record IsDay (t : Day) : Type 0 where
  pub some_month : 1 ≤ t.month
  pub last_month : t.month ≤ 12
  pub some_day : 1 ≤ t.day
  pub last_day : t.day ≤ month_length t.year t.month

-- What the day after a day can be: another of the month, the first of the next month, or the first
-- of the next year.
abbrev pub Follows : ℕ → ℕ → ℕ → Day → Type 0
Follows year month day t =
    ((day < month_length year month) × (t ≡ on year month (day + 1)))
    ⊎ (((day ≡ month_length year month) × (month < 12) × (t ≡ on year (month + 1) 1))
        ⊎ ((day ≡ 31) × (month ≡ 12) × (t ≡ on (year + 1) 1 1)))

pub next_day-Follows :
    (year month day : ℕ)
    → IsDay (on year month day)
    → Follows year month day (next_day (on year month day))
next_day-Follows year month day is =
    let last = is.last_day in
    let full = is.last_month in
    elim (Bool-cases (ltb day (month_length year month))) [
      | inl more ↦ inl (ltb→lt _ _ more, rw more refl)
      | inr over ↦
          let end : day ≡ month_length year month = let bound = ltb→le _ _ over in omega arith in
          elim (Bool-cases (month == 12)) [
            | inl december ↦
                let twelve = ==→eq _ _ december in
                let thirty_one : day ≡ 31 = end ∙ rw twelve refl in
                inr (inr (thirty_one, twelve, rw (over, december) refl))
            | inr early ↦
                let differs = ==→ne _ _ early in inr (inl (end, omega arith, rw (over, early) refl))
          ]
    ]

pub month_length-pos : (year month : ℕ) → 1 ≤ month_length year month
month_length-pos year month = ground arith

pub month_length-le : (year month : ℕ) → month_length year month ≤ 31
month_length-le year month = ground arith

pub next_day-IsDay : (t : Day) → IsDay t → IsDay (next_day t)
next_day-IsDay t is =
    let some = is.some_month in
    elim (next_day-Follows t.year t.month t.day is) [
      | inl (more, e) ↦ rw e (record {
        some_month = some;
        last_month = is.last_month;
        some_day = omega arith;
        last_day = omega arith;
      })
      | inr (inl (end, early, e)) ↦ rw e (record {
        some_month = omega arith;
        last_month = omega arith;
        some_day = omega arith;
        last_day = month_length-pos t.year (t.month + 1);
      })
      | inr (inr (end, twelve, e)) ↦ rw e (record {
        some_month = omega arith;
        last_month = omega arith;
        some_day = omega arith;
        last_day = omega arith;
      })
    ]

pub next_day-year : (t : Day) → IsDay t → t.year ≤ (next_day t).year
next_day-year t is = elim (next_day-Follows t.year t.month t.day is) [
  | inl (more, e) ↦ omega (arith, ap (λ (d : Day). d.year) e)
  | inr (inl (end, early, e)) ↦ omega (arith, ap (λ (d : Day). d.year) e)
  | inr (inr (end, twelve, e)) ↦ omega (arith, ap (λ (d : Day). d.year) e)
]
