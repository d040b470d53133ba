-- ===== src/Search/Dates/Exact.antt =====
-- The closed formula and the days of the calendar (src/search/query.rs).
use dsearch.Base.{
  ℕ, zero, suc, ◌+◌, ◌-◌, ◌*◌, ◌/◌, ◌≤◌, ◌≡◌, ltb, if◌then◌else◌, arith, refl, none, some,
}
use dsearch.Search.Dates.{days_from_civil, date_seconds}
use dsearch.Search.Dates.Calendar.{
  is_leap, days_in_month, days_before_year, days_before_month, ordinal, days_before_year-suc,
}

-- The eras of 400 years in closed form.
eras :
    (y : ℕ)
    → y / 400 * 146097
        + ((y - y / 400 * 400) * 365 + (y - y / 400 * 400) / 4 - (y - y / 400 * 400) / 100)
      ≡ y * 365 + y / 4 - y / 100 + y / 400
eras y = omega arith

-- The days of the years before a year, where January and February are those of the year before.
abbrev start : ℕ → ℕ
start y = y * 365 + y / 4 - y / 100 + y / 400

late :
    (y m d : ℕ)
    → 3 ≤ m
    → 1 ≤ d
    → days_from_civil y m d ≡ start y + ((153 * (m - 3) + 2) / 5 + d - 1)
unfolding days_from_civil
late y m d h k = ground (arith, eras y)

early :
    (y m d : ℕ)
    → m ≤ 2
    → 1 ≤ y
    → 1 ≤ d
    → days_from_civil y m d ≡ start (y - 1) + ((153 * (m + 9) + 2) / 5 + d - 1)
unfolding days_from_civil
early y m d h k l = ground (arith, eras (y - 1))

before_year : (y : ℕ) → 1 ≤ y → days_before_year y ≡ start (y - 1)
before_year zero h = absurd (omega arith)
before_year (suc y) h = omega (arith, days_before_year-suc y)

start_step : (y : ℕ) → 1 ≤ y → start y ≡ start (y - 1) + (if is_leap y then 366 else 365)
start_step y h = ground arith

first_two : (y : ℕ) → days_in_month y 1 + days_in_month y 2 + (if is_leap y then 0 else 1) ≡ 60
unfolding days_in_month
first_two y = ground arith

-- The code's formula passes over the lengths of the months from March on.
month_step :
    (y m : ℕ)
    → m ≤ 8
    → days_in_month y (suc (suc (suc m))) + (153 * m + 2) / 5 ≡ (153 * (m + 1) + 2) / 5
unfolding days_in_month
month_step y zero h = refl
month_step y (suc zero) h = refl
month_step y (suc (suc zero)) h = refl
month_step y (suc (suc (suc zero))) h = refl
month_step y (suc (suc (suc (suc zero)))) h = refl
month_step y (suc (suc (suc (suc (suc zero))))) h = refl
month_step y (suc (suc (suc (suc (suc (suc zero)))))) h = refl
month_step y (suc (suc (suc (suc (suc (suc (suc zero))))))) h = refl
month_step y (suc (suc (suc (suc (suc (suc (suc (suc zero)))))))) h = refl
month_step y (suc (suc (suc (suc (suc (suc (suc (suc (suc m))))))))) h = absurd (omega arith)

late_months :
    (y m : ℕ)
    → 3 ≤ m
    → m ≤ 12
    → days_before_month y m + (if is_leap y then 0 else 1) ≡ (153 * (m - 3) + 2) / 5 + 60
unfolding days_before_month
late_months y zero h k = absurd (omega arith)
late_months y (suc zero) h k = absurd (omega arith)
late_months y (suc (suc zero)) h k = absurd (omega arith)
late_months y (suc (suc (suc zero))) h k = ground (arith, first_two y)
late_months y (suc (suc (suc (suc m)))) h k =
    omega (arith, late_months y (suc (suc (suc m))), month_step y m)

first_month : (y : ℕ) → days_before_month y 1 ≡ 0
unfolding days_before_month
first_month y = refl

second_month : (y : ℕ) → days_before_month y 2 ≡ 31
unfolding days_before_month days_in_month
second_month y = refl

-- From the year 1 on, the formula gives the number of a date in the calendar, plus 305.
pub days_from_civil-ordinal :
    (y m d : ℕ) → 1 ≤ y → 1 ≤ m → m ≤ 12 → 1 ≤ d → days_from_civil y m d ≡ ordinal y m d + 305
unfolding ordinal
days_from_civil-ordinal y zero d hy hm km hd = absurd (omega arith)
days_from_civil-ordinal y (suc zero) d hy hm km hd =
    omega (arith, early y 1 d, before_year y hy, first_month y)
days_from_civil-ordinal y (suc (suc zero)) d hy hm km hd =
    omega (arith, early y 2 d, before_year y hy, second_month y)
days_from_civil-ordinal y (suc (suc (suc m))) d hy hm km hd = ground (
  arith,
  late y (suc (suc (suc m))) d,
  before_year y hy,
  start_step y hy,
  late_months y (suc (suc (suc m))),
)

-- A date of the year 1 or later, with a month and a day in range, is given in seconds, 86400 for
-- each day of the calendar since the 1st of January 1970, which has the number 719163; an earlier
-- date is refused.
pub date_seconds-ordinal :
    (y m d : ℕ)
    → 1 ≤ y
    → 1 ≤ m
    → m ≤ 12
    → 1 ≤ d
    → d ≤ 31
    → date_seconds y m d
      ≡ (if ltb (ordinal y m d) 719163 then none else some ((ordinal y m d - 719163) * 86400))
unfolding date_seconds
date_seconds-ordinal y m d hy hm km hd kd =
    ground (arith, days_from_civil-ordinal y m d hy hm km hd)

epoch_ordinal : ordinal 1970 1 1 ≡ 719163
unfolding ordinal days_before_year days_before_month
epoch_ordinal = refl
