-- ===== src/Search/Dates/Calendar.antt =====
-- The Gregorian calendar, counted day by day: an independent description of what the closed formula
-- of src/search/query.rs computes.
use dsearch.Base.{
  ℕ, zero, suc, ◌+◌, ◌-◌, ◌*◌, ◌/◌, ◌%◌, ◌≡◌, Bool, not, ◌&&◌, ◌||◌, ◌==◌, if◌then◌else◌, arith,
}

abbrev pub is_leap : ℕ → Bool
is_leap y = (y % 4 == 0) && (not (y % 100 == 0) || (y % 400 == 0))

abbrev pub days_in_year : ℕ → ℕ
days_in_year y = if is_leap y then 366 else 365

unfoldable pub days_in_month : ℕ → ℕ → ℕ
days_in_month y m =
    if m == 2
    then (if is_leap y then 29 else 28)
    else if (m == 4) || ((m == 6) || ((m == 9) || (m == 11)))
    then 30
    else 31

-- The days of the years before a year, from the year 1 on.
unfoldable pub days_before_year : ℕ → ℕ
days_before_year zero = 0
days_before_year (suc zero) = 0
days_before_year (suc (suc y)) = days_before_year (suc y) + days_in_year (suc y)

-- The days of the months before a month, from January on.
unfoldable pub days_before_month : ℕ → ℕ → ℕ
days_before_month y zero = 0
days_before_month y (suc zero) = 0
days_before_month y (suc (suc m)) = days_before_month y (suc m) + days_in_month y (suc m)

-- The number of a date; the 1st of January of the year 1 has the number 1.
unfoldable pub ordinal : ℕ → ℕ → ℕ → ℕ
ordinal y m d = days_before_year y + days_before_month y m + d

-- Years in closed form.
pub days_before_year-suc : (y : ℕ) → days_before_year (suc y) ≡ y * 365 + y / 4 - y / 100 + y / 400
unfolding days_before_year
days_before_year-suc zero = omega arith
days_before_year-suc (suc y) = ground (arith, days_before_year-suc y)
