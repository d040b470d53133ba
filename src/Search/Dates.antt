-- ===== src/Search/Dates.antt =====
-- The dates of search queries (src/search/query.rs).
pub mod Calendar
pub mod Exact
use dsearch.Base.{
  ℕ, ◌+◌, ◌-◌, ◌*◌, ◌/◌, ◌%◌, Bool, true, false, not, ◌&&◌, ◌||◌, Option, none, some, List, [], ◌∷◌,
  ltb, leb, ◌==◌, if◌then◌else◌, Text, u32_mod, u64_mod,
}

abbrev pub i32_max : ℕ
i32_max = 2147483647

-- The value of a text of digits in base 10, from what stands before.
unfoldable pub digits_value : ℕ → Text → Option ℕ
digits_value n [] = some n
digits_value n (c ∷ s) =
    let rest = digits_value (n * 10 + (c - 48)) s in if leb 48 c && leb c 57 then rest else none

abbrev pub up_to : ℕ → Option ℕ → Option ℕ
up_to max none = none
up_to max (some n) = if leb n max then some n else none

-- `str::parse` at an integer type with this greatest value, for texts without a minus sign: a plus
-- sign (43) is allowed; no digits, another character or too large a number is an error.
unfoldable pub parse_number : ℕ → Text → Option ℕ
unfolding digits_value
parse_number max [] = none
parse_number max (c ∷ []) = up_to max (digits_value 0 (c ∷ []))
parse_number max (c ∷ d ∷ s) =
    if c == 43 then up_to max (digits_value 0 (d ∷ s)) else up_to max (digits_value 0 (c ∷ d ∷ s))

-- The day count of a date of a year from 0 on, before the code takes off the 719468 days up to
-- 1970. In January and February of the year 0 the code computes with the year -1 and comes to less
-- than those; 0 stands for it.
unfoldable pub days_from_civil : ℕ → ℕ → ℕ → ℕ
days_from_civil year m d =
    let y = if leb m 2 then year - 1 else year in
    let era = y / 400 in
    let yoe = y - era * 400 in
    let doy = (153 * (if ltb 2 m then m - 3 else m + 9) + 2) / 5 + d - 1 in
    let doe = yoe * 365 + yoe / 4 - yoe / 100 + doy in
    if year == 0 && leb m 2 then 0 else era * 146097 + doe

abbrev pub epoch_days : ℕ
epoch_days = 719468

-- The seconds of a date since 1970, if the month and the day are in range and it is not before.
unfoldable pub date_seconds : ℕ → ℕ → ℕ → Option ℕ
date_seconds y m d =
    if not (leb 1 m && leb m 12)
    then none
    else if not (leb 1 d && leb d 31)
    then none
    else if ltb (days_from_civil y m d) epoch_days
    then none
    else some ((days_from_civil y m d - epoch_days) * 86400)

abbrev pub begin_part : ℕ → List Text → List Text
begin_part c [] = (c ∷ []) ∷ []
begin_part c (w ∷ ws) = (c ∷ w) ∷ ws

-- `split('-')`
unfoldable pub split_dash : Text → List Text
split_dash [] = [] ∷ []
split_dash (c ∷ s) = let rest = split_dash s in if c == 45 then [] ∷ rest else begin_part c rest

unfoldable pub date_of_parts : Option ℕ → Option ℕ → Option ℕ → Option ℕ
date_of_parts (some y) (some m) (some d) = date_seconds y m d
date_of_parts _ _ _ = none

unfoldable pub parse_date_parts : List Text → Option ℕ
parse_date_parts (y ∷ m ∷ d ∷ []) =
    date_of_parts (parse_number i32_max y) (parse_number (u32_mod - 1) m)
      (parse_number (u32_mod - 1) d)
parse_date_parts _ = none

unfoldable pub parse_date_value : Text → Option ℕ
parse_date_value value = elim (parse_number (u64_mod - 1) value) [
  | some ts ↦ some ts
  | none ↦ parse_date_parts (split_dash value)
]
