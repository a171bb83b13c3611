-- ===== src/Tz/Calendar.antt =====
-- `DaysInMonth`, `day_of_week` and `CompareSystemTime` of src/legacy/shared/tzapi.c.
use clamav_win.Base.{
  ℕ, ◌+◌, ◌-◌, ◌/◌, ◌%◌, not, ◌&&◌, ◌||◌, List, [], ◌∷◌, ltb, ◌==◌, if◌then◌else◌, get_or,
}
use clamav_win.Base.Int.{ℤ, pos, ◌-ℤ◌}

-- SYSTEMTIME, each field a WORD.
pub record SystemTime : Type 0 where
  pub year : ℕ
  pub month : ℕ
  pub day_of_week : ℕ
  pub day : ℕ
  pub hour : ℕ
  pub minute : ℕ
  pub second : ℕ
  pub milliseconds : ℕ

abbrev month_days : List ℕ
month_days = 31 ∷ 28 ∷ 31 ∷ 30 ∷ 31 ∷ 30 ∷ 31 ∷ 31 ∷ 30 ∷ 31 ∷ 30 ∷ 31 ∷ []

-- `DaysInMonth`.
unfoldable pub days_in_month : ℕ → ℕ → ℕ
days_in_month year month =
    let leap = (year % 4 == 0 && not (year % 100 == 0)) || year % 400 == 0 in
    if month == 2 && leap then 29 else get_or month_days (month - 1) 0

abbrev sakamoto : List ℕ
sakamoto = 0 ∷ 3 ∷ 2 ∷ 5 ∷ 0 ∷ 3 ∷ 5 ∷ 1 ∷ 4 ∷ 6 ∷ 2 ∷ 4 ∷ []

-- The sum that `day_of_week` reduces, for a year that is not negative.
unfoldable pub weekday_sum : ℕ → ℕ → ℕ → ℕ
weekday_sum year month day =
    year + year / 4 - year / 100 + year / 400 + get_or sakamoto (month - 1) 0 + day

-- `day_of_week`. In January and February of year 0 the C year is -1, whose quotients are 0.
unfoldable pub day_of_week : ℕ → ℕ → ℕ → ℕ
unfolding weekday_sum
day_of_week year month day =
    if ltb month 3
    then (if year == 0
        then (get_or sakamoto (month - 1) 0 + day - 1) % 7
        else weekday_sum (year - 1) month day % 7)
    else weekday_sum year month day % 7

-- `CompareSystemTime`: the difference of the first fields that differ.
unfoldable pub compare_system_time : SystemTime → SystemTime → ℤ
compare_system_time a b =
    if not (a.year == b.year)
    then pos a.year -ℤ pos b.year
    else if not (a.month == b.month)
    then pos a.month -ℤ pos b.month
    else if not (a.day == b.day)
    then pos a.day -ℤ pos b.day
    else if not (a.hour == b.hour)
    then pos a.hour -ℤ pos b.hour
    else if not (a.minute == b.minute)
    then pos a.minute -ℤ pos b.minute
    else if not (a.second == b.second)
    then pos a.second -ℤ pos b.second
    else pos a.milliseconds -ℤ pos b.milliseconds
