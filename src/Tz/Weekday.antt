-- ===== src/Tz/Weekday.antt =====
-- `day_of_week` against a count of days by months and years.
use clamav_win.Base.{ℕ, zero, suc, ◌+◌, ◌-◌, ◌*◌, ◌/◌, ◌%◌, ◌≤◌, ◌<◌, ◌≡◌, refl, arith}
use clamav_win.Tz.Calendar.{days_in_month, day_of_week}

-- Days before the first of a month of the same year.
pub days_before_month : ℕ → ℕ → ℕ
days_before_month year zero = 0
days_before_month year (suc zero) = 0
days_before_month year (suc (suc m)) = days_before_month year (suc m) + days_in_month year (suc m)

-- Days before the first of January of a year, counted from year 1.
pub days_before_year : ℕ → ℕ
days_before_year zero = 0
days_before_year (suc zero) = 0
days_before_year (suc (suc p)) = days_before_year (suc p) + days_before_month (suc p) 13

-- 1 for Monday, the first of January of year 1.
pub day_number : ℕ → ℕ → ℕ → ℕ
unfolding days_before_month days_before_year
day_number year month day = days_before_year year + days_before_month year month + day

year_length : (y : ℕ) → days_before_month y 13 ≡ 337 + days_in_month y 2
unfolding days_before_month days_in_month
year_length y = ground arith

before_year_step :
    (p : ℕ)
    → (suc p) * 365 + suc p / 4 - suc p / 100 + suc p / 400
      ≡ p * 365 + p / 4 - p / 100 + p / 400 + (337 + days_in_month (suc p) 2)
unfolding days_in_month
before_year_step p = ground arith

-- The closed form: with the years before `suc p`.
days_before_year_closed : (p : ℕ) → days_before_year (suc p) ≡ p * 365 + p / 4 - p / 100 + p / 400
unfolding days_before_year
days_before_year_closed zero = refl
days_before_year_closed (suc p) =
    omega (arith, days_before_year_closed p, year_length (suc p), before_year_step p)

-- The first of March on, a leap day of the year itself counts.
leap_day :
    (p : ℕ)
    → p * 365 + p / 4 - p / 100 + p / 400 + days_in_month (suc p) 2 + 337
      ≡ suc p * 365 + suc p / 4 - suc p / 100 + suc p / 400
leap_day p = omega (arith, before_year_step p)

winter :
    (p month day : ℕ)
    → 1 ≤ month
    → month ≤ 2
    → day_of_week (suc p) month day ≡ day_number (suc p) month day % 7
unfolding day_of_week day_number days_in_month
winter p (suc (suc (suc m))) day lo hi = absurd (omega arith)
winter p month day lo hi = ground (arith, days_before_year_closed p)

-- The first clause splits the months, so the second is checked for each of them.
from_march :
    (p m day : ℕ)
    → m < 10
    → day_of_week (suc p) (suc (suc (suc m))) day ≡ day_number (suc p) (suc (suc (suc m))) day % 7
unfolding day_of_week day_number days_in_month
from_march p (suc (suc (suc (suc (suc (suc (suc (suc (suc (suc m)))))))))) day hi =
    absurd (omega arith)
from_march p m day hi = ground (arith, days_before_year_closed p, leap_day p)

day_of_week-suc :
    (p month day : ℕ)
    → 1 ≤ month
    → month ≤ 12
    → day_of_week (suc p) month day ≡ day_number (suc p) month day % 7
day_of_week-suc p (suc (suc (suc m))) day lo hi = from_march p m day (omega arith)
day_of_week-suc p zero day lo hi = absurd (omega arith)
day_of_week-suc p (suc zero) day lo hi = winter p 1 day lo (omega arith)
day_of_week-suc p (suc (suc zero)) day lo hi = winter p 2 day lo (omega arith)

-- In every year from 1 on and every month, `day_of_week` is the number of days since the eve of
-- the first of January of year 1, modulo 7.
pub day_of_week-day_number :
    (year month day : ℕ)
    → 1 ≤ year
    → 1 ≤ month
    → month ≤ 12
    → day_of_week year month day ≡ day_number year month day % 7
day_of_week-day_number zero month day hy lo hi = absurd (omega arith)
day_of_week-day_number (suc p) month day hy lo hi = day_of_week-suc p month day lo hi

pub day_of_week-lt : (year month day : ℕ) → day_of_week year month day < 7
unfolding day_of_week
day_of_week-lt year month day = ground arith

-- Later days of one month.
pub day_of_week-add :
    (year month day n : ℕ)
    → 1 ≤ year
    → 1 ≤ month
    → month ≤ 12
    → day_of_week year month (day + n) ≡ (day_of_week year month day + n) % 7
unfolding day_number
day_of_week-add year month day n hy lo hi = omega (
  arith,
  day_of_week-day_number year month day hy lo hi,
  day_of_week-day_number year month (day + n) hy lo hi,
)
