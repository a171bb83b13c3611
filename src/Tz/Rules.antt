-- ===== src/Tz/Rules.antt =====
-- `ComputeTransitionDate` finds the day that a rule of a time zone means.
use clamav_win.Base.{ℕ, suc, ◌+◌, ◌-◌, ◌*◌, ◌/◌, ◌%◌, ◌≤◌, ◌<◌, ◌≡◌, arith}
use clamav_win.Tz.Calendar.{SystemTime, days_in_month, day_of_week}
use clamav_win.Tz.Transition.{nth_day, last_day, compute_transition_date}
use clamav_win.Tz.Weekday.{day_of_week-lt, day_of_week-add}

pub days_in_month_bounds :
    (year month : ℕ)
    → 1 ≤ month
    → month ≤ 12
    → (28 ≤ days_in_month year month) × (days_in_month year month ≤ 31)
unfolding days_in_month
days_in_month_bounds year
      (suc (suc (suc (suc (suc (suc (suc (suc (suc (suc (suc (suc (suc m))))))))))))) lo hi =
    absurd (omega arith)
days_in_month_bounds year month lo hi = ground arith

nth_day_lem :
    (first desired nth days : ℕ)
    → first < 7
    → desired < 7
    → 1 ≤ nth
    → nth ≤ 4
    → 28 ≤ days
    → nth_day first desired nth days ≡ 1 + (desired + 7 - first) % 7 + (nth - 1) * 7
unfolding nth_day
nth_day_lem first desired nth days hf hd lo hi hs = ground arith

last_day_lem :
    (last desired days : ℕ)
    → last < 7
    → desired < 7
    → last_day last desired days ≡ days - (last + 7 - desired) % 7
unfolding last_day
last_day_lem last desired days hl hd = ground arith

-- Days of the month that are `n` days after its first.
weekday_from_first :
    (year month n desired : ℕ)
    → 1 ≤ year
    → 1 ≤ month
    → month ≤ 12
    → desired < 7
    → n % 7 ≡ (desired + 7 - day_of_week year month 1) % 7
    → day_of_week year month (1 + n) ≡ desired
weekday_from_first year month n desired hy lo hi hw e =
    omega (arith, day_of_week-lt year month 1, day_of_week-add year month 1 n hy lo hi)

-- and those `n` days before a day of it
weekday_before :
    (year month day n desired : ℕ)
    → 1 ≤ year
    → 1 ≤ month
    → month ≤ 12
    → desired < 7
    → n ≡ (day_of_week year month (day + n) + 7 - desired) % 7
    → day_of_week year month day ≡ desired
weekday_before year month day n desired hy lo hi hw e =
    omega (arith, day_of_week-lt year month day, day_of_week-add year month day n hy lo hi)

day-compute_nth :
    (year : ℕ) (rule : SystemTime)
    → 1 ≤ rule.month
    → rule.day ≤ 4
    → (compute_transition_date year rule).day
      ≡ nth_day
          (day_of_week year rule.month 1)
          rule.day_of_week
          rule.day
          (days_in_month year rule.month)
unfolding compute_transition_date
day-compute_nth year rule lo hi = ground arith

day-compute_last :
    (year : ℕ) (rule : SystemTime)
    → 1 ≤ rule.month
    → 5 ≤ rule.day
    → (compute_transition_date year rule).day
      ≡ last_day
          (day_of_week year rule.month (days_in_month year rule.month))
          rule.day_of_week
          (days_in_month year rule.month)
unfolding compute_transition_date
day-compute_last year rule lo hi = ground arith

-- A rule for the first to fourth `day_of_week` of a month gives that very day: a day of the month,
-- on that weekday, with exactly `day - 1` such weekdays of the month before it.
pub transition-nth_weekday :
    (year : ℕ) (rule : SystemTime)
    → 1 ≤ year
    → 1 ≤ rule.month
    → rule.month ≤ 12
    → 1 ≤ rule.day
    → rule.day ≤ 4
    → rule.day_of_week < 7
    → let found = (compute_transition_date year rule).day in
      (1 ≤ found)
      × (found ≤ days_in_month year rule.month)
      × (day_of_week year rule.month found ≡ rule.day_of_week)
      × ((found - 1) / 7 ≡ rule.day - 1)
transition-nth_weekday year rule hy lo hi dlo dhi hw = rw found_day (
  omega arith,
  omega (arith, days_in_month_bounds year month lo hi),
  weekday_from_first year month n desired hy lo hi hw (omega arith),
  omega arith,
)
  where
    open rule use {month, day_of_week as desired}

    n : ℕ
    n = (desired + 7 - day_of_week year month 1) % 7 + (rule.day - 1) * 7

    found_day : (compute_transition_date year rule).day ≡ 1 + n
    found_day = omega (
      arith,
      day-compute_nth year rule lo dhi,
      days_in_month_bounds year month lo hi,
      day_of_week-lt year month 1,
      nth_day_lem (day_of_week year month 1) desired rule.day (days_in_month year month),
    )

-- A rule whose day is 5 or more gives the last such weekday of the month: a day of the month, on
-- that weekday, with no room for another a week later.
pub transition-last_weekday :
    (year : ℕ) (rule : SystemTime)
    → 1 ≤ year
    → 1 ≤ rule.month
    → rule.month ≤ 12
    → 5 ≤ rule.day
    → rule.day_of_week < 7
    → let found = (compute_transition_date year rule).day in
      (1 ≤ found)
      × (found ≤ days_in_month year rule.month)
      × (day_of_week year rule.month found ≡ rule.day_of_week)
      × (days_in_month year rule.month < found + 7)
transition-last_weekday year rule hy lo hi dlo hw = rw found_day (
  omega (arith, bounds),
  omega (arith, bounds),
  weekday_before year month (days - n) n desired hy lo hi hw (rw back),
  omega (arith, bounds),
)
  where
    open rule use {month, day_of_week as desired}

    days : ℕ
    days = days_in_month year month

    n : ℕ
    n = (day_of_week year month days + 7 - desired) % 7

    bounds : (28 ≤ days) × (days ≤ 31)
    bounds = days_in_month_bounds year month lo hi

    back : days - n + n ≡ days
    back = omega (arith, bounds)

    found_day : (compute_transition_date year rule).day ≡ days - n
    found_day = omega (
      arith,
      day-compute_last year rule lo dlo,
      day_of_week-lt year month days,
      last_day_lem (day_of_week year month days) desired days,
      bounds,
    )
