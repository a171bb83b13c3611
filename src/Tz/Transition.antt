-- ===== src/Tz/Transition.antt =====
-- `ComputeTransitionDate` and `GetTimeZoneInformationForYear` of src/legacy/shared/tzapi.c.
use clamav_win.Base.{
  ℕ, ◌+◌, ◌-◌, ◌*◌, ◌%◌, ◌^◌, Bool, false, Option, none, some, List, [], ltb, leb, ◌==◌,
  if◌then◌else◌,
}
use clamav_win.Base.Int.{ℤ}
use clamav_win.Tz.Calendar.{SystemTime, days_in_month, day_of_week}

-- A signed value cast to WORD, given with 7 added.
abbrev word_less_seven : ℕ → ℕ
word_less_seven n = (n + 2 ^ 16 - 7) % 2 ^ 16

-- The day of the n-th `desired` weekday, where the first of the month is a `first`. The C value may
-- be negative if `nth` is 0, so it is computed with 7 added.
unfoldable pub nth_day : (first desired nth days : ℕ) → ℕ
nth_day first desired nth days =
    let shifted = 1 + (desired + 7 - first) % 7 + nth * 7 in
    word_less_seven (if ltb (days + 7) shifted then shifted - 7 else shifted)

-- The day of the last `desired` weekday, where the last of the month is a `last`. Where the C
-- dividend is negative its remainder is, too.
unfoldable pub last_day : (last desired days : ℕ) → ℕ
last_day last desired days =
    if leb desired (last + 7)
    then days - (last + 7 - desired) % 7
    else (days + (desired - (last + 7)) % 7) % 2 ^ 16

-- `ComputeTransitionDate`.
unfoldable pub compute_transition_date : ℕ → SystemTime → SystemTime
compute_transition_date year rule =
    let days = days_in_month year rule.month in
    let first = day_of_week year rule.month 1 in
    let last = day_of_week year rule.month days in
    if rule.month == 0
    then record rule { year = year; day = 0; day_of_week = 0 }
    else if ltb rule.day 5
    then record rule { year = year; day = nth_day first rule.day_of_week rule.day days }
    else record rule { year = year; day = last_day last rule.day_of_week days }

-- TIME_ZONE_INFORMATION; a name is an array of WCHAR.
pub record TimeZone : Type 0 where
  pub bias : ℤ
  pub standard_name : List ℕ
  pub standard_date : SystemTime
  pub standard_bias : ℤ
  pub daylight_name : List ℕ
  pub daylight_date : SystemTime
  pub daylight_bias : ℤ

-- DYNAMIC_TIME_ZONE_INFORMATION.
pub record DynamicTimeZone : Type 0 where
  pub zone : TimeZone
  pub key_name : List ℕ
  pub daylight_time_disabled : Bool

pub data Failure : Type 0 where
  invalid_parameter : Failure  -- set by the function
  from_system : Failure  -- left by the Windows function that failed

pub data Result (A : Type 0) : Type 0 where
  ok : A → Result A
  failed : Failure → Result A

-- The zone that the function works on; `current` is what GetTimeZoneInformation gives.
chosen_zone : (current : Option TimeZone) → Option DynamicTimeZone → Option DynamicTimeZone
chosen_zone current (some d) = some d
chosen_zone (some z) none =
    some (record { zone = z; key_name = []; daylight_time_disabled = false })
chosen_zone none none = none

zone_for_year : ℕ → Option DynamicTimeZone → Result TimeZone
zone_for_year year none = failed from_system
zone_for_year year (some d) = ok (record (d.zone) {
  standard_date = compute_transition_date year (d.zone).standard_date;
  daylight_date = compute_transition_date year (d.zone).daylight_date;
})

-- `GetTimeZoneInformationForYear`; `has_output` says that `ptzi` is not NULL.
unfoldable pub get_time_zone_information_for_year :
    (current : Option TimeZone) → ℕ → Option DynamicTimeZone → (has_output : Bool) → Result TimeZone
unfolding chosen_zone zone_for_year
get_time_zone_information_for_year current year dtzi has_output =
    if has_output then zone_for_year year (chosen_zone current dtzi) else failed invalid_parameter
