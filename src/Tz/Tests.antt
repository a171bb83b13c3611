-- ===== src/Tz/Tests.antt =====
-- Instances of the theorems on src/legacy/shared/tzapi.c.
use clamav_win.Base.{
  ℕ, ◌+◌, ◌-◌, ◌*◌, ◌/◌, ◌%◌, ◌≤◌, ◌<◌, ◌≡◌, ◌↔◌, refl, true, Option, some, [], arith, ltb, ◌==◌,
}
use clamav_win.Base.Int.{pos, negsuc, ltb_ℤ, is_zero_ℤ}
use clamav_win.Tz.Calendar.{SystemTime, days_in_month, day_of_week, compare_system_time}
use clamav_win.Tz.Transition.{compute_transition_date, TimeZone}
use clamav_win.Tz.Convert.{Clock, is_dst, bias_intervals, u64_mod, local_to_system_time}
use clamav_win.Tz.Weekday.{day_number, day_of_week-day_number}
use clamav_win.Tz.Rules.{transition-nth_weekday, transition-last_weekday}
use clamav_win.Tz.Order.{time_key, FitsWord, compare-key}
use clamav_win.Tz.Dst.{InWindow, per_minute, is_dst-InWindow, bias_intervals-exact}
use clamav_win.Tz.Universal.{Outcome, local_to_system_time-Outcome}

-- The last Sunday of a month at 02:00, and the second one.
abbrev rule : ℕ → ℕ → SystemTime
rule month day = record {
  year = 0;
  month = month;
  day_of_week = 0;
  day = day;
  hour = 2;
  minute = 0;
  second = 0;
  milliseconds = 0;
}

day_of_week-day_number_example : day_of_week 2024 2 29 ≡ day_number 2024 2 29 % 7
day_of_week-day_number_example =
    day_of_week-day_number 2024 2 29 (omega arith) (omega arith) (omega arith)

transition-nth_weekday_example :
    let found = (compute_transition_date 2025 (rule 3 2)).day in
    (1 ≤ found)
    × (found ≤ days_in_month 2025 3)
    × (day_of_week 2025 3 found ≡ 0)
    × ((found - 1) / 7 ≡ 2 - 1)
transition-nth_weekday_example =
    transition-nth_weekday 2025 (rule 3 2) (omega arith) (omega arith) (omega arith) (omega arith)
      (omega arith) (omega arith)

transition-last_weekday_example :
    let found = (compute_transition_date 2025 (rule 10 5)).day in
    (1 ≤ found)
    × (found ≤ days_in_month 2025 10)
    × (day_of_week 2025 10 found ≡ 0)
    × (days_in_month 2025 10 < found + 7)
transition-last_weekday_example =
    transition-last_weekday 2025 (rule 10 5) (omega arith) (omega arith) (omega arith) (omega arith)
      (omega arith)

abbrev march : SystemTime
march = record (rule 3 30) { year = 2025 }

abbrev october : SystemTime
october = record (rule 10 26) { year = 2025 }

abbrev july : SystemTime
july = record (rule 7 4) { year = 2025 }

rule-FitsWord :
    (year month day : ℕ)
    → month < 65536
    → day < 65536
    → FitsWord (record (rule month day) { year = year })
rule-FitsWord year month day hm hd = record {
  month_fits = hm;
  day_fits = hd;
  hour_fits = omega arith;
  minute_fits = omega arith;
  second_fits = omega arith;
  milliseconds_fits = omega arith;
}

compare-key_example :
    (ltb_ℤ (compare_system_time march july) (pos 0) ≡ ltb (time_key march) (time_key july))
    × (is_zero_ℤ (compare_system_time march july) ≡ (time_key march == time_key july))
compare-key_example =
    compare-key march july (rule-FitsWord 2025 3 30 (omega arith) (omega arith))
      (rule-FitsWord 2025 7 4 (omega arith) (omega arith))

is_dst-InWindow_example :
    (is_dst july march october ≡ true)
    ↔ InWindow (time_key march) (time_key october) (time_key july)
is_dst-InWindow_example =
    is_dst-InWindow july march october (rule-FitsWord 2025 7 4 (omega arith) (omega arith))
      (rule-FitsWord 2025 3 30 (omega arith) (omega arith))
      (rule-FitsWord 2025 10 26 (omega arith) (omega arith))

-- One hour east of Greenwich.
bias_intervals-exact_example :
    let moved = (5 + u64_mod - bias_intervals (negsuc 59)) % u64_mod in
    (moved + 0 * per_minute ≡ 5 + 60 * per_minute)
    × ((moved + bias_intervals (negsuc 59)) % u64_mod ≡ 5)
bias_intervals-exact_example =
    bias_intervals-exact 5 (negsuc 59) (omega arith) (omega arith) (omega arith) (omega arith)
      (omega arith)

abbrev zone : TimeZone
zone = record {
  bias = negsuc 59;
  standard_name = [];
  standard_date = rule 10 5;
  standard_bias = pos 0;
  daylight_name = [];
  daylight_date = rule 3 5;
  daylight_bias = negsuc 59;
}

-- A clock with the hour in the high half.
abbrev clock : Clock
clock = record {
  to_file_time = λ t. some (record { low = 0; high = t.hour });
  to_system_time = λ f. some (record july { hour = f.high });
}

abbrev to_local : TimeZone → SystemTime → Option SystemTime
to_local z t = some t

local_to_system_time-Outcome_example :
    Outcome clock to_local zone july
      (record { low = 0; high = 2 })
      (local_to_system_time clock to_local zone july)
local_to_system_time-Outcome_example =
    local_to_system_time-Outcome clock to_local zone july (record { low = 0; high = 2 }) refl
