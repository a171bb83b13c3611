-- ===== src/Tz/Convert.antt =====
-- `SystemTimeToTzSpecificLocalTime_compat` and `TzSpecificLocalTimeToSystemTime_compat` of
-- src/legacy/shared/tzapi.c.
use clamav_win.Base.{
  ℕ, ◌+◌, ◌-◌, ◌*◌, ◌/◌, ◌%◌, ◌^◌, Bool, not, ◌&&◌, ◌||◌, Option, none, some, ◌==◌, if◌then◌else◌,
}
use clamav_win.Base.Int.{ℤ, pos, negsuc, ◌+ℤ◌, ltb_ℤ, is_zero_ℤ}
use clamav_win.Tz.Calendar.{SystemTime, compare_system_time}
use clamav_win.Tz.Transition.{
  compute_transition_date, TimeZone, invalid_parameter, from_system, Result, ok, failed,
}

pub record FileTime : Type 0 where
  pub low : ℕ
  pub high : ℕ

-- `SystemTimeToFileTime` and `FileTimeToSystemTime` of Windows; `none` is FALSE.
pub record Clock : Type 0 where
  pub to_file_time : SystemTime → Option FileTime
  pub to_system_time : FileTime → Option SystemTime

abbrev pub u64_mod : ℕ
u64_mod = 2 ^ 64

-- The 64-bit number of a FILETIME. The low half is below 2 ^ 32, so `|` is a sum.
abbrev pub join_file_time : FileTime → ℕ
join_file_time f = (f.high * 2 ^ 32 + f.low) % u64_mod

abbrev pub split_file_time : ℕ → FileTime
split_file_time n = record { low = n % 2 ^ 32; high = n / 2 ^ 32 % 2 ^ 32 }

-- A cast of an int to ULONGLONG.
abbrev pub u64_of : ℤ → ℕ
u64_of (pos n) = n % u64_mod
u64_of (negsuc n) = u64_mod - 1 - n % u64_mod

-- `(ULONGLONG)bias * 600000000ULL`, from minutes.
unfoldable pub bias_intervals : ℤ → ℕ
bias_intervals bias = u64_of bias * 600000000 % u64_mod

-- `is_dst` of the first function: from the dates of the year's two transitions, each taken from
-- its own rule, and the preliminary local time.
unfoldable pub is_dst : (prelim daylight standard : SystemTime) → Bool
is_dst prelim daylight standard =
    if ltb_ℤ (compare_system_time daylight standard) (pos 0)
    then not (ltb_ℤ (compare_system_time prelim daylight) (pos 0))
      && ltb_ℤ (compare_system_time prelim standard) (pos 0)
    else ltb_ℤ (compare_system_time prelim standard) (pos 0)
      || not (ltb_ℤ (compare_system_time prelim daylight) (pos 0))

unfoldable pub has_transitions : TimeZone → Bool
has_transitions zone = not ((zone.standard_date).month == 0 || (zone.daylight_date).month == 0)

-- The bias of an instant whose preliminary local time is `prelim`, in a zone with transitions.
unfoldable pub effective_bias : TimeZone → SystemTime → ℤ
effective_bias zone prelim =
    let standard = compute_transition_date prelim.year zone.standard_date in
    let daylight = compute_transition_date prelim.year zone.daylight_date in
    zone.bias
    +ℤ (if is_dst prelim daylight standard then zone.daylight_bias else zone.standard_bias)

module _ (clock : Clock) where
  open clock use {to_file_time, to_system_time}

  -- A UTC number less a number of intervals, as a SYSTEMTIME.
  abbrev pub local_after : ℕ → ℕ → Option SystemTime
  local_after universal intervals =
      to_system_time (split_file_time ((universal + u64_mod - intervals) % u64_mod))

  unfoldable pub to_local_from : TimeZone → (universal : ℕ) → Option SystemTime → Option SystemTime
  to_local_from zone universal none = none
  to_local_from zone universal (some prelim) =
      if has_transitions zone
      then local_after universal (bias_intervals (effective_bias zone prelim))
      else some prelim

  unfoldable pub to_local_number : TimeZone → Option FileTime → Option SystemTime
  unfolding to_local_from
  to_local_number zone none = none
  to_local_number zone (some f) =
      let universal = join_file_time f in
      to_local_from zone universal (local_after universal (bias_intervals zone.bias))

  -- `SystemTimeToTzSpecificLocalTime_compat`; `none` is FALSE.
  unfoldable pub system_time_to_local : TimeZone → SystemTime → Option SystemTime
  unfolding to_local_number
  system_time_to_local zone time = to_local_number zone (to_file_time time)

-- What an attempt of the inverse function found: a Windows call failed, the candidate is right, or
-- it leads back to another local time.
pub data Attempt : Type 0 where
  broken : Attempt
  matches : SystemTime → Attempt
  differs : Attempt

unfoldable pub compare_back : SystemTime → SystemTime → Option SystemTime → Attempt
compare_back local candidate none = broken
compare_back local candidate (some back) =
    if is_zero_ℤ (compare_system_time local back) then matches candidate else differs

unfoldable pub second_attempt : Attempt → Result SystemTime
second_attempt broken = failed from_system
second_attempt (matches utc) = ok utc
second_attempt differs = failed invalid_parameter

unfoldable pub first_attempt : Attempt → Attempt → Result SystemTime
unfolding second_attempt
first_attempt broken next = failed from_system
first_attempt (matches utc) next = ok utc
first_attempt differs next = second_attempt next

-- The inverse calls Windows' own `SystemTimeToTzSpecificLocalTime`, `to_local`.
module _ (clock : Clock) (to_local : TimeZone → SystemTime → Option SystemTime) where
  open clock use {to_file_time, to_system_time}

  unfoldable pub attempt_candidate : TimeZone → SystemTime → Option SystemTime → Attempt
  unfolding compare_back
  attempt_candidate zone local none = broken
  attempt_candidate zone local (some candidate) =
      compare_back local candidate (to_local zone candidate)

  -- The UTC time that `local`, with the number `number`, stands for if `bias` is in effect.
  abbrev pub candidate_at : ℕ → ℤ → Option SystemTime
  candidate_at number bias =
      to_system_time (split_file_time ((number + bias_intervals bias) % u64_mod))

  unfoldable pub attempt : TimeZone → SystemTime → ℕ → ℤ → Attempt
  unfolding attempt_candidate
  attempt zone local number bias = attempt_candidate zone local (candidate_at number bias)

  unfoldable pub from_local_number : TimeZone → SystemTime → Option FileTime → Result SystemTime
  unfolding first_attempt
  from_local_number zone local none = failed from_system
  from_local_number zone local (some f) =
      let number = join_file_time f in
      first_attempt (attempt zone local number (zone.bias +ℤ zone.daylight_bias))
        (attempt zone local number (zone.bias +ℤ zone.standard_bias))

  -- `TzSpecificLocalTimeToSystemTime_compat`.
  unfoldable pub local_to_system_time : TimeZone → SystemTime → Result SystemTime
  unfolding from_local_number
  local_to_system_time zone local = from_local_number zone local (to_file_time local)
