-- ===== src/Tz/Universal.antt =====
-- What `TzSpecificLocalTimeToSystemTime_compat` guarantees about its result.
use clamav_win.Base.{if◌then◌else◌, ◌≡◌, refl, Bool, true, false, Option, none, some, ◌⊎◌, inl, inr}
use clamav_win.Base.Int.{◌+ℤ◌, is_zero_ℤ}
use clamav_win.Tz.Calendar.{SystemTime, compare_system_time}
use clamav_win.Tz.Transition.{TimeZone, invalid_parameter, from_system, Result, ok, failed}
use clamav_win.Tz.Convert.{
  FileTime, Clock, join_file_time, Attempt, broken, matches, differs, compare_back, first_attempt,
  attempt_candidate, candidate_at, attempt, local_to_system_time,
}

module _ (clock : Clock) (to_local : TimeZone → SystemTime → Option SystemTime) (zone : TimeZone)
    (local : SystemTime) where
  -- The UTC time `utc` leads back to the local time that was given.
  abbrev pub LeadsBack : SystemTime → Type 0
  LeadsBack utc =
      (back : SystemTime) × (to_local zone utc ≡ some back)
      × (is_zero_ℤ (compare_system_time local back) ≡ true)

  abbrev pub LeadsElsewhere : SystemTime → Type 0
  LeadsElsewhere utc =
      (back : SystemTime) × (to_local zone utc ≡ some back)
      × (is_zero_ℤ (compare_system_time local back) ≡ false)

  -- A call of Windows fails for a candidate: it has no SYSTEMTIME, or the way back fails.
  abbrev pub Fails : Option SystemTime → Type 0
  Fails candidate =
      (candidate ≡ none)
      ⊎ ((utc : SystemTime) × (candidate ≡ some utc) × (to_local zone utc ≡ none))

  abbrev pub Explains : Option SystemTime → Attempt → Type 0
  Explains candidate broken = Fails candidate
  Explains candidate (matches utc) = (candidate ≡ some utc) × LeadsBack utc
  Explains candidate differs = (utc : SystemTime) × (candidate ≡ some utc) × LeadsElsewhere utc

  explain_back :
      (utc : SystemTime) (back : Option SystemTime)
      → to_local zone utc ≡ back
      → Explains (some utc) (compare_back local utc back)
  unfolding compare_back
  explain_back utc none e = inr (utc, refl, e)
  explain_back utc (some back) e = split (is_zero_ℤ (compare_system_time local back)) refl
    where
      split :
          (b : Bool)
          → is_zero_ℤ (compare_system_time local back) ≡ b
          → Explains (some utc) (if b then matches utc else differs)
      split true z = (refl, (back, e, z))
      split false z = (utc, refl, (back, e, z))

  explain_candidate :
      (candidate : Option SystemTime)
      → Explains candidate (attempt_candidate clock to_local zone local candidate)
  unfolding attempt_candidate
  explain_candidate none = inl refl
  explain_candidate (some utc) = explain_back utc (to_local zone utc) refl

  -- The UTC times that are tried for a local time with this FILETIME.
  abbrev pub in_daylight_time : FileTime → Option SystemTime
  in_daylight_time f =
      candidate_at clock to_local (join_file_time f) (zone.bias +ℤ zone.daylight_bias)

  abbrev pub in_standard_time : FileTime → Option SystemTime
  in_standard_time f =
      candidate_at clock to_local (join_file_time f) (zone.bias +ℤ zone.standard_bias)

  -- What a result says.
  abbrev pub Outcome : FileTime → Result SystemTime → Type 0
  Outcome f (ok utc) =
      LeadsBack utc
      × ((in_daylight_time f ≡ some utc)
          ⊎ ((in_standard_time f ≡ some utc)
              × ((first : SystemTime) × (in_daylight_time f ≡ some first) × LeadsElsewhere first)))
  Outcome f (failed invalid_parameter) =
      (first : SystemTime) × (second : SystemTime) × (in_daylight_time f ≡ some first)
      × (in_standard_time f ≡ some second)
      × LeadsElsewhere first
      × LeadsElsewhere second
  Outcome f (failed from_system) =
      Fails (in_daylight_time f)
      ⊎ (((first : SystemTime) × (in_daylight_time f ≡ some first) × LeadsElsewhere first)
          × Fails (in_standard_time f))

  decide-Outcome :
      (f : FileTime) (one two : Attempt)
      → Explains (in_daylight_time f) one
      → Explains (in_standard_time f) two
      → Outcome f (first_attempt one two)
  unfolding first_attempt
  decide-Outcome f broken two e1 e2 = inl e1
  decide-Outcome f (matches utc) two e1 e2 = (e1.1, inl e1.0)
  decide-Outcome f differs broken e1 e2 = inr (e1, e2)
  decide-Outcome f differs (matches utc) e1 e2 = (e2.1, inr (e2.0, e1))
  decide-Outcome f differs differs e1 e2 = (e1.0, e2.0, e1.1, e2.1, e1.2, e2.2)

  -- For a local time that Windows can number: a UTC time that is returned leads back to that local
  -- time, and it is the one with daylight time in effect unless that one leads elsewhere; the error
  -- ERROR_INVALID_PARAMETER is given only where both candidates lead to other local times; and any
  -- other failure is that of a call of Windows for the first candidate, or for the second where the
  -- first one leads elsewhere.
  pub local_to_system_time-Outcome :
      (f : FileTime)
      → clock.to_file_time local ≡ some f
      → Outcome f (local_to_system_time clock to_local zone local)
  unfolding local_to_system_time attempt
  local_to_system_time-Outcome f e = rw e (
      decide-Outcome f _ _ (explain_candidate (in_daylight_time f))
        (explain_candidate (in_standard_time f)))
