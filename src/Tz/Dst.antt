-- ===== src/Tz/Dst.antt =====
-- When `SystemTimeToTzSpecificLocalTime_compat` takes daylight time to be in effect, and by how much
-- it moves the clock.
use clamav_win.Base.{ℕ, ◌+◌, ◌-◌, ◌*◌, ◌%◌, ◌^◌, ◌≤◌, ◌<◌, ◌≡◌, ◌↔◌, ◌⊎◌, true, arith}
use clamav_win.Base.Int.{ℤ, pos, negsuc, pos_part, neg_part}
use clamav_win.Tz.Calendar.{SystemTime}
use clamav_win.Tz.Convert.{is_dst, bias_intervals, u64_mod}
use clamav_win.Tz.Order.{time_key, FitsWord, compare-key}

-- From `start` until `end`, or around the turn of the year where `end` comes first.
abbrev pub InWindow : (start stop key : ℕ) → Type 0
InWindow start stop key =
    ((start < stop) × (start ≤ key) × (key < stop))
    ⊎ ((stop ≤ start) × ((key < stop) ⊎ (start ≤ key)))

-- For times whose fields fit a WORD, daylight time is in effect just where the preliminary local time, which counts the base bias
-- only, is in the window from the daylight transition until the standard transition; the window
-- goes around the turn of the year where the standard transition comes first.
pub is_dst-InWindow :
    (prelim daylight standard : SystemTime)
    → FitsWord prelim
    → FitsWord daylight
    → FitsWord standard
    → (is_dst prelim daylight standard ≡ true)
      ↔ InWindow (time_key daylight) (time_key standard) (time_key prelim)
unfolding is_dst
is_dst-InWindow prelim daylight standard fp fd fs = ground (
  arith,
  compare-key daylight standard fd fs,
  compare-key prelim daylight fp fd,
  compare-key prelim standard fp fs,
)

-- 100 ns in a minute.
abbrev pub per_minute : ℕ
per_minute = 600000000

-- A signed bias in minutes goes through 64-bit arithmetic exactly: where the true result is in
-- range, taking it from a number of intervals gives that result, and adding it gives it back.
pub bias_intervals-exact :
    (number : ℕ) (bias : ℤ)
    → pos_part bias < 2 ^ 32
    → neg_part bias < 2 ^ 32
    → number < u64_mod
    → pos_part bias * per_minute ≤ number
    → number + neg_part bias * per_minute < u64_mod
    → let moved = (number + u64_mod - bias_intervals bias) % u64_mod in
      (moved + pos_part bias * per_minute ≡ number + neg_part bias * per_minute)
      × ((moved + bias_intervals bias) % u64_mod ≡ number)
unfolding bias_intervals
bias_intervals-exact number (pos n) hp hn small lo hi = omega arith
bias_intervals-exact number (negsuc n) hp hn small lo hi = omega arith
