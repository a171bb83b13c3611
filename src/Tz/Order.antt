-- ===== src/Tz/Order.antt =====
-- `CompareSystemTime` against the number of milliseconds that its fields make up.
use clamav_win.Base.{ℕ, ◌+◌, ◌*◌, ◌<◌, ◌≡◌, ◌^◌, ap, arith, ltb, if◌then◌else◌, not, ◌==◌}
use clamav_win.Base.Int.{ℤ, pos, ◌-ℤ◌, ltb_ℤ, is_zero_ℤ}
use clamav_win.Tz.Calendar.{SystemTime, compare_system_time}

abbrev word : ℕ
word = 65536

-- Every field but the weekday, as the digits of one number, the year first.
pub time_key : SystemTime → ℕ
time_key t =
    t.year * word ^ 6
    + (t.month * word ^ 5
        + (t.day * word ^ 4
            + (t.hour * word ^ 3 + (t.minute * word ^ 2 + (t.second * word + t.milliseconds)))))

-- The fields fit a WORD.
pub record FitsWord (t : SystemTime) : Type 0 where
  pub month_fits : t.month < word
  pub day_fits : t.day < word
  pub hour_fits : t.hour < word
  pub minute_fits : t.minute < word
  pub second_fits : t.second < word
  pub milliseconds_fits : t.milliseconds < word

-- A signed result tells how two numbers compare.
abbrev pub Tells : ℤ → ℕ → ℕ → Type 0
Tells r p q = (ltb_ℤ r (pos 0) ≡ ltb p q) × (is_zero_ℤ r ≡ (p == q))

Tells-last : (p q : ℕ) → Tells (pos p -ℤ pos q) p q
unfolding ◌-ℤ◌
Tells-last p q = ground arith

digit_lt : (x y w p q : ℕ) → p < w → x < y → x * w + p < y * w + q
digit_lt x y w p q h lt = grind arith

Tells-digit :
    (x y w p q : ℕ) (r : ℤ)
    → p < w
    → q < w
    → Tells r p q
    → Tells (if not (x == y) then pos x -ℤ pos y else r) (x * w + p) (y * w + q)
unfolding ◌-ℤ◌
Tells-digit x y w p q r hp hq h =
    ground
      (arith, digit_lt x y w p q hp, digit_lt y x w q p hq, ap (λ (t : ℕ). t * w) {x = x} {y = y})

-- Between two times whose fields fit a WORD the sign of `CompareSystemTime` is the order of their keys, and it is 0 just
-- where all fields but the weekday agree.
pub compare-key :
    (a b : SystemTime)
    → FitsWord a
    → FitsWord b
    → (ltb_ℤ (compare_system_time a b) (pos 0) ≡ ltb (time_key a) (time_key b))
      × (is_zero_ℤ (compare_system_time a b) ≡ (time_key a == time_key b))
unfolding compare_system_time time_key
compare-key a b fa fb = Tells-digit a.year b.year (word ^ 6) _ _ _ (omega arith) (omega arith) (
    Tells-digit a.month b.month (word ^ 5) _ _ _ (omega arith) (omega arith) (
      Tells-digit a.day b.day (word ^ 4) _ _ _ (omega arith) (omega arith) (
        Tells-digit a.hour b.hour (word ^ 3) _ _ _ (omega arith) (omega arith) (
          Tells-digit a.minute b.minute (word ^ 2) _ _ _ (omega arith) (omega arith) (
            Tells-digit a.second b.second word _ _ _ fa.milliseconds_fits fb.milliseconds_fits
              (Tells-last a.milliseconds b.milliseconds))))))
