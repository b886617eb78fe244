-- ===== src/Calendar/Correct.antt =====
-- `epoch_to_datetime` of screen.c finds the date and time that an epoch stands for.
use ikt104_eksamen_oppgave.Base.{
  ℕ, ◌+◌, ◌/◌, ◌%◌, ◌≤◌, ◌<◌, ◌≡◌, refl, arith, ℤ, pos, pos_part, ltb, ltb_ℤ, if◌then◌else◌,
}
use ikt104_eksamen_oppgave.Calendar.{
  DateTime, days_in_year, find_year, find_month, date_and_time, datetime_of, epoch_to_datetime,
  long_max,
}
use ikt104_eksamen_oppgave.Calendar.Spec.{
  days_before_year, days_before_month, day_number, to_epoch, IsDateTime,
}
use ikt104_eksamen_oppgave.Calendar.Years.{
  IsDayOfYear, IsDayOfMonth, find_year-IsDayOfYear, find_month-IsDayOfMonth,
}

year_ends : (days_before_year 1970 ≡ 0) × (days_before_year 2100 ≡ 47482)
unfolding days_before_year
year_ends = (refl, refl)

month_starts : (y : ℕ) → days_before_month y 1 ≡ 0
unfolding days_before_month
month_starts y = refl

year_of : (n : ℕ) → n < 47482 → IsDayOfYear n (find_year 130 1970 n)
year_of n h =
    let r = find_year-IsDayOfYear 130 1970 n refl (omega arith) (omega (arith, year_ends)) in
    record {
      year_from = r.year_from;
      day_fits = r.day_fits;
      counts = omega (arith, r.counts, year_ends);
    }

month_of : (y d : ℕ) → d < days_in_year y → IsDayOfMonth y d (find_month y 12 1 d)
month_of y d h =
    let r = find_month-IsDayOfMonth y 12 1 d refl (omega arith) (omega (arith, month_starts y)) in
    record {
      month_in = r.month_in;
      day_fits = r.day_fits;
      counts = omega (arith, r.counts, month_starts y);
    }

-- A date and time that is right for an epoch.
pub record IsFor (epoch : ℕ) (t : DateTime) : Type 0 where
  pub date_time : IsDateTime t
  pub seconds : to_epoch t ≡ epoch
  pub weekday : t.wday ≡ (day_number t + 4) % 7

month_kept : (m : ℕ) → m ≤ 12 → (if ltb 12 m then 12 else m) ≡ m
month_kept m h = ground arith

date_and_time-IsFor :
    (epoch y d : ℕ) (r : ℕ × ℕ)
    → IsDayOfYear (epoch / 86400) (y, d)
    → IsDayOfMonth y d r
    → IsFor epoch (date_and_time epoch y r)
unfolding date_and_time
date_and_time-IsFor epoch y d (m, d') u v = rw (month_kept m v.month_in.1) (record {
  date_time = omega (arith, u.year_from, v.month_in, v.day_fits);
  seconds = omega (arith, u.counts, v.counts);
  weekday = omega (arith, u.counts, v.counts);
})

datetime_of-IsFor : (epoch : ℕ) → epoch / 86400 < 47482 → IsFor epoch (datetime_of epoch)
unfolding datetime_of
datetime_of-IsFor epoch h =
    let u = year_of (epoch / 86400) h in date_and_time-IsFor epoch _ _ _ u (month_of _ _ u.day_fits)

clamped : (e : ℤ) → (if ltb_ℤ e (pos 0) then 0 else pos_part e) ≡ pos_part e
clamped e = ground arith

-- For every epoch that a `long` holds, `epoch_to_datetime` returns a date of the Gregorian calendar
-- and a time of day that are as many seconds behind the start of 1970 as the epoch says, and the
-- weekday of that date, by the first of January 1970, which was a Thursday; a negative epoch counts
-- as 0.
pub epoch_to_datetime-IsFor :
    (epoch : ℤ) → pos_part epoch ≤ long_max → IsFor (pos_part epoch) (epoch_to_datetime epoch)
unfolding epoch_to_datetime
epoch_to_datetime-IsFor epoch h =
    rw (clamped epoch) (datetime_of-IsFor (pos_part epoch) (omega arith))
