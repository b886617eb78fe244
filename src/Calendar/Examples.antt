-- ===== src/Calendar/Examples.antt =====
-- Runs of the model of screen.c's calendar, and its theorems at concrete epochs.
use ikt104_eksamen_oppgave.Base.{◌≤◌, ◌<◌, pos, ◌≡◌, refl, arith, none, some, codes, decimal}
use ikt104_eksamen_oppgave.Calendar.{
  is_leap, days_in_year, days_in_month, find_year, find_month, date_and_time, datetime_of,
  epoch_to_datetime, long_max, read_epoch, weekday_name, month_name,
}
use ikt104_eksamen_oppgave.Calendar.Correct.{IsFor, epoch_to_datetime-IsFor}
use ikt104_eksamen_oppgave.Calendar.Epoch.{read_epoch-decimal}

-- 2024-02-29 12:34:56, a Thursday.
leap_day :
    epoch_to_datetime (pos 1709210096)
    ≡ record { year = 2024; month = 2; day = 29; hour = 12; min = 34; sec = 56; wday = 4 }
unfolding epoch_to_datetime datetime_of find_year find_month days_in_year days_in_month is_leap
    date_and_time
leap_day = refl

-- The last second of a 32-bit `long`.
last_second :
    epoch_to_datetime (pos long_max)
    ≡ record { year = 2038; month = 1; day = 19; hour = 3; min = 14; sec = 7; wday = 2 }
unfolding epoch_to_datetime datetime_of find_year find_month days_in_year days_in_month is_leap
    date_and_time
last_second = refl

names : (weekday_name (pos 4) ≡ codes "Thursday") × (month_name (pos 2) ≡ codes "Feb")
unfolding weekday_name month_name
names = (refl, refl)

epoch_to_datetime-IsFor_example : IsFor 1709210096 (epoch_to_datetime (pos 1709210096))
epoch_to_datetime-IsFor_example = epoch_to_datetime-IsFor (pos 1709210096) (omega arith)

read_epoch-decimal_example :
    (1709210096 ≤ long_max → read_epoch 0 (decimal 1709210096) ≡ some 1709210096)
    × (long_max < 1709210096 → read_epoch 0 (decimal 1709210096) ≡ none)
read_epoch-decimal_example = read_epoch-decimal 1709210096
