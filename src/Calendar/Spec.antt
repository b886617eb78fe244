-- ===== src/Calendar/Spec.antt =====
-- The calendar as closed formulas, independent of the loops and of the table of screen.c: of
-- Calendar it uses the record of a date and time alone.
use ikt104_eksamen_oppgave.Base.{
  ℕ, zero, suc, ◌+◌, ◌-◌, ◌*◌, ◌/◌, ◌%◌, ◌≤◌, ◌<◌, ◌==◌, ◌||◌, if◌then◌else◌,
}
use ikt104_eksamen_oppgave.Calendar.{DateTime}

-- The days from the first of January 1970 to that of year `y`, by the rule of the Gregorian
-- calendar: 477 leap days come before 1970.
unfoldable pub days_before_year : ℕ → ℕ
days_before_year y = (y - 1970) * 365 + (y - 1) / 4 - (y - 1) / 100 + (y - 1) / 400 - 477

-- The leap day of year `y`: every fourth year has one, but of the years that end a century only
-- every fourth has.
unfoldable pub leap_days : ℕ → ℕ
leap_days y =
    if y % 400 == 0 then 1 else (if y % 100 == 0 then 0 else (if y % 4 == 0 then 1 else 0))

-- The days of month `m`: April, June, September and November have thirty.
unfoldable pub month_length : ℕ → ℕ → ℕ
month_length y m =
    if m == 2 then 28 + leap_days y else (if m == 4 || m == 6 || m == 9 || m == 11 then 30 else 31)

-- The days of year `y` that come before the first of month `m`.
unfoldable pub days_before_month : ℕ → ℕ → ℕ
days_before_month y zero = 0
days_before_month y (suc zero) = 0
days_before_month y (suc (suc m)) = days_before_month y (suc m) + month_length y (suc m)

-- The days from 1970-01-01 to a date.
abbrev pub day_number : DateTime → ℕ
day_number t = days_before_year t.year + days_before_month t.year t.month + (t.day - 1)

-- The seconds from the start of 1970 to a date and time.
abbrev pub to_epoch : DateTime → ℕ
to_epoch t = day_number t * 86400 + t.hour * 3600 + t.min * 60 + t.sec

pub record IsDateTime (t : DateTime) : Type 0 where
  pub year_from : 1970 ≤ t.year
  pub month_in : (1 ≤ t.month) × (t.month ≤ 12)
  pub day_in : (1 ≤ t.day) × (t.day ≤ month_length t.year t.month)
  pub hour_in : t.hour < 24
  pub min_in : t.min < 60
  pub sec_in : t.sec < 60
