-- ===== src/Calendar/Years.antt =====
-- The loops over years and months of screen.c.
use ikt104_eksamen_oppgave.Base.{ℕ, zero, suc, ◌+◌, ◌-◌, ◌≤◌, ◌<◌, ◌≡◌, refl, ap, arith}
use ikt104_eksamen_oppgave.Calendar.{is_leap, days_in_year, days_in_month, find_year, find_month}
use ikt104_eksamen_oppgave.Calendar.Spec.{
  days_before_year, days_before_month, leap_days, month_length,
}

-- The formula agrees with the leap rule of the code.
pub days_before_year-suc :
    (y : ℕ) → 1970 ≤ y → days_before_year (suc y) ≡ days_before_year y + days_in_year y
unfolding days_in_year days_before_year
days_before_year-suc y h = ground arith

-- The code's table and its leap rule give the calendar's months.
pub days_in_month-month_length : (y m : ℕ) → 1 ≤ m → m ≤ 12 → days_in_month y m ≡ month_length y m
unfolding is_leap days_in_month leap_days month_length
days_in_month-month_length y zero low high = absurd (omega arith)
days_in_month-month_length y (suc zero) low high = refl
days_in_month-month_length y (suc (suc zero)) low high = ground arith
days_in_month-month_length y (suc (suc (suc zero))) low high = refl
days_in_month-month_length y (suc (suc (suc (suc zero)))) low high = refl
days_in_month-month_length y (suc (suc (suc (suc (suc zero))))) low high = refl
days_in_month-month_length y (suc (suc (suc (suc (suc (suc zero)))))) low high = refl
days_in_month-month_length y (suc (suc (suc (suc (suc (suc (suc zero))))))) low high = refl
days_in_month-month_length y (suc (suc (suc (suc (suc (suc (suc (suc zero)))))))) low high = refl
days_in_month-month_length y (suc (suc (suc (suc (suc (suc (suc (suc (suc zero))))))))) low high =
    refl
days_in_month-month_length y (suc (suc (suc (suc (suc (suc (suc (suc (suc (suc zero)))))))))) low
      high =
    refl
days_in_month-month_length y (suc (suc (suc (suc (suc (suc (suc (suc (suc (suc (suc zero)))))))))))
      low high =
    refl
days_in_month-month_length y
      (suc (suc (suc (suc (suc (suc (suc (suc (suc (suc (suc (suc zero)))))))))))) low high =
    refl
days_in_month-month_length y
      (suc (suc (suc (suc (suc (suc (suc (suc (suc (suc (suc (suc (suc m))))))))))))) low high =
    absurd (omega arith)

pub days_before_month-suc :
    (y m : ℕ) → 1 ≤ m → days_before_month y (suc m) ≡ days_before_month y m + month_length y m
unfolding days_before_month
days_before_month-suc y zero h = absurd (omega arith)
days_before_month-suc y (suc m) h = refl

-- The twelve months make up the year.
pub twelve_months : (y : ℕ) → days_before_month y 13 ≡ days_in_year y
unfolding is_leap days_in_year leap_days month_length days_before_month
twelve_months y = ground arith

-- The pair stands for day number `n`, counted from the start of 1970, as a year and a day of it.
pub record IsDayOfYear (n : ℕ) (r : ℕ × ℕ) : Type 0 where
  pub year_from : 1970 ≤ r.0
  pub day_fits : r.1 < days_in_year r.0
  pub counts : days_before_year r.0 + r.1 ≡ n

-- The year loop, with `left` rounds left before 2100, ends by its `break` for a day before 2100.
pub find_year-IsDayOfYear :
    (left year d : ℕ)
    → year + left ≡ 2100
    → 1970 ≤ year
    → days_before_year year + d < days_before_year 2100
    → IsDayOfYear (days_before_year year + d) (find_year left year d)
unfolding find_year
find_year-IsDayOfYear zero year d e h fits =
    absurd (omega (arith, ap days_before_year (let at_end : year ≡ 2100 = omega arith in at_end)))
find_year-IsDayOfYear (suc left) year d e h fits = ground (
  arith,
  days_before_year-suc year h,
  find_year-IsDayOfYear left (year + 1) (d - days_in_year year),
)

-- The pair stands for day `n` of year `y`, counted from 0, as a month and a day of it.
pub record IsDayOfMonth (y n : ℕ) (r : ℕ × ℕ) : Type 0 where
  pub month_in : (1 ≤ r.0) × (r.0 ≤ 12)
  pub day_fits : r.1 < month_length y r.0
  pub counts : days_before_month y r.0 + r.1 ≡ n

pub find_month-IsDayOfMonth :
    (y left month d : ℕ)
    → month + left ≡ 13
    → 1 ≤ month
    → days_before_month y month + d < days_in_year y
    → IsDayOfMonth y (days_before_month y month + d) (find_month y left month d)
unfolding find_month
find_month-IsDayOfMonth y zero month d e h fits = absurd (
    omega (
      arith,
      twelve_months y,
      ap (days_before_month y) (let at_end : month ≡ 13 = omega arith in at_end),
    ))
find_month-IsDayOfMonth y (suc left) month d e h fits = ground (
  arith,
  days_before_month-suc y month h,
  days_in_month-month_length y month h (omega arith),
  find_month-IsDayOfMonth y left (month + 1) (d - days_in_month y month),
)
