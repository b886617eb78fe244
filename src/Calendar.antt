-- ===== src/Calendar.antt =====
-- exsamene/src/screen.c, `weekday_name`, `month_name` and `epoch_to_datetime`, and the loop of
-- `screen_show_datetime` that reads the epoch. `long` has 32 bits on the board's processor, which
-- is where `long_max` comes from. The out-parameters of `epoch_to_datetime` are one record.
pub mod Spec
pub mod Years
pub mod Correct
pub mod Epoch
mod Examples
use ikt104_eksamen_oppgave.Base.{
  ℕ, zero, suc, ◌+◌, ◌-◌, ◌*◌, ◌/◌, ◌%◌, ℤ, pos, pos_part, ltb_ℤ, Bool, true, false, not, ◌&&◌,
  ◌||◌, Option, none, some, List, [], ◌∷◌, ltb, leb, ◌==◌, if◌then◌else◌, Bytes, codes, get_or,
}

-- `weekday_name`; the argument is an `int`.
unfoldable pub weekday_name : ℤ → Bytes
weekday_name wd =
    if ltb_ℤ wd (pos 0) || ltb_ℤ (pos 6) wd
    then codes "???"
    else get_or
        (codes "Sunday"
          ∷ codes "Monday"
          ∷ codes "Tuesday"
          ∷ codes "Wednesday"
          ∷ codes "Thursday"
          ∷ codes "Friday"
          ∷ codes "Saturday"
          ∷ [])
        (pos_part wd) []

unfoldable pub month_name : ℤ → Bytes
month_name m =
    if ltb_ℤ m (pos 1) || ltb_ℤ (pos 12) m
    then codes "???"
    else get_or
        ([]
          ∷ codes "Jan"
          ∷ codes "Feb"
          ∷ codes "Mar"
          ∷ codes "Apr"
          ∷ codes "May"
          ∷ codes "Jun"
          ∷ codes "Jul"
          ∷ codes "Aug"
          ∷ codes "Sep"
          ∷ codes "Oct"
          ∷ codes "Nov"
          ∷ codes "Dec"
          ∷ [])
        (pos_part m) []

pub record DateTime : Type 0 where
  pub year : ℕ
  pub month : ℕ
  pub day : ℕ
  pub hour : ℕ
  pub min : ℕ
  pub sec : ℕ
  pub wday : ℕ

-- `leap`, as both places compute it.
unfoldable pub is_leap : ℕ → Bool
is_leap y = (y % 4 == 0 && not (y % 100 == 0)) || y % 400 == 0

unfoldable pub days_in_year : ℕ → ℕ
unfolding is_leap
days_in_year y = if is_leap y then 366 else 365

abbrev pub mdays : List ℕ
mdays = 0 ∷ 31 ∷ 28 ∷ 31 ∷ 30 ∷ 31 ∷ 30 ∷ 31 ∷ 31 ∷ 30 ∷ 31 ∷ 30 ∷ 31 ∷ []

-- `md` of the month loop.
unfoldable pub days_in_month : ℕ → ℕ → ℕ
unfolding is_leap
days_in_month y m = get_or mdays m 0 + (if m == 2 && is_leap y then 1 else 0)

-- `while (*year < 2100)`, with 2100 - year rounds left: the year and the day of that year, from 0.
unfoldable pub find_year : ℕ → ℕ → ℕ → ℕ × ℕ
find_year zero year d = (year, d)
find_year (suc left) year d =
    let later = find_year left (year + 1) (d - days_in_year year) in
    if ltb d (days_in_year year) then (year, d) else later

-- `for (*month = 1; *month <= 12; …)`, with 13 - month rounds left: the month, which is 13 when no
-- `break` was taken, and the day of that month, from 0.
unfoldable pub find_month : ℕ → ℕ → ℕ → ℕ → ℕ × ℕ
find_month year zero month d = (month, d)
find_month year (suc left) month d =
    let later = find_month year left (month + 1) (d - days_in_month year month) in
    if ltb d (days_in_month year month) then (month, d) else later

-- What is stored, once the loops have found the year, the month and the day of the month from 0.
-- A month of 13 is set back to 12.
unfoldable pub date_and_time : ℕ → ℕ → ℕ × ℕ → DateTime
date_and_time epoch y (m, d) = record {
  year = y;
  month = if ltb 12 m then 12 else m;
  day = d + 1;
  hour = epoch / 3600 % 24;
  min = epoch / 60 % 60;
  sec = epoch % 60;
  wday = (epoch / 86400 + 4) % 7;
}

-- The part of `epoch_to_datetime` behind its first line.
unfoldable pub datetime_of : ℕ → DateTime
datetime_of epoch =
    let (y, d) = find_year 130 1970 (epoch / 86400) in date_and_time epoch y (find_month y 12 1 d)

unfoldable pub epoch_to_datetime : ℤ → DateTime
epoch_to_datetime epoch = datetime_of (if ltb_ℤ epoch (pos 0) then 0 else pos_part epoch)

-- The greatest `long`.
abbrev pub long_max : ℕ
long_max = 2147483647

-- The loop of `screen_show_datetime` over `info.unix_epoch`; the end of the text stops it, since a
-- NUL is no digit. `none` is a signed overflow, which the language leaves undefined.
unfoldable pub read_epoch : ℕ → Bytes → Option ℕ
read_epoch epoch [] = some epoch
read_epoch epoch (c ∷ cs) =
    let next = epoch * 10 + (c - b'0') in
    let rest = read_epoch next cs in
    if leb b'0' c && leb c b'9' then (if ltb long_max next then none else rest) else some epoch
