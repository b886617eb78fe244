-- ===== src/Screen.antt =====
-- exsamene/src/screen.c but for its dates, which are in `Calendar`: the texts of the screens, and
-- the screen's thread. A screen's two lines are a pair. Pauses and `printk` are left out. What
-- another thread owns (the alarm, the sensor's values, the data from the network) is an argument,
-- and so is whether `k_mutex_lock` got the lock in time.
pub mod Draw
pub mod Display
pub mod Texts
pub mod Dates
pub mod News
pub mod Thread
mod Examples
use ikt104_eksamen_oppgave.Base.{
  ℕ, zero, suc, ◌+◌, ◌-◌, ◌%◌, ℤ, pos, negsuc, ◌==ℤ◌, Bool, true, false, not, Option, none, some,
  List, [], ◌∷◌, ◌++◌, ltb, if◌then◌else◌, Bytes, codes, get_or, take, drop, length, set, decimal,
  snprintf,
}
use ikt104_eksamen_oppgave.Alarm.{Alarm, alarm_get_clock_text, alarm_get_status_text, clock_text}
use ikt104_eksamen_oppgave.Calendar.{
  DateTime, weekday_name, month_name, epoch_to_datetime, read_epoch,
}
use ikt104_eksamen_oppgave.Info.{InfoData}
use ikt104_eksamen_oppgave.News.{NewsData, news_title_len}
use ikt104_eksamen_oppgave.Lcd.{
  Io, ◌>>=◌, ◌>>◌, returns, RgbLcd, rgb_lcd_1602_clear, rgb_lcd_1602_set_cursor,
  rgb_lcd_1602_write_char, rgb_lcd_1602_set_rgb, rgb_lcd_1602_init,
}

abbrev pub Lines : Type 0
Lines = Bytes × Bytes

-- `sizeof(line1)` and `sizeof(line2)`.
abbrev pub line_size : ℕ
line_size = 17

-- "%d" of an `int`.
unfoldable pub decimal_ℤ : ℤ → Bytes
unfolding decimal
decimal_ℤ (pos n) = decimal n
decimal_ℤ (negsuc n) = b'-' ∷ decimal (suc n)

unfoldable pub alarm_lines : Alarm → Lines
unfolding alarm_get_clock_text alarm_get_status_text
alarm_lines s = (alarm_get_clock_text line_size s, alarm_get_status_text line_size s)

-- `x % 10` without its sign.
unfoldable pub tenth_digit : ℤ → ℕ
tenth_digit (pos n) = n % 10
tenth_digit (negsuc n) = suc n % 10

-- From `(int)temp`, `(int)(temp * 10.0f)` and `(int)hum`.
unfoldable pub temp_hum_lines : ℤ → ℤ → ℤ → Lines
unfolding decimal_ℤ tenth_digit decimal
temp_hum_lines temp_int temp_tenths hum_int = (
  snprintf line_size (
      codes "Temp:  "
      ++ (decimal_ℤ temp_int ++ (b'.' ∷ decimal (tenth_digit temp_tenths) ++ codes " C"))),
  snprintf line_size (codes "Humid: " ++ (decimal_ℤ hum_int ++ b'%' ∷ [])),
)

-- `none` when the lock was not got in time.
unfoldable pub get_info_snapshot : Bool → InfoData → Option InfoData
get_info_snapshot locked g_info = if locked then some g_info else none

abbrev pub is_empty : Bytes → Bool
is_empty [] = true
is_empty (c ∷ text) = false

unfoldable pub weather_lines : Option InfoData → Lines
weather_lines none = (codes "Weather:", codes "No data yet")
weather_lines (some info) =
    if is_empty info.weather
    then (codes "Weather:", codes "No data yet")
    else (info.weather, snprintf line_size (take 13 info.temperature ++ codes " C"))

unfoldable pub epoch_lines : Option InfoData → Lines
epoch_lines none = (codes "Unix epoch:", codes "No data yet")
epoch_lines (some info) =
    if is_empty info.unix_epoch
    then (codes "Unix epoch:", codes "No data yet")
    else (codes "Unix epoch:", info.unix_epoch)

unfoldable pub latlon_lines : Option InfoData → Lines
latlon_lines none = (codes "Lat/Lon:", codes "No data yet")
latlon_lines (some info) =
    if is_empty info.latitude then (codes "Lat/Lon:", codes "No data yet") else (
      snprintf line_size (codes "Lat: " ++ take 11 info.latitude),
      snprintf line_size (codes "Lon: " ++ take 11 info.longitude),
    )

unfoldable pub city_lines : Option InfoData → Lines
city_lines none = (codes "City:", codes "No data yet")
city_lines (some info) =
    if is_empty info.city then (codes "City:", codes "No data yet") else (codes "City:", info.city)

unfoldable pub date_lines : DateTime → Lines
unfolding weekday_name month_name clock_text decimal
date_lines t = (
  snprintf line_size (
      take 3 (weekday_name (pos t.wday))
      ++ (b' ' ∷ decimal t.day ++ (b' ' ∷ month_name (pos t.month)))),
  snprintf line_size (clock_text t.hour t.min t.sec),
)

unfoldable pub no_date_lines : Alarm → Lines
unfolding alarm_get_clock_text
no_date_lines s = (alarm_get_clock_text line_size s, codes "No date yet")

-- From what the loop over the epoch's digits read; `none` is the overflow that it may meet.
unfoldable pub epoch_date_lines : Option ℕ → Option Lines
unfolding date_lines epoch_to_datetime
epoch_date_lines none = none
epoch_date_lines (some epoch) = some (date_lines (epoch_to_datetime (pos epoch)))

unfoldable pub datetime_lines : Alarm → Option InfoData → Option Lines
unfolding no_date_lines epoch_date_lines read_epoch
datetime_lines s none = some (no_date_lines s)
datetime_lines s (some info) =
    if is_empty info.unix_epoch
    then some (no_date_lines s)
    else epoch_date_lines (read_epoch 0 info.unix_epoch)

-- `news_snapshot[i]` once the titles are copied.
unfoldable pub copy_title : Bytes → Bytes
copy_title title = take (news_title_len - 1) title

unfoldable pub copy_titles : ℕ → List Bytes → List Bytes
unfolding copy_title
copy_titles zero titles = []
copy_titles (suc count) [] = []
copy_titles (suc count) (t ∷ titles) = copy_title t ∷ copy_titles count titles

-- The titles to show: none if the lock was not got in time or the news are not ready.
unfoldable pub take_news : Bool → NewsData → List Bytes
unfolding copy_titles
take_news locked g = if locked then (if g.ready then copy_titles g.count g.titles else []) else []

-- The screens of title `i`: a second one for what does not fit on the first.
unfoldable pub title_screens : ℕ → ℕ → Bytes → List Lines
unfolding decimal
title_screens i count title =
    let line1 = snprintf line_size (codes "News " ++ (decimal (i + 1) ++ (b'/' ∷ decimal count))) in
    let first : Lines = (line1, snprintf line_size (take 16 title)) in
    if ltb 16 (length title)
    then first ∷ (line1, snprintf line_size (take 16 (drop 16 title))) ∷ []
    else first ∷ []

unfoldable pub titles_screens : ℕ → ℕ → List Bytes → List Lines
unfolding title_screens
titles_screens i count [] = []
titles_screens i count (t ∷ titles) = title_screens i count t ++ titles_screens (i + 1) count titles

unfoldable pub news_screens : List Bytes → List Lines
unfolding titles_screens
news_screens [] = (codes "News:", codes "No data yet") ∷ []
news_screens (t ∷ titles) = titles_screens 0 (length (t ∷ titles)) (t ∷ titles)
