-- ===== src/Screen/Examples.antt =====
-- Runs of the model of screen.c, and its theorems at concrete inputs.
use ikt104_eksamen_oppgave.Base.{
  ◌≡◌, refl, arith, pos, negsuc, false, some, [], ◌∷◌, ◌++◌, codes, decimal,
}
use ikt104_eksamen_oppgave.Lcd.{Io, RgbLcd, empty_lcd, init_fields}
use ikt104_eksamen_oppgave.Lcd.Sample.{glass_bus, glass_panel, blank_glass}
use ikt104_eksamen_oppgave.Proxy.{quoted, bare, InfoReply, info_body}
use ikt104_eksamen_oppgave.Info.{empty_info, parse_info}
use ikt104_eksamen_oppgave.Info.Reply.{IsSimpleReply}
use ikt104_eksamen_oppgave.Alarm.{
  initial, two_digits, clock_text, alarm_get_clock_text, alarm_get_status_text,
}
use ikt104_eksamen_oppgave.Alarm.Invariant.{initial-IsValid}
use ikt104_eksamen_oppgave.Calendar.Correct.{IsFor}
use ikt104_eksamen_oppgave.Calendar.{DateTime}
use ikt104_eksamen_oppgave.Screen.{
  line_size, alarm_lines, temp_hum_lines, decimal_ℤ, tenth_digit, news_screens, titles_screens,
  title_screens, datetime_lines, no_date_lines, get_info_snapshot,
}
use ikt104_eksamen_oppgave.Screen.Draw.{Round, lcd_show, screen_rounds}
use ikt104_eksamen_oppgave.Screen.Display.{Shows, lcd_show-Shows}
use ikt104_eksamen_oppgave.Screen.Texts.{clock_digits, alarm_get_clock_text-clock_digits}
use ikt104_eksamen_oppgave.Screen.News.{second_lines, shown_titles, news_screens-shown}
use ikt104_eksamen_oppgave.Screen.Dates.{lines_of, datetime_lines-parse_info}
use ikt104_eksamen_oppgave.Screen.Thread.{screen_rounds-Shows}

abbrev lcd : RgbLcd
unfolding init_fields empty_lcd
lcd = init_fields 0x2d empty_lcd

at_start : alarm_lines initial ≡ (codes "00:00:00", codes "Alarm 00:00")
unfolding alarm_lines alarm_get_clock_text alarm_get_status_text clock_text two_digits decimal
    initial
at_start = refl

-- 21.5 degrees, and half a degree below zero, whose sign is lost.
temperatures :
    (temp_hum_lines (pos 21) (pos 215) (pos 40) ≡ (codes "Temp:  21.5 C", codes "Humid: 40%"))
    × (temp_hum_lines (pos 0) (negsuc 4) (pos 40) ≡ (codes "Temp:  0.5 C", codes "Humid: 40%"))
unfolding temp_hum_lines decimal_ℤ tenth_digit decimal
temperatures = (refl, refl)

two_titles :
    news_screens (codes "Rain" ∷ codes "A title that is longer" ∷ [])
    ≡ (codes "News 1/2", codes "Rain")
      ∷ (codes "News 2/2", codes "A title that is ")
      ∷ (codes "News 2/2", codes "longer")
      ∷ []
unfolding news_screens titles_screens title_screens decimal
two_titles = refl

lcd_show-Shows_example :
    Shows glass_panel
      (lcd_show glass_bus lcd (codes "City:", codes "Grimstad") blank_glass).1
      (codes "City:", codes "Grimstad")
unfolding lcd
lcd_show-Shows_example =
    lcd_show-Shows glass_panel lcd (codes "City:", codes "Grimstad") blank_glass refl

alarm_get_clock_text-clock_digits_example :
    alarm_get_clock_text line_size initial
    ≡ clock_digits initial.current_hour initial.current_minute initial.current_second
alarm_get_clock_text-clock_digits_example =
    alarm_get_clock_text-clock_digits initial initial-IsValid

news_screens-shown_example :
    second_lines (news_screens (codes "A title that is longer" ∷ []))
    ≡ shown_titles (codes "A title that is longer" ∷ [])
news_screens-shown_example = news_screens-shown (codes "A title that is longer" ∷ [])

abbrev reply : InfoReply
reply = record {
  unix_epoch = 1709210096;
  weekday = quoted (codes "Thursday");
  day = quoted (codes "29");
  month = quoted (codes "February");
  time = quoted (codes "12:34:56");
  ip = quoted (codes "10.0.0.7");
  city = quoted (codes "Grimstad");
  country = quoted (codes "Norway");
  latitude = quoted (codes "58.34");
  longitude = quoted (codes "8.59");
  weather = quoted (codes "Clouds");
  temperature_celsius = bare (codes "-1.5");
}

reply-IsSimpleReply : IsSimpleReply reply
reply-IsSimpleReply = omega arith

datetime_lines-parse_info_example :
    (t : DateTime) × IsFor reply.unix_epoch t
    × (datetime_lines initial (some (parse_info (info_body reply) empty_info)) ≡ some (lines_of t))
datetime_lines-parse_info_example =
    datetime_lines-parse_info reply initial empty_info reply-IsSimpleReply (omega arith)
      (omega arith)

-- A round in which the lock of the data is never got.
abbrev no_data : Round
unfolding empty_info initial
no_data = record {
  alarm = initial;
  temp_int = pos 21;
  temp_tenths = pos 215;
  hum_int = pos 40;
  weather_info = (false, empty_info);
  epoch_info = (false, empty_info);
  latlon_info = (false, empty_info);
  city_info = (false, empty_info);
  datetime_alarm = initial;
  datetime_info = (false, empty_info);
}

screen_rounds-Shows_example :
    (run : Io _ (Unit {0})) × (screen_rounds glass_bus lcd ([] ++ no_data ∷ []) ≡ some run)
    × ((s : _) → Shows glass_panel (run s).1 (no_date_lines initial))
unfolding lcd no_data datetime_lines get_info_snapshot
screen_rounds-Shows_example =
    screen_rounds-Shows glass_panel lcd [] no_data (no_date_lines initial) refl tt refl
