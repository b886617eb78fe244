-- ===== src/Screen/Draw.antt =====
-- exsamene/src/screen.c: the calls that show the screens, `boot`, and the loop of the screen's
-- thread.
use ikt104_eksamen_oppgave.Base.{
  ℕ, zero, suc, ℤ, pos, ◌==ℤ◌, Bool, not, Option, none, some, List, [], ◌∷◌, if◌then◌else◌, Bytes,
  codes,
}
use ikt104_eksamen_oppgave.Alarm.{Alarm}
use ikt104_eksamen_oppgave.Info.{InfoData}
use ikt104_eksamen_oppgave.News.{NewsData}
use ikt104_eksamen_oppgave.Lcd.{
  Io, ◌>>=◌, ◌>>◌, returns, RgbLcd, rgb_lcd_1602_clear, rgb_lcd_1602_set_cursor,
  rgb_lcd_1602_write_char, rgb_lcd_1602_set_rgb, rgb_lcd_1602_init,
}
use ikt104_eksamen_oppgave.Screen.{
  Lines, alarm_lines, temp_hum_lines, get_info_snapshot, weather_lines, epoch_lines, latlon_lines,
  city_lines, datetime_lines, take_news, news_screens,
}

-- What the other threads have left for each screen of a round of the thread.
pub record Round : Type 0 where
  pub alarm : Alarm
  pub temp_int : ℤ
  pub temp_tenths : ℤ
  pub hum_int : ℤ
  pub weather_info : Bool × InfoData
  pub epoch_info : Bool × InfoData
  pub latlon_info : Bool × InfoData
  pub city_info : Bool × InfoData
  pub datetime_alarm : Alarm
  pub datetime_info : Bool × InfoData

abbrev pub snapshot : Bool × InfoData → Option InfoData
snapshot (locked, info) = get_info_snapshot locked info

-- `none` is the overflow that `screen_show_datetime` may meet.
unfoldable pub round_screens : Round → Option (List Lines)
unfolding alarm_lines temp_hum_lines weather_lines epoch_lines latlon_lines city_lines
    datetime_lines get_info_snapshot
round_screens r = elim (datetime_lines r.datetime_alarm (snapshot r.datetime_info)) [
  | none ↦ none
  | some lines ↦ some (
      alarm_lines r.alarm
      ∷ temp_hum_lines r.temp_int r.temp_tenths r.hum_int
      ∷ weather_lines (snapshot r.weather_info)
      ∷ epoch_lines (snapshot r.epoch_info)
      ∷ latlon_lines (snapshot r.latlon_info)
      ∷ city_lines (snapshot r.city_info)
      ∷ lines
      ∷ [])
]

module _ {S : Type 0} (i2c_write : Bytes → ℕ → Io S ℤ) where
  -- `for (int i = 0; i < strlen(text) && i < 16; i++)`, with `room` places left.
  unfoldable pub write_chars : RgbLcd → ℕ → Bytes → Io S (Unit {0})
  unfolding rgb_lcd_1602_write_char
  write_chars lcd zero text = returns tt
  write_chars lcd (suc room) [] = returns tt
  write_chars lcd (suc room) (c ∷ text) =
      rgb_lcd_1602_write_char i2c_write lcd c >> write_chars lcd room text

  unfoldable pub lcd_write_string : RgbLcd → Bytes → Io S (Unit {0})
  unfolding write_chars
  lcd_write_string lcd text = write_chars lcd 16 text

  unfoldable pub lcd_show : RgbLcd → Lines → Io S (Unit {0})
  unfolding lcd_write_string rgb_lcd_1602_clear rgb_lcd_1602_set_cursor
  lcd_show lcd (line1, line2) = do
    rgb_lcd_1602_clear i2c_write lcd
    rgb_lcd_1602_set_cursor i2c_write lcd 0 0
    lcd_write_string lcd line1
    rgb_lcd_1602_set_cursor i2c_write lcd 0 1
    lcd_write_string lcd line2

  -- The screens of a round, or of the news, one after the other.
  unfoldable pub show_all : RgbLcd → List Lines → Io S (Unit {0})
  unfolding lcd_show
  show_all lcd [] = returns tt
  show_all lcd (lines ∷ screens) = lcd_show lcd lines >> show_all lcd screens

  unfoldable pub screen_show_news : RgbLcd → Bool → NewsData → Io S (Unit {0})
  unfolding show_all news_screens take_news
  screen_show_news lcd locked g = show_all lcd (news_screens (take_news locked g))

  -- `boot` behind the initialisation, given its code: the fields of the display's struct.
  unfoldable pub boot_screen : ℤ × RgbLcd → Io S RgbLcd
  unfolding lcd_write_string rgb_lcd_1602_clear rgb_lcd_1602_set_cursor rgb_lcd_1602_set_rgb
  boot_screen (code, lcd) = if not (code ==ℤ pos 0) then returns lcd else (do
    rgb_lcd_1602_set_rgb i2c_write lcd 255 0 255
    rgb_lcd_1602_clear i2c_write lcd
    rgb_lcd_1602_set_cursor i2c_write lcd 0 0
    lcd_write_string lcd (codes "System Loading")
    rgb_lcd_1602_set_cursor i2c_write lcd 0 1
    lcd_write_string lcd (codes "Please wait...")
    returns lcd)

  -- Given whether the bus is ready.
  unfoldable pub boot : Bool → RgbLcd → Io S RgbLcd
  unfolding boot_screen rgb_lcd_1602_init
  boot is_ready lcd =
      if not is_ready
      then returns lcd
      else (rgb_lcd_1602_init i2c_write is_ready 0x2d lcd >>= boot_screen)

  -- Some rounds of the loop of `screen_thread_entry`.
  unfoldable pub screen_rounds : RgbLcd → List Round → Option (Io S (Unit {0}))
  unfolding round_screens show_all
  screen_rounds lcd [] = some (returns tt)
  screen_rounds lcd (r ∷ rs) = elim (round_screens r) [
    | none ↦ none
    | some screens ↦ elim (screen_rounds lcd rs) [
      | none ↦ none
      | some rest ↦ some (show_all lcd screens >> rest)
    ]
  ]
