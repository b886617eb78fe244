-- ===== src/Screen/Thread.antt =====
-- What stands on the display once the screen's thread has started, and behind its rounds.
use ikt104_eksamen_oppgave.Base.{ℕ, ◌≡◌, refl, ℤ, List, [], ◌∷◌, ◌++◌, Option, some, Bytes, All}
use ikt104_eksamen_oppgave.Lcd.{Io, lcd_address, RgbLcd, ◌>>◌, returns}
use ikt104_eksamen_oppgave.Lcd.Panel.{Panel}
use ikt104_eksamen_oppgave.Screen.{
  Lines, datetime_lines, alarm_lines, temp_hum_lines, weather_lines, epoch_lines, latlon_lines,
  city_lines,
}
use ikt104_eksamen_oppgave.Screen.Draw.{
  Round, lcd_show, show_all, screen_rounds, round_screens, snapshot,
}
use ikt104_eksamen_oppgave.Screen.Display.{Shows, lcd_show-Shows}

module _ {S : Type 0} {i2c_write : Bytes → ℕ → Io S ℤ} (p : Panel i2c_write) where
  show_all-append :
      (lcd : RgbLcd) (screens : List Lines) (lines : Lines) (s : S)
      → lcd.lcd_addr ≡ lcd_address
      → Shows p (show_all i2c_write lcd (screens ++ lines ∷ []) s).1 lines
  unfolding show_all
  show_all-append lcd [] lines s here = lcd_show-Shows p lcd lines s here
  show_all-append lcd (first ∷ screens) lines s here =
      show_all-append lcd screens lines (lcd_show i2c_write lcd first s).1 here

-- The epoch that the screen of the date finds in a round does not overflow.
abbrev pub date_of : Round → Option Lines
date_of r = datetime_lines r.datetime_alarm (snapshot r.datetime_info)

pub IsDefined : Round → Type 0
IsDefined r = (lines : Lines) × (date_of r ≡ some lines)

-- The screens of a round in front of the date's.
before_date : Round → List Lines
before_date r =
    alarm_lines r.alarm
    ∷ temp_hum_lines r.temp_int r.temp_tenths r.hum_int
    ∷ weather_lines (snapshot r.weather_info)
    ∷ epoch_lines (snapshot r.epoch_info)
    ∷ latlon_lines (snapshot r.latlon_info)
    ∷ city_lines (snapshot r.city_info)
    ∷ []

round_screens_of_date :
    (r : Round) (lines : Lines)
    → date_of r ≡ some lines
    → round_screens r ≡ some (before_date r ++ lines ∷ [])
unfolding before_date round_screens
round_screens_of_date r lines e = rw (e, round_screens) refl

module _ {S : Type 0} {i2c_write : Bytes → ℕ → Io S ℤ} (p : Panel i2c_write) where
  -- At the address that `boot` sets, and as long as no epoch overflows, the loop of the screen's
  -- thread goes through its rounds, and leaves the last round's date on the display.
  pub screen_rounds-Shows :
      (lcd : RgbLcd) (rs : List Round) (r : Round) (lines : Lines)
      → lcd.lcd_addr ≡ lcd_address
      → All IsDefined rs
      → date_of r ≡ some lines
      → (run : Io S (Unit {0})) × (screen_rounds i2c_write lcd (rs ++ r ∷ []) ≡ some run)
        × ((s : S) → Shows p (run s).1 lines)
  unfolding IsDefined screen_rounds
  screen_rounds-Shows lcd [] r lines here h e = (
    show_all i2c_write lcd (before_date r ++ lines ∷ []) >> returns tt,
    rw (round_screens_of_date r lines e, screen_rounds) refl,
    λ s. show_all-append p lcd (before_date r) lines s here,
  )
  screen_rounds-Shows lcd (q ∷ rs) r lines here ((date, d), hs) e =
      let (run, runs, shows) = screen_rounds-Shows lcd rs r lines here hs e in
      (
        show_all i2c_write lcd (before_date q ++ date ∷ []) >> run,
        rw (round_screens_of_date q date d, runs, screen_rounds) refl,
        λ s. shows (show_all i2c_write lcd (before_date q ++ date ∷ []) s).1,
      )
