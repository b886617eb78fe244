-- ===== src/Alarm.antt =====
-- exsamene/src/alarm.c: the clock, the alarm, the buttons, and one round of the alarm thread.
-- The file's static variables are one record. An `int` that may be negative is in ℤ: the snooze
-- counter, which is decremented, and the button levels, since `gpio_pin_get` returns an error as
-- a negative number. The others only count up from 0 and are reset, and `Invariant` bounds them.
-- The levels that `gpio_pin_get` reads come in as an argument; `printk` is left out.
pub mod Invariant
pub mod Clock
pub mod Phase
pub mod Timing
pub mod Waiting
pub mod Buttons
pub mod Speaker
pub mod Pins
mod Examples
use ikt104_eksamen_oppgave.Base.{
  ℕ, zero, suc, ◌+◌, ℤ, pos, ◌-ℤ◌, leb_ℤ, ◌==ℤ◌, Bool, true, false, not, ◌&&◌, ◌||◌, List, [], ◌∷◌,
  ◌++◌, ltb, leb, ◌==◌, if◌then◌else◌, Bytes, codes, decimal, snprintf,
}

abbrev pub alarm_auto_mute_seconds : ℕ
alarm_auto_mute_seconds = 20

abbrev pub snooze_seconds : ℕ
snooze_seconds = 300

abbrev pub default_alarm_hour : ℕ
default_alarm_hour = 0

abbrev pub default_alarm_minute : ℕ
default_alarm_minute = 0

abbrev pub default_alarm_second : ℕ
default_alarm_second = 3

pub record Alarm : Type 0 where
  pub current_hour : ℕ
  pub current_minute : ℕ
  pub current_second : ℕ
  pub alarm_hour : ℕ
  pub alarm_minute : ℕ
  pub alarm_second : ℕ
  pub alarm_enabled : Bool
  pub alarm_active : Bool
  pub alarm_snoozed : Bool
  pub active_seconds : ℕ
  pub snooze_seconds_left : ℤ
  -- the pointers `gpioa` and `gpiob`: true when they are not NULL
  pub gpioa : Bool
  pub gpiob : Bool
  pub last_snooze : ℤ
  pub last_mute : ℤ
  pub last_enable : ℤ

-- The initial values of the static variables.
unfoldable pub initial : Alarm
initial = record {
  current_hour = 0;
  current_minute = 0;
  current_second = 0;
  alarm_hour = default_alarm_hour;
  alarm_minute = default_alarm_minute;
  alarm_second = default_alarm_second;
  alarm_enabled = true;
  alarm_active = false;
  alarm_snoozed = false;
  active_seconds = 0;
  snooze_seconds_left = pos 0;
  gpioa = false;
  gpiob = false;
  last_snooze = pos 1;
  last_mute = pos 1;
  last_enable = pos 1;
}

-- The three `if` lines of `update_clock`.
carry_second : Alarm → Alarm
carry_second s =
    if leb 60 s.current_second
    then record s { current_second = 0; current_minute = s.current_minute + 1 }
    else s

carry_minute : Alarm → Alarm
carry_minute s =
    if leb 60 s.current_minute
    then record s { current_minute = 0; current_hour = s.current_hour + 1 }
    else s

carry_hour : Alarm → Alarm
carry_hour s = if leb 24 s.current_hour then record s { current_hour = 0 } else s

unfoldable pub update_clock : Alarm → Alarm
unfolding carry_second carry_minute carry_hour
update_clock s =
    carry_hour (carry_minute (carry_second (record s { current_second = s.current_second + 1 })))

unfoldable pub check_alarm_time : Alarm → Alarm
check_alarm_time s =
    if not s.alarm_enabled || s.alarm_active || s.alarm_snoozed
    then s
    else if s.current_hour == s.alarm_hour
        && s.current_minute == s.alarm_minute
        && s.current_second == s.alarm_second
    then record s { alarm_active = true; active_seconds = 0 }
    else s

snooze_finished : Alarm → Alarm
snooze_finished s =
    if leb_ℤ s.snooze_seconds_left (pos 0)
    then record s { alarm_snoozed = false; alarm_active = true; active_seconds = 0 }
    else s

unfoldable pub update_snooze : Alarm → Alarm
unfolding snooze_finished
update_snooze s =
    if not s.alarm_snoozed
    then s
    else snooze_finished (record s { snooze_seconds_left = s.snooze_seconds_left -ℤ pos 1 })

auto_muted : Alarm → Alarm
auto_muted s =
    if leb alarm_auto_mute_seconds s.active_seconds
    then record s { alarm_active = false; active_seconds = 0 }
    else s

unfoldable pub update_auto_mute : Alarm → Alarm
unfolding auto_muted
update_auto_mute s =
    if not s.alarm_active
    then s
    else auto_muted (record s { active_seconds = s.active_seconds + 1 })

unfoldable pub alarm_snooze : Alarm → Alarm
alarm_snooze s =
    if s.alarm_active
    then record s {
      alarm_active = false;
      alarm_snoozed = true;
      snooze_seconds_left = pos snooze_seconds;
      active_seconds = 0;
    }
    else s

unfoldable pub alarm_mute : Alarm → Alarm
alarm_mute s =
    if s.alarm_active || s.alarm_snoozed
    then record s {
      alarm_active = false;
      alarm_snoozed = false;
      active_seconds = 0;
      snooze_seconds_left = pos 0;
    }
    else s

silence_disabled : Alarm → Alarm
silence_disabled s =
    if not s.alarm_enabled
    then record s {
      alarm_active = false;
      alarm_snoozed = false;
      active_seconds = 0;
      snooze_seconds_left = pos 0;
    }
    else s

unfoldable pub alarm_toggle_enabled : Alarm → Alarm
unfolding silence_disabled
alarm_toggle_enabled s = silence_disabled (record s { alarm_enabled = not s.alarm_enabled })

-- What `gpio_pin_get` returned for the three buttons, which are pulled up: 0 is pressed, 1 is
-- released, and a negative number is an error.
pub record Levels : Type 0 where
  pub snooze_now : ℤ
  pub mute_now : ℤ
  pub enable_now : ℤ

-- `x_now == 0 && last_x == 1`
abbrev pub pressed : ℤ → ℤ → Bool
pressed now last = now ==ℤ pos 0 && last ==ℤ pos 1

-- `if (…) handler();`
abbrev pub when : Bool → (Alarm → Alarm) → Alarm → Alarm
when b handler s = if b then handler s else s

unfoldable pub record_levels : Levels → Alarm → Alarm
record_levels p s = record s {
  last_snooze = p.snooze_now;
  last_mute = p.mute_now;
  last_enable = p.enable_now;
}

-- No handler changes what the tests of the handlers behind it read.
unfoldable pub alarm_check_buttons : Levels → Alarm → Alarm
unfolding alarm_snooze alarm_mute alarm_toggle_enabled record_levels
alarm_check_buttons p s =
    if not s.gpioa || not s.gpiob
    then s
    else record_levels p (
        when (pressed p.enable_now s.last_enable) alarm_toggle_enabled (
          when (pressed p.mute_now s.last_mute) alarm_mute
            (when (pressed p.snooze_now s.last_snooze) alarm_snooze s)))

-- One round of the loop of `alarm_thread_entry`.
unfoldable pub alarm_round : Levels → Alarm → Alarm
unfolding update_clock alarm_check_buttons check_alarm_time update_snooze update_auto_mute
alarm_round p s =
    update_auto_mute (update_snooze (check_alarm_time (alarm_check_buttons p (update_clock s))))

-- The loop, over the levels read in each of its rounds so far.
unfoldable pub alarm_rounds : List Levels → Alarm → Alarm
alarm_rounds [] s = s
alarm_rounds (p ∷ ps) s = alarm_rounds ps (alarm_round p s)

-- "%02d" of a number that is not negative.
unfoldable pub two_digits : ℕ → Bytes
unfolding decimal
two_digits n = if ltb n 10 then b'0' ∷ decimal n else decimal n

-- "%02d:%02d:%02d"
unfoldable pub clock_text : ℕ → ℕ → ℕ → Bytes
unfolding two_digits
clock_text h m s = two_digits h ++ (b':' ∷ two_digits m ++ (b':' ∷ two_digits s))

unfoldable pub alarm_get_clock_text : ℕ → Alarm → Bytes
unfolding clock_text
alarm_get_clock_text buffer_size s =
    snprintf buffer_size (clock_text s.current_hour s.current_minute s.current_second)

unfoldable pub alarm_get_status_text : ℕ → Alarm → Bytes
unfolding two_digits
alarm_get_status_text buffer_size s = snprintf buffer_size (
    if not s.alarm_enabled
    then codes "                "
    else if s.alarm_active
    then codes "Alarm active"
    else if s.alarm_snoozed
    then codes "Alarm snoozed"
    else codes "Alarm " ++ (two_digits s.alarm_hour ++ (b':' ∷ two_digits s.alarm_minute)))

-- `alarm_gpio_init`, given whether each device is ready: the device pointers are link-time
-- constants, so they are set in any case. The second result is whether the speaker's thread starts.
unfoldable pub alarm_gpio_init : Bool → Bool → Alarm → Alarm × Bool
alarm_gpio_init ready_a ready_b s =
    let t = record s { gpioa = true; gpiob = true } in
    if not ready_a || not ready_b then (t, false) else (t, true)

-- The state of `alarm_thread_entry` after a number of rounds, from the start of the program.
unfoldable pub alarm_thread : Bool → Bool → List Levels → Alarm
unfolding initial alarm_gpio_init alarm_rounds
alarm_thread ready_a ready_b ps = alarm_rounds ps (alarm_gpio_init ready_a ready_b initial).0
