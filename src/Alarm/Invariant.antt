-- ===== src/Alarm/Invariant.antt =====
-- What holds of the alarm's variables between two rounds of its thread.
use ikt104_eksamen_oppgave.Base.{
  ◌<◌, pos, ◌≤ℤ◌, Bool, true, false, List, [], ◌∷◌, ◌≡◌, arith, not, ◌||◌, if_of_both,
}
use ikt104_eksamen_oppgave.Alarm.{
  Alarm, Levels, alarm_auto_mute_seconds, snooze_seconds, initial, update_clock, check_alarm_time,
  update_snooze, update_auto_mute, alarm_snooze, alarm_mute, alarm_toggle_enabled,
  alarm_check_buttons, alarm_round, alarm_rounds, alarm_gpio_init, alarm_thread, pressed, when,
  record_levels,
}

pub record IsValid (s : Alarm) : Type 0 where
  pub hour_in : s.current_hour < 24
  pub minute_in : s.current_minute < 60
  pub second_in : s.current_second < 60
  pub one_phase : s.alarm_active ≡ true → s.alarm_snoozed ≡ false
  pub active_enabled : s.alarm_active ≡ true → s.alarm_enabled ≡ true
  pub snoozed_enabled : s.alarm_snoozed ≡ true → s.alarm_enabled ≡ true
  pub active_capped : s.active_seconds < alarm_auto_mute_seconds
  pub inactive_zero : s.alarm_active ≡ false → s.active_seconds ≡ 0
  pub snoozed_left : s.alarm_snoozed ≡ true → pos 1 ≤ℤ s.snooze_seconds_left
  pub left_capped : s.snooze_seconds_left ≤ℤ pos snooze_seconds
  pub awake_zero : s.alarm_snoozed ≡ false → s.snooze_seconds_left ≡ pos 0

pub initial-IsValid : IsValid initial
unfolding initial
initial-IsValid = ground arith

pub update_clock-IsValid : (s : Alarm) → IsValid s → IsValid (update_clock s)
unfolding update_clock
update_clock-IsValid s v = ground arith

pub check_alarm_time-IsValid : (s : Alarm) → IsValid s → IsValid (check_alarm_time s)
unfolding check_alarm_time
check_alarm_time-IsValid s v = ground arith

pub update_snooze-IsValid : (s : Alarm) → IsValid s → IsValid (update_snooze s)
unfolding update_snooze
update_snooze-IsValid s v = ground arith

pub update_auto_mute-IsValid : (s : Alarm) → IsValid s → IsValid (update_auto_mute s)
unfolding update_auto_mute
update_auto_mute-IsValid s v = ground arith

pub alarm_snooze-IsValid : (s : Alarm) → IsValid s → IsValid (alarm_snooze s)
unfolding alarm_snooze
alarm_snooze-IsValid s v = ground arith

pub alarm_mute-IsValid : (s : Alarm) → IsValid s → IsValid (alarm_mute s)
unfolding alarm_mute
alarm_mute-IsValid s v = ground arith

pub alarm_toggle_enabled-IsValid : (s : Alarm) → IsValid s → IsValid (alarm_toggle_enabled s)
unfolding alarm_toggle_enabled
alarm_toggle_enabled-IsValid s v = ground arith

pub record_levels-IsValid : (p : Levels) (s : Alarm) → IsValid s → IsValid (record_levels p s)
unfolding record_levels
record_levels-IsValid p s v = ground arith

-- A button's handler runs or does not.
pub when-IsValid :
    (b : Bool) (handler : Alarm → Alarm) (s : Alarm)
    → ((t : Alarm) → IsValid t → IsValid (handler t))
    → IsValid s
    → IsValid (when b handler s)
when-IsValid b handler s keep v = if_of_both IsValid b (handler s) s (keep s v) v

pub alarm_check_buttons-IsValid :
    (p : Levels) (s : Alarm) → IsValid s → IsValid (alarm_check_buttons p s)
alarm_check_buttons-IsValid p s v =
    unfold alarm_check_buttons in
    if_of_both IsValid (not s.gpioa || not s.gpiob) s _ v (
      record_levels-IsValid p _ (
        when-IsValid (pressed p.enable_now s.last_enable) alarm_toggle_enabled _
          alarm_toggle_enabled-IsValid
          (when-IsValid (pressed p.mute_now s.last_mute) alarm_mute _ alarm_mute-IsValid (
            when-IsValid (pressed p.snooze_now s.last_snooze) alarm_snooze s alarm_snooze-IsValid
              v))))

-- A round of the alarm's thread keeps the invariant, whatever the buttons read.
pub alarm_round-IsValid : (p : Levels) (s : Alarm) → IsValid s → IsValid (alarm_round p s)
alarm_round-IsValid p s v =
    unfold alarm_round in
    update_auto_mute-IsValid _ (
      update_snooze-IsValid _
        (check_alarm_time-IsValid _ (alarm_check_buttons-IsValid p _ (update_clock-IsValid s v))))

pub alarm_rounds-IsValid : (ps : List Levels) (s : Alarm) → IsValid s → IsValid (alarm_rounds ps s)
unfolding alarm_rounds
alarm_rounds-IsValid [] s v = v
alarm_rounds-IsValid (p ∷ ps) s v =
    alarm_rounds-IsValid ps (alarm_round p s) (alarm_round-IsValid p s v)

alarm_gpio_init-IsValid :
    (ready_a ready_b : Bool) (s : Alarm) → IsValid s → IsValid (alarm_gpio_init ready_a ready_b s).0
unfolding alarm_gpio_init
alarm_gpio_init-IsValid ready_a ready_b s v = ground arith

-- In every state that the alarm's thread reaches, whichever devices are ready and whatever the
-- buttons read, the invariant holds: the clock shows a time of day, the alarm is not both active
-- and snoozed, it is neither while disabled, and its two counters are within their limits.
pub alarm_thread-IsValid :
    (ready_a ready_b : Bool) (ps : List Levels) → IsValid (alarm_thread ready_a ready_b ps)
unfolding alarm_thread
alarm_thread-IsValid ready_a ready_b ps =
    alarm_rounds-IsValid ps _ (alarm_gpio_init-IsValid ready_a ready_b initial initial-IsValid)
