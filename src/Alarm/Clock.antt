-- ===== src/Alarm/Clock.antt =====
-- The clock of alarm.c as a counter of seconds.
use ikt104_eksamen_oppgave.Base.{
  ℕ, ◌+◌, ◌*◌, ◌%◌, ◌<◌, Bool, List, [], ◌∷◌, ◌≡◌, refl, ◌∙◌, arith, length, if_of_both, not, ◌||◌,
}
use ikt104_eksamen_oppgave.Alarm.{
  Alarm, Levels, update_clock, check_alarm_time, update_snooze, update_auto_mute, alarm_snooze,
  alarm_mute, alarm_toggle_enabled, pressed, when, record_levels, alarm_check_buttons, alarm_round,
  alarm_rounds,
}
use ikt104_eksamen_oppgave.Alarm.Invariant.{IsValid, alarm_round-IsValid}

abbrev pub seconds_a_day : ℕ
seconds_a_day = 86400

abbrev pub time_of_day : Alarm → ℕ
time_of_day s = s.current_hour * 3600 + s.current_minute * 60 + s.current_second

abbrev pub alarm_time : Alarm → ℕ
alarm_time s = s.alarm_hour * 3600 + s.alarm_minute * 60 + s.alarm_second

-- What a part of the round that is not `update_clock` leaves alone.
pub record SameTimes (s t : Alarm) : Type 0 where
  pub hour_same : t.current_hour ≡ s.current_hour
  pub minute_same : t.current_minute ≡ s.current_minute
  pub second_same : t.current_second ≡ s.current_second
  pub alarm_hour_same : t.alarm_hour ≡ s.alarm_hour
  pub alarm_minute_same : t.alarm_minute ≡ s.alarm_minute
  pub alarm_second_same : t.alarm_second ≡ s.alarm_second

SameTimes-trans : {s t u : Alarm} → SameTimes s t → SameTimes t u → SameTimes s u
SameTimes-trans a b = record {
  hour_same = b.hour_same ∙ a.hour_same;
  minute_same = b.minute_same ∙ a.minute_same;
  second_same = b.second_same ∙ a.second_same;
  alarm_hour_same = b.alarm_hour_same ∙ a.alarm_hour_same;
  alarm_minute_same = b.alarm_minute_same ∙ a.alarm_minute_same;
  alarm_second_same = b.alarm_second_same ∙ a.alarm_second_same;
}

SameTimes-refl : (s : Alarm) → SameTimes s s
SameTimes-refl s = record {
  hour_same = refl;
  minute_same = refl;
  second_same = refl;
  alarm_hour_same = refl;
  alarm_minute_same = refl;
  alarm_second_same = refl;
}

check_alarm_time-SameTimes : (s : Alarm) → SameTimes s (check_alarm_time s)
unfolding check_alarm_time
check_alarm_time-SameTimes s = ground arith

update_snooze-SameTimes : (s : Alarm) → SameTimes s (update_snooze s)
unfolding update_snooze
update_snooze-SameTimes s = ground arith

update_auto_mute-SameTimes : (s : Alarm) → SameTimes s (update_auto_mute s)
unfolding update_auto_mute
update_auto_mute-SameTimes s = ground arith

alarm_snooze-SameTimes : (s : Alarm) → SameTimes s (alarm_snooze s)
unfolding alarm_snooze
alarm_snooze-SameTimes s = ground arith

alarm_mute-SameTimes : (s : Alarm) → SameTimes s (alarm_mute s)
unfolding alarm_mute
alarm_mute-SameTimes s = ground arith

alarm_toggle_enabled-SameTimes : (s : Alarm) → SameTimes s (alarm_toggle_enabled s)
unfolding alarm_toggle_enabled
alarm_toggle_enabled-SameTimes s = ground arith

record_levels-SameTimes : (p : Levels) (s : Alarm) → SameTimes s (record_levels p s)
unfolding record_levels
record_levels-SameTimes p s = ground arith

when-SameTimes :
    (b : Bool) (handler : Alarm → Alarm) (s : Alarm)
    → ((t : Alarm) → SameTimes t (handler t))
    → SameTimes s (when b handler s)
when-SameTimes b handler s same =
    if_of_both (SameTimes s) b (handler s) s (same s) (SameTimes-refl s)

pub alarm_check_buttons-SameTimes : (p : Levels) (s : Alarm) → SameTimes s (alarm_check_buttons p s)
alarm_check_buttons-SameTimes p s =
    unfold alarm_check_buttons in
    if_of_both (SameTimes s) (not s.gpioa || not s.gpiob) s _ (SameTimes-refl s) (
      SameTimes-trans
        (when-SameTimes (pressed p.snooze_now s.last_snooze) alarm_snooze s alarm_snooze-SameTimes)
        (SameTimes-trans
          (when-SameTimes (pressed p.mute_now s.last_mute) alarm_mute _ alarm_mute-SameTimes)
          (SameTimes-trans
            (when-SameTimes (pressed p.enable_now s.last_enable) alarm_toggle_enabled _
              alarm_toggle_enabled-SameTimes)
            (record_levels-SameTimes p _))))

-- Behind `update_clock` a round changes neither the clock nor the alarm's time.
pub alarm_round-SameTimes : (p : Levels) (s : Alarm) → SameTimes (update_clock s) (alarm_round p s)
alarm_round-SameTimes p s =
    unfold alarm_round in
    SameTimes-trans (alarm_check_buttons-SameTimes p (update_clock s)) (
      SameTimes-trans (check_alarm_time-SameTimes _)
        (SameTimes-trans (update_snooze-SameTimes _) (update_auto_mute-SameTimes _)))

pub update_clock-time_of_day :
    (s : Alarm) → IsValid s → time_of_day (update_clock s) ≡ (time_of_day s + 1) % seconds_a_day
unfolding update_clock
update_clock-time_of_day s v = ground arith

pub alarm_round-time_of_day :
    (p : Levels) (s : Alarm)
    → IsValid s
    → time_of_day (alarm_round p s) ≡ (time_of_day s + 1) % seconds_a_day
alarm_round-time_of_day p s v =
    ground (arith, alarm_round-SameTimes p s, update_clock-time_of_day s v)

pub time_of_day-lt : (s : Alarm) → IsValid s → time_of_day s < seconds_a_day
time_of_day-lt s v = omega arith

-- From any valid state the clock counts the rounds modulo a day, whatever the buttons read.
pub alarm_rounds-time_of_day :
    (ps : List Levels) (s : Alarm)
    → IsValid s
    → time_of_day (alarm_rounds ps s) ≡ (time_of_day s + length ps) % seconds_a_day
unfolding alarm_rounds
alarm_rounds-time_of_day [] s v = omega arith
alarm_rounds-time_of_day (p ∷ ps) s v = omega (
  arith,
  alarm_round-time_of_day p s v,
  alarm_rounds-time_of_day ps (alarm_round p s) (alarm_round-IsValid p s v),
)
