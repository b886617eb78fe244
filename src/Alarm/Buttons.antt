-- ===== src/Alarm/Buttons.antt =====
-- The buttons of alarm.c act on a falling edge between two rounds.
use ikt104_eksamen_oppgave.Base.{
  ℤ, pos, Bool, true, not, ◌&&◌, ◌||◌, ◌≡◌, arith, if_of_both, ◌==ℤ◌, if◌then◌else◌,
}
use ikt104_eksamen_oppgave.Alarm.{
  Alarm, Levels, update_clock, check_alarm_time, update_snooze, update_auto_mute, alarm_snooze,
  alarm_mute, alarm_toggle_enabled, pressed, when, record_levels, alarm_check_buttons, alarm_round,
}
use ikt104_eksamen_oppgave.Alarm.Phase.{input_of}

-- The pointers are set and the last levels are those given.
record Saw (p : Levels) (s : Alarm) : Type 0 where
  set_a : s.gpioa ≡ true
  set_b : s.gpiob ≡ true
  snooze_is : s.last_snooze ≡ p.snooze_now
  mute_is : s.last_mute ≡ p.mute_now
  enable_is : s.last_enable ≡ p.enable_now

PinsSet : Alarm → Type 0
PinsSet s = (s.gpioa ≡ true) × (s.gpiob ≡ true)

update_clock-PinsSet : (s : Alarm) → PinsSet s → PinsSet (update_clock s)
unfolding update_clock PinsSet
update_clock-PinsSet s h = ground arith

alarm_snooze-PinsSet : (s : Alarm) → PinsSet s → PinsSet (alarm_snooze s)
unfolding alarm_snooze PinsSet
alarm_snooze-PinsSet s h = ground arith

alarm_mute-PinsSet : (s : Alarm) → PinsSet s → PinsSet (alarm_mute s)
unfolding alarm_mute PinsSet
alarm_mute-PinsSet s h = ground arith

alarm_toggle_enabled-PinsSet : (s : Alarm) → PinsSet s → PinsSet (alarm_toggle_enabled s)
unfolding alarm_toggle_enabled PinsSet
alarm_toggle_enabled-PinsSet s h = ground arith

when-PinsSet :
    (b : Bool) (handler : Alarm → Alarm) (s : Alarm)
    → ((t : Alarm) → PinsSet t → PinsSet (handler t))
    → PinsSet s
    → PinsSet (when b handler s)
when-PinsSet b handler s keep h = if_of_both PinsSet b (handler s) s (keep s h) h

record_levels-Saw : (p : Levels) (s : Alarm) → PinsSet s → Saw p (record_levels p s)
unfolding record_levels PinsSet
record_levels-Saw p s h = ground arith

set_guard :
    (p : Levels) (s t : Alarm)
    → PinsSet s
    → Saw p t
    → Saw p (if not s.gpioa || not s.gpiob then s else t)
unfolding PinsSet
set_guard p s t h w = ground arith

alarm_check_buttons-Saw : (p : Levels) (s : Alarm) → PinsSet s → Saw p (alarm_check_buttons p s)
alarm_check_buttons-Saw p s h =
    unfold alarm_check_buttons in
    set_guard p s _ h (
      record_levels-Saw p _ (
        when-PinsSet (pressed p.enable_now s.last_enable) alarm_toggle_enabled _
          alarm_toggle_enabled-PinsSet
          (when-PinsSet (pressed p.mute_now s.last_mute) alarm_mute _ alarm_mute-PinsSet (
            when-PinsSet (pressed p.snooze_now s.last_snooze) alarm_snooze s alarm_snooze-PinsSet
              h))))

check_alarm_time-Saw : (p : Levels) (s : Alarm) → Saw p s → Saw p (check_alarm_time s)
unfolding check_alarm_time
check_alarm_time-Saw p s h = ground arith

update_snooze-Saw : (p : Levels) (s : Alarm) → Saw p s → Saw p (update_snooze s)
unfolding update_snooze
update_snooze-Saw p s h = ground arith

update_auto_mute-Saw : (p : Levels) (s : Alarm) → Saw p s → Saw p (update_auto_mute s)
unfolding update_auto_mute
update_auto_mute-Saw p s h = ground arith

alarm_round-Saw : (p : Levels) (s : Alarm) → PinsSet s → Saw p (alarm_round p s)
alarm_round-Saw p s h =
    unfold alarm_round in
    update_auto_mute-Saw p _ (
      update_snooze-Saw p _
        (check_alarm_time-Saw p _ (alarm_check_buttons-Saw p _ (update_clock-PinsSet s h))))

pressed_seen :
    (x y : Bool) (now last before : ℤ)
    → x ≡ true
    → y ≡ true
    → last ≡ before
    → ((x && y) && pressed now last) ≡ (now ==ℤ pos 0 && before ==ℤ pos 1)
pressed_seen x y now last before ex ey e = λ i. (ex i && ey i) && pressed now (e i)

-- Once the pins are set up, a button goes down in a round, as the machine sees it, exactly when it
-- reads 0 in that round and read 1 in the round before: a button that is held, and one that comes
-- back from an error reading, does nothing.
pub buttons_on_edge :
    (p q : Levels) (s : Alarm)
    → s.gpioa ≡ true
    → s.gpiob ≡ true
    → let i = input_of q (alarm_round p s) in
      (i.snooze_down ≡ (q.snooze_now ==ℤ pos 0 && p.snooze_now ==ℤ pos 1))
      × (i.mute_down ≡ (q.mute_now ==ℤ pos 0 && p.mute_now ==ℤ pos 1))
      × (i.enable_down ≡ (q.enable_now ==ℤ pos 0 && p.enable_now ==ℤ pos 1))
buttons_on_edge p q s a b =
    let w = alarm_round-Saw p s (unfold PinsSet in (a, b)) in
    (
      pressed_seen _ _ q.snooze_now _ _ w.set_a w.set_b w.snooze_is,
      pressed_seen _ _ q.mute_now _ _ w.set_a w.set_b w.mute_is,
      pressed_seen _ _ q.enable_now _ _ w.set_a w.set_b w.enable_is,
    )
