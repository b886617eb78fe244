-- ===== src/Alarm/Examples.antt =====
-- Runs of the model of alarm.c, and its theorems at concrete states.
use ikt104_eksamen_oppgave.Base.{
  codes, ℕ, ◌+◌, ◌%◌, ◌<◌, pos, negsuc, ◌==ℤ◌, true, ◌&&◌, if◌then◌else◌, [], ◌∷◌, ◌++◌, ◌≡◌, refl,
  arith,
}
use ikt104_eksamen_oppgave.Alarm.{
  Alarm, Levels, initial, alarm_gpio_init, alarm_round, alarm_rounds, alarm_thread,
}
use ikt104_eksamen_oppgave.Alarm.Invariant.{IsValid, initial-IsValid, alarm_thread-IsValid}
use ikt104_eksamen_oppgave.Alarm.Clock.{time_of_day, seconds_a_day, alarm_rounds-time_of_day}
use ikt104_eksamen_oppgave.Alarm.Phase.{
  idle, ringing, snoozing, phase, input_of, phase_round, phase-alarm_round,
}
use ikt104_eksamen_oppgave.Alarm.Timing.{Released, auto_mute, snooze_lasts}
use ikt104_eksamen_oppgave.Alarm.Waiting.{goes_off}
use ikt104_eksamen_oppgave.Alarm.Buttons.{buttons_on_edge}
use ikt104_eksamen_oppgave.Alarm.Speaker.{
  SleepsLow, duration, speaker_round, speaker_rounds, speaker_rounds-SleepsLow,
}
use ikt104_eksamen_oppgave.Syscalls.Sample.{built_kernel, kernel_traces, noted_text}
use ikt104_eksamen_oppgave.Syscalls.Trace.{printed}
use ikt104_eksamen_oppgave.Syscalls.DeviceCalls.{device_is_ready}
use ikt104_eksamen_oppgave.Alarm.Pins.{
  Pins, gpio_init_calls, is_ready, configured, asked, gpio_init-effects,
}

abbrev released : Levels
released = record { snooze_now = pos 1; mute_now = pos 1; enable_now = pos 1 }

abbrev snooze_pressed : Levels
snooze_pressed = record { snooze_now = pos 0; mute_now = pos 1; enable_now = pos 1 }

abbrev read_error : Levels
read_error = record { snooze_now = negsuc 4; mute_now = pos 1; enable_now = pos 1 }

-- The pins set up, at midnight.
abbrev set_up : Alarm
set_up = (alarm_gpio_init true true initial).0

-- An alarm that has rung for eighteen seconds, and one with two seconds of snooze left.
abbrev rung : Alarm
unfolding initial
rung = record initial { alarm_active = true; active_seconds = 18 }

abbrev dozing : Alarm
unfolding initial
dozing = record initial { alarm_snoozed = true; snooze_seconds_left = pos 2 }

-- The alarm begins to ring in the third second, and the snooze button silences it.
three_seconds : phase (alarm_rounds (released ∷ released ∷ released ∷ []) set_up) ≡ ringing 1
unfolding initial alarm_gpio_init alarm_rounds alarm_round
three_seconds = refl

snoozed_in_time :
    phase (alarm_rounds (released ∷ released ∷ released ∷ snooze_pressed ∷ []) set_up)
    ≡ snoozing 299
unfolding initial alarm_gpio_init alarm_rounds alarm_round
snoozed_in_time = refl

-- Behind a reading that failed, the button does nothing.
no_edge :
    phase (alarm_rounds (released ∷ released ∷ read_error ∷ snooze_pressed ∷ []) set_up) ≡ ringing 2
unfolding initial alarm_gpio_init alarm_rounds alarm_round
no_edge = refl

alarm_thread-IsValid_example :
    IsValid (alarm_thread true true (released ∷ released ∷ released ∷ snooze_pressed ∷ []))
alarm_thread-IsValid_example =
    alarm_thread-IsValid true true (released ∷ released ∷ released ∷ snooze_pressed ∷ [])

alarm_rounds-time_of_day_example :
    time_of_day (alarm_rounds (released ∷ snooze_pressed ∷ []) initial)
    ≡ (time_of_day initial + 2) % seconds_a_day
alarm_rounds-time_of_day_example =
    alarm_rounds-time_of_day (released ∷ snooze_pressed ∷ []) initial initial-IsValid

phase-alarm_round_example :
    phase (alarm_round released initial) ≡ phase_round (input_of released initial) (phase initial)
phase-alarm_round_example = phase-alarm_round released initial initial-IsValid

rung-IsValid : IsValid rung
unfolding initial
rung-IsValid = ground arith

dozing-IsValid : IsValid dozing
unfolding initial
dozing-IsValid = ground arith

released-Released : Released released
released-Released = ground arith

auto_mute_example :
    (18 + 2 < 20 → phase (alarm_rounds (released ∷ released ∷ []) rung) ≡ ringing (18 + 2))
    × (◌≡◌ {A = ℕ} (18 + 2) 20 → phase (alarm_rounds (released ∷ released ∷ []) rung) ≡ idle)
unfolding initial
auto_mute_example =
    auto_mute (released ∷ released ∷ []) rung 18 rung-IsValid
      (released-Released, (released-Released, tt)) refl (omega arith)

snooze_lasts_example :
    (phase (alarm_rounds (released ∷ []) dozing) ≡ snoozing 1)
    × (phase (alarm_rounds (released ∷ released ∷ []) dozing) ≡ ringing 1)
unfolding initial
snooze_lasts_example =
    snooze_lasts (released ∷ []) released dozing dozing-IsValid (released-Released, tt)
      released-Released refl

goes_off_example :
    (phase (alarm_rounds (released ∷ []) initial) ≡ idle)
    × (phase (alarm_rounds ((released ∷ released ∷ []) ++ released ∷ []) initial) ≡ ringing 1)
unfolding initial
goes_off_example =
    goes_off (released ∷ []) (released ∷ []) released initial initial-IsValid (omega arith)
      (released-Released, tt) (released-Released, tt) released-Released refl (omega arith) refl

buttons_on_edge_example :
    let i = input_of snooze_pressed (alarm_round released set_up) in
    (i.snooze_down ≡ (pos 0 ==ℤ pos 0 && pos 1 ==ℤ pos 1))
    × (i.mute_down ≡ (pos 1 ==ℤ pos 0 && pos 1 ==ℤ pos 1))
    × (i.enable_down ≡ (pos 1 ==ℤ pos 0 && pos 1 ==ℤ pos 1))
unfolding initial alarm_gpio_init
buttons_on_edge_example = buttons_on_edge released snooze_pressed set_up refl refl

speaker_rounds-SleepsLow_example :
    SleepsLow 0 (speaker_rounds (rung ∷ initial ∷ []))
    × ((s : Alarm)
        → duration (speaker_round s) ≡ (if s.alarm_active && s.gpiob then 150000 else 100000))
speaker_rounds-SleepsLow_example = speaker_rounds-SleepsLow (rung ∷ initial ∷ [])

abbrev pins : Pins
pins = record {
  gpioa = 1000;
  gpiob = 2000;
  pull_up = 65552;
  inactive = 131072;
  speaker_thread_data = 3000;
  speaker_stack = 4000;
  speaker_thread_entry = 5000;
}

gpio_init-effects_example :
    (gpio_init_calls built_kernel noted_text pins []).1
    ≡ (if (alarm_gpio_init
          (is_ready built_kernel 1000 [])
          (is_ready built_kernel 2000 (device_is_ready built_kernel 1000 []).1)
          initial).1
        then configured pins
        else printed (codes "GPIO not ready\n") ∷ [])
      ++ (asked pins (is_ready built_kernel 1000 []) ++ [])
gpio_init-effects_example =
    gpio_init-effects built_kernel refl kernel_traces noted_text (λ text s. refl) pins initial []
