-- ===== src/Alarm/Phase.antt =====
-- The alarm as a machine of four phases, and a proof that a round of the thread's loop is a step
-- of it. The machine has one number at a time where the program keeps two counters and three
-- flags.
use ikt104_eksamen_oppgave.Base.{
  ℕ, zero, suc, ◌+◌, pos_part, Bool, true, false, not, ◌&&◌, ◌||◌, ◌≡◌, refl, ◌∙◌, arith, leb, ◌==◌,
  if◌then◌else◌, ap,
}
use ikt104_eksamen_oppgave.Alarm.{
  Alarm, Levels, update_clock, check_alarm_time, update_snooze, update_auto_mute, alarm_snooze,
  alarm_mute, alarm_toggle_enabled, pressed, when, record_levels, alarm_check_buttons, alarm_round,
}
use ikt104_eksamen_oppgave.Alarm.Invariant.{
  IsValid, update_clock-IsValid, check_alarm_time-IsValid, update_snooze-IsValid,
  alarm_snooze-IsValid, alarm_mute-IsValid, when-IsValid, alarm_check_buttons-IsValid,
}
use ikt104_eksamen_oppgave.Alarm.Clock.{SameTimes, alarm_check_buttons-SameTimes}

pub data Phase : Type 0 where
  off : Phase
  idle : Phase
  ringing : ℕ → Phase  -- the seconds for which it has rung
  snoozing : ℕ → Phase  -- the seconds that are left

abbrev pub phase : Alarm → Phase
phase s =
    if not s.alarm_enabled
    then off
    else if s.alarm_active
    then ringing s.active_seconds
    else if s.alarm_snoozed
    then snoozing (pos_part s.snooze_seconds_left)
    else idle

abbrev pub press_snooze : Phase → Phase
press_snooze (ringing n) = snoozing 300
press_snooze q = q

abbrev pub press_mute : Phase → Phase
press_mute (ringing n) = idle
press_mute (snoozing n) = idle
press_mute q = q

abbrev pub press_enable : Phase → Phase
press_enable off = idle
press_enable _ = off

-- At the alarm's time an idle alarm begins to ring.
abbrev pub due : Bool → Phase → Phase
due true idle = ringing 0
due _ q = q

-- A second of the snooze; after the last one the alarm rings again.
abbrev pub snooze_second : Phase → Phase
snooze_second (snoozing zero) = ringing 0
snooze_second (snoozing (suc zero)) = ringing 0
snooze_second (snoozing (suc (suc n))) = snoozing (suc n)
snooze_second q = q

-- A second of ringing; after twenty the alarm stops by itself.
abbrev pub ring_second : Phase → Phase
ring_second (ringing n) = if leb 20 (n + 1) then idle else ringing (n + 1)
ring_second q = q

abbrev pub if_pressed : Bool → (Phase → Phase) → Phase → Phase
if_pressed b f q = if b then f q else q

abbrev pub at_alarm_time : Alarm → Bool
at_alarm_time s =
    s.current_hour == s.alarm_hour
    && s.current_minute == s.alarm_minute
    && s.current_second == s.alarm_second

-- What one round sees: whether the clock has come to the alarm's time, and which buttons went down.
pub record Input : Type 0 where
  pub at_time : Bool
  pub snooze_down : Bool
  pub mute_down : Bool
  pub enable_down : Bool

abbrev pub input_of : Levels → Alarm → Input
input_of p s = record {
  at_time = at_alarm_time (update_clock s);
  snooze_down = (s.gpioa && s.gpiob) && pressed p.snooze_now s.last_snooze;
  mute_down = (s.gpioa && s.gpiob) && pressed p.mute_now s.last_mute;
  enable_down = (s.gpioa && s.gpiob) && pressed p.enable_now s.last_enable;
}

-- The round of the machine: the buttons, the alarm's time, a second of snooze, a second of ringing.
abbrev pub phase_round : Input → Phase → Phase
phase_round i q = ring_second (
    snooze_second (
      due i.at_time (
        if_pressed i.enable_down press_enable
          (if_pressed i.mute_down press_mute (if_pressed i.snooze_down press_snooze q)))))

-- The parts of the round, each on its own.
phase-update_clock : (s : Alarm) → phase (update_clock s) ≡ phase s
unfolding update_clock
phase-update_clock s = ground arith

phase-check_alarm_time :
    (s : Alarm) → IsValid s → phase (check_alarm_time s) ≡ due (at_alarm_time s) (phase s)
unfolding check_alarm_time
phase-check_alarm_time s v = ground arith

phase-update_snooze : (s : Alarm) → IsValid s → phase (update_snooze s) ≡ snooze_second (phase s)
unfolding update_snooze
phase-update_snooze s v = ground arith

phase-update_auto_mute :
    (s : Alarm) → IsValid s → phase (update_auto_mute s) ≡ ring_second (phase s)
unfolding update_auto_mute
phase-update_auto_mute s v = ground arith

phase-alarm_snooze : (s : Alarm) → IsValid s → phase (alarm_snooze s) ≡ press_snooze (phase s)
unfolding alarm_snooze
phase-alarm_snooze s v = ground arith

phase-alarm_mute : (s : Alarm) → IsValid s → phase (alarm_mute s) ≡ press_mute (phase s)
unfolding alarm_mute
phase-alarm_mute s v = ground arith

phase-alarm_toggle_enabled :
    (s : Alarm) → IsValid s → phase (alarm_toggle_enabled s) ≡ press_enable (phase s)
unfolding alarm_toggle_enabled
phase-alarm_toggle_enabled s v = ground arith

phase-record_levels : (p : Levels) (s : Alarm) → phase (record_levels p s) ≡ phase s
unfolding record_levels
phase-record_levels p s = refl

phase-when :
    (b : Bool) (handler : Alarm → Alarm) (press : Phase → Phase) (s : Alarm)
    → phase (handler s) ≡ press (phase s)
    → phase (when b handler s) ≡ if_pressed b press (phase s)
phase-when true handler press s e = e
phase-when false handler press s e = refl

-- The three presses, given whether the pins are set up and whether each button went down.
abbrev presses : Bool → Bool → Bool → Bool → Phase → Phase
presses set snooze mute enable q =
    if_pressed (set && enable) press_enable
      (if_pressed (set && mute) press_mute (if_pressed (set && snooze) press_snooze q))

phase-handlers :
    (a b c : Bool) (p : Levels) (s : Alarm)
    → IsValid s
    → phase
        (record_levels p (when c alarm_toggle_enabled (when b alarm_mute (when a alarm_snooze s))))
      ≡ presses true a b c (phase s)
phase-handlers a b c p s v =
    let after_snooze = when-IsValid a alarm_snooze s alarm_snooze-IsValid v in
    let after_mute =
      when-IsValid b alarm_mute (when a alarm_snooze s) alarm_mute-IsValid after_snooze in
    phase-record_levels p _
    ∙ phase-when c alarm_toggle_enabled press_enable _ (phase-alarm_toggle_enabled _ after_mute)
    ∙ ap (if_pressed c press_enable) (
        phase-when b alarm_mute press_mute _ (phase-alarm_mute _ after_snooze)
        ∙ ap (if_pressed b press_mute)
            (phase-when a alarm_snooze press_snooze s (phase-alarm_snooze s v)))

-- The early return where a pointer is NULL.
phase_guarded :
    (a b u v w : Bool) (s t : Alarm)
    → phase t ≡ presses true u v w (phase s)
    → phase (if not a || not b then s else t) ≡ presses (a && b) u v w (phase s)
phase_guarded true true u v w s t e = e
phase_guarded true false u v w s t e = refl
phase_guarded false b u v w s t e = refl

phase-alarm_check_buttons :
    (p : Levels) (s : Alarm)
    → IsValid s
    → phase (alarm_check_buttons p s)
      ≡ presses
          (s.gpioa && s.gpiob)
          (pressed p.snooze_now s.last_snooze)
          (pressed p.mute_now s.last_mute)
          (pressed p.enable_now s.last_enable)
          (phase s)
phase-alarm_check_buttons p s v =
    unfold alarm_check_buttons in
    phase_guarded s.gpioa s.gpiob _ _ _ s _ (
      phase-handlers (pressed p.snooze_now s.last_snooze) (pressed p.mute_now s.last_mute)
        (pressed p.enable_now s.last_enable) p s v)

-- `update_clock` touches nothing that the buttons' handler reads.
update_clock_buttons :
    (s : Alarm)
    → ((update_clock s).gpioa ≡ s.gpioa)
      × ((update_clock s).gpiob ≡ s.gpiob)
      × ((update_clock s).last_snooze ≡ s.last_snooze)
      × ((update_clock s).last_mute ≡ s.last_mute)
      × ((update_clock s).last_enable ≡ s.last_enable)
unfolding update_clock
update_clock_buttons s = ground arith

phase-buttons_of_round :
    (p : Levels) (s : Alarm)
    → IsValid s
    → phase (alarm_check_buttons p (update_clock s))
      ≡ presses
          (s.gpioa && s.gpiob)
          (pressed p.snooze_now s.last_snooze)
          (pressed p.mute_now s.last_mute)
          (pressed p.enable_now s.last_enable)
          (phase s)
phase-buttons_of_round p s v =
    let (a, b, c, d, e) = update_clock_buttons s in
    phase-alarm_check_buttons p (update_clock s) (update_clock-IsValid s v) ∙ λ i.
    presses (a i && b i) (pressed p.snooze_now (c i)) (pressed p.mute_now (d i))
      (pressed p.enable_now (e i)) (phase-update_clock s i)

at_alarm_time_same : {s t : Alarm} → SameTimes s t → at_alarm_time t ≡ at_alarm_time s
at_alarm_time_same e = ground arith

-- A round of the thread's loop is a round of the machine: from a valid state, the phase behind it
-- is the machine's, on what the round sees of the clock and the buttons.
pub phase-alarm_round :
    (p : Levels) (s : Alarm)
    → IsValid s
    → phase (alarm_round p s) ≡ phase_round (input_of p s) (phase s)
phase-alarm_round p s v =
    unfold alarm_round in
    phase-update_auto_mute _ v₃
    ∙ ap ring_second (
        phase-update_snooze _ v₂
        ∙ ap snooze_second (
            phase-check_alarm_time _ v₁
            ∙ ap (λ b. due b (phase s₁))
                (at_alarm_time_same {s = update_clock s} {t = s₁}
                  (alarm_check_buttons-SameTimes p (update_clock s)))
            ∙ ap (due (at_alarm_time (update_clock s))) (phase-buttons_of_round p s v)))
  where
    s₁ : Alarm
    s₁ = alarm_check_buttons p (update_clock s)

    v₁ : IsValid s₁
    v₁ = alarm_check_buttons-IsValid p _ (update_clock-IsValid s v)

    v₂ : IsValid (check_alarm_time s₁)
    v₂ = check_alarm_time-IsValid _ v₁

    v₃ : IsValid (update_snooze (check_alarm_time s₁))
    v₃ = update_snooze-IsValid _ v₂
