-- ===== src/Alarm/Waiting.antt =====
-- The alarm of alarm.c waits for its time and then rings, when no button is pressed.
use ikt104_eksamen_oppgave.Base.{
  ℕ, ◌+◌, ◌%◌, ◌≤◌, ◌<◌, true, List, [], ◌∷◌, ◌++◌, ◌≡◌, ◌≢◌, refl, ◌∙◌, ap, arith, length,
  length-append, All, All-append, Bool-cases, inl, inr, ◌↔◌,
}
use ikt104_eksamen_oppgave.Alarm.{Alarm, Levels, update_clock, alarm_round, alarm_rounds}
use ikt104_eksamen_oppgave.Alarm.Invariant.{
  IsValid, alarm_round-IsValid, alarm_rounds-IsValid, update_clock-IsValid,
}
use ikt104_eksamen_oppgave.Alarm.Clock.{
  time_of_day, alarm_time, seconds_a_day, alarm_round-time_of_day, alarm_round-SameTimes,
  update_clock-time_of_day, alarm_rounds-time_of_day,
}
use ikt104_eksamen_oppgave.Alarm.Phase.{
  idle, ringing, phase, at_alarm_time, ring_second, snooze_second, due,
}
use ikt104_eksamen_oppgave.Alarm.Timing.{Released, round-idle, alarm_rounds_last}

at_alarm_time_iff :
    (s : Alarm)
    → IsValid s
    → s.alarm_minute < 60
    → s.alarm_second < 60
    → (at_alarm_time s ≡ true) ↔ (time_of_day s ≡ alarm_time s)
at_alarm_time_iff s v m h = ground arith

-- The alarm's time of day is one that the clock shows.
abbrev pub IsAlarmTime : Alarm → Type 0
IsAlarmTime s = (s.alarm_hour < 24) × (s.alarm_minute < 60) × (s.alarm_second < 60)

alarm_round-IsAlarmTime : (p : Levels) (s : Alarm) → IsAlarmTime s → IsAlarmTime (alarm_round p s)
unfolding update_clock
alarm_round-IsAlarmTime p s t = ground (arith, alarm_round-SameTimes p s)

update_clock-IsAlarmTime : (s : Alarm) → IsAlarmTime s → IsAlarmTime (update_clock s)
unfolding update_clock
update_clock-IsAlarmTime s t = ground arith

update_clock-alarm_time : (s : Alarm) → alarm_time (update_clock s) ≡ alarm_time s
unfolding update_clock
update_clock-alarm_time s = ground arith

alarm_round-alarm_time : (p : Levels) (s : Alarm) → alarm_time (alarm_round p s) ≡ alarm_time s
unfolding update_clock
alarm_round-alarm_time p s = ground (arith, alarm_round-SameTimes p s)

-- A quiet second of waiting that does not end at the alarm's time, and one that does.
idle_on :
    (p : Levels) (s : Alarm)
    → IsValid s
    → IsAlarmTime s
    → Released p
    → phase s ≡ idle
    → (time_of_day s + 1) % seconds_a_day ≢ alarm_time s
    → phase (alarm_round p s) ≡ idle
idle_on p s v t r e h = elim (Bool-cases (at_alarm_time (update_clock s))) [
  | inl now ↦ absurd (
      h (
        arrived s (update_clock-time_of_day s v) (update_clock-alarm_time s)
          ((at_alarm_time_iff (update_clock s) (update_clock-IsValid s v) t'.1 t'.2).0 now)))
  | inr later ↦ round-idle p s v r e ∙ ap (λ b. ring_second (snooze_second (due b idle))) later
]
  where
    t' : IsAlarmTime (update_clock s)
    t' = update_clock-IsAlarmTime s t

    arrived :
        (s : Alarm)
        → time_of_day (update_clock s) ≡ (time_of_day s + 1) % seconds_a_day
        → alarm_time (update_clock s) ≡ alarm_time s
        → time_of_day (update_clock s) ≡ alarm_time (update_clock s)
        → (time_of_day s + 1) % seconds_a_day ≡ alarm_time s
    arrived s a b c = omega arith

idle_ends :
    (p : Levels) (s : Alarm)
    → IsValid s
    → IsAlarmTime s
    → Released p
    → phase s ≡ idle
    → (time_of_day s + 1) % seconds_a_day ≡ alarm_time s
    → phase (alarm_round p s) ≡ ringing 1
idle_ends p s v t r e h =
    let t' = update_clock-IsAlarmTime s t in
    let now =
      (at_alarm_time_iff (update_clock s) (update_clock-IsValid s v) t'.1 t'.2).1
        (omega (arith, update_clock-time_of_day s v, update_clock-alarm_time s)) in
    round-idle p s v r e ∙ ap (λ b. ring_second (snooze_second (due b idle))) now

still_idle :
    (ps : List Levels) (s : Alarm) (d : ℕ)
    → IsValid s
    → IsAlarmTime s
    → All Released ps
    → phase s ≡ idle
    → 1 ≤ d
    → length ps + d ≤ seconds_a_day
    → (time_of_day s + length ps + d) % seconds_a_day ≡ alarm_time s
    → phase (alarm_rounds ps s) ≡ idle
unfolding alarm_rounds
still_idle [] s d v t rs e h h' a = e
still_idle (p ∷ ps) s d v t (r, rs) e h h' a =
    still_idle ps (alarm_round p s) d (alarm_round-IsValid p s v) (alarm_round-IsAlarmTime p s t) rs
      (idle_on p s v t r e (omega arith)) h (omega arith)
      (omega (arith, alarm_round-time_of_day p s v, alarm_round-alarm_time p s))

alarm_rounds-alarm_time :
    (ps : List Levels) (s : Alarm) → alarm_time (alarm_rounds ps s) ≡ alarm_time s
unfolding alarm_rounds
alarm_rounds-alarm_time [] s = refl
alarm_rounds-alarm_time (p ∷ ps) s =
    alarm_rounds-alarm_time ps (alarm_round p s) ∙ alarm_round-alarm_time p s

alarm_rounds-IsAlarmTime :
    (ps : List Levels) (s : Alarm) → IsAlarmTime s → IsAlarmTime (alarm_rounds ps s)
unfolding alarm_rounds
alarm_rounds-IsAlarmTime [] s t = t
alarm_rounds-IsAlarmTime (p ∷ ps) s t =
    alarm_rounds-IsAlarmTime ps (alarm_round p s) (alarm_round-IsAlarmTime p s t)

-- Between the beginning `qs` of the waiting rounds and the alarm's time lie the other rounds `rs`
-- and one more.
idle_so_far :
    (qs rs : List Levels) (s : Alarm)
    → IsValid s
    → IsAlarmTime s
    → All Released qs
    → phase s ≡ idle
    → length (qs ++ rs) < seconds_a_day
    → (time_of_day s + length (qs ++ rs) + 1) % seconds_a_day ≡ alarm_time s
    → phase (alarm_rounds qs s) ≡ idle
idle_so_far qs rs s v t free e h a =
    still_idle qs s (length rs + 1) v t free e (omega arith) (omega (arith, length-append qs rs))
      (omega (arith, length-append qs rs))

-- From a valid idle state whose alarm is set to a time of day, and with no button pressed: the
-- alarm is idle after every one of the rounds in which the clock comes to one second before the
-- alarm's time, which are fewer than a day has seconds, and it rings in the round after them.
pub goes_off :
    (qs rs : List Levels) (p : Levels) (s : Alarm)
    → IsValid s
    → IsAlarmTime s
    → All Released qs
    → All Released rs
    → Released p
    → phase s ≡ idle
    → length (qs ++ rs) < seconds_a_day
    → (time_of_day s + length (qs ++ rs) + 1) % seconds_a_day ≡ alarm_time s
    → (phase (alarm_rounds qs s) ≡ idle)
      × (phase (alarm_rounds ((qs ++ rs) ++ p ∷ []) s) ≡ ringing 1)
goes_off qs rs p s v t free free' r e h a = (
  idle_so_far qs rs s v t free e h a,
  ap phase (alarm_rounds_last (qs ++ rs) p s)
      ∙ idle_ends p (alarm_rounds (qs ++ rs) s) (alarm_rounds-IsValid (qs ++ rs) s v)
          (alarm_rounds-IsAlarmTime (qs ++ rs) s t) r waiting
          (omega
            (arith, alarm_rounds-time_of_day (qs ++ rs) s v, alarm_rounds-alarm_time (qs ++ rs) s)),
)
  where
    waiting : phase (alarm_rounds (qs ++ rs) s) ≡ idle
    waiting =
        still_idle (qs ++ rs) s 1 v t (All-append Released qs rs free free') e (omega arith)
          (omega arith) a
