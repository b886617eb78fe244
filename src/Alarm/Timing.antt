-- ===== src/Alarm/Timing.antt =====
-- How long the alarm of alarm.c rings and is snoozed when no button is pressed.
use ikt104_eksamen_oppgave.Base.{
  ℕ, suc, ◌+◌, ◌<◌, ℤ, pos, Bool, true, false, ◌&&◌, List, [], ◌∷◌, ◌++◌, ◌≡◌, ◌≢◌, refl, ◌∙◌, ap,
  arith, length, All,
}
use ikt104_eksamen_oppgave.Alarm.{Alarm, Levels, update_clock, pressed, alarm_round, alarm_rounds}
use ikt104_eksamen_oppgave.Alarm.Invariant.{IsValid, alarm_round-IsValid, alarm_rounds-IsValid}
use ikt104_eksamen_oppgave.Alarm.Phase.{
  Phase, off, idle, ringing, snoozing, phase, phase_round, phase-alarm_round, at_alarm_time,
  ring_second, snooze_second, due,
}

-- No button reads 0.
abbrev pub Released : Levels → Type 0
Released p = (p.snooze_now ≢ pos 0) × (p.mute_now ≢ pos 0) × (p.enable_now ≢ pos 0)

not_pressed : (set : Bool) (now last : ℤ) → now ≢ pos 0 → (set && pressed now last) ≡ false
not_pressed set now last h = ground arith

round_Released :
    (p : Levels) (s : Alarm)
    → IsValid s
    → Released p
    → phase (alarm_round p s)
      ≡ ring_second (snooze_second (due (at_alarm_time (update_clock s)) (phase s)))
round_Released p s v (a, b, c) = phase-alarm_round p s v ∙ λ i.
    phase_round
      (record {
        at_time = at_alarm_time (update_clock s);
        snooze_down = not_pressed (s.gpioa && s.gpiob) p.snooze_now s.last_snooze a i;
        mute_down = not_pressed (s.gpioa && s.gpiob) p.mute_now s.last_mute b i;
        enable_down = not_pressed (s.gpioa && s.gpiob) p.enable_now s.last_enable c i;
      })
      (phase s)

due_busy : (b : Bool) (q : Phase) → q ≢ idle → due b q ≡ q
due_busy true off h = refl
due_busy true idle h = absurd (h refl)
due_busy true (ringing n) h = refl
due_busy true (snoozing n) h = refl
due_busy false q h = refl

-- A quiet second of ringing, of snoozing, and of waiting.
round-ringing :
    (p : Levels) (s : Alarm) {k : ℕ}
    → IsValid s
    → Released p
    → phase s ≡ ringing k
    → phase (alarm_round p s) ≡ ring_second (ringing k)
round-ringing p s v r e =
    round_Released p s v r ∙ ap (λ q. ring_second (snooze_second q)) (due_busy _ _ (λ h. cc) ∙ e)

round-snoozing :
    (p : Levels) (s : Alarm) {k : ℕ}
    → IsValid s
    → Released p
    → phase s ≡ snoozing k
    → phase (alarm_round p s) ≡ ring_second (snooze_second (snoozing k))
round-snoozing p s v r e =
    round_Released p s v r ∙ ap (λ q. ring_second (snooze_second q)) (due_busy _ _ (λ h. cc) ∙ e)

pub round-idle :
    (p : Levels) (s : Alarm)
    → IsValid s
    → Released p
    → phase s ≡ idle
    → phase (alarm_round p s)
      ≡ ring_second (snooze_second (due (at_alarm_time (update_clock s)) idle))
round-idle p s v r e =
    round_Released p s v r
    ∙ ap (λ q. ring_second (snooze_second (due (at_alarm_time (update_clock s)) q))) e

ring_second-lt : (k : ℕ) → k + 1 < 20 → ring_second (ringing k) ≡ ringing (k + 1)
ring_second-lt k h = ground arith

ring_second_last : (k : ℕ) → k + 1 ≡ 20 → ring_second (ringing k) ≡ idle
ring_second_last k h = ground arith

still_ringing :
    (ps : List Levels) (s : Alarm) (k : ℕ)
    → IsValid s
    → All Released ps
    → phase s ≡ ringing k
    → k + length ps < 20
    → phase (alarm_rounds ps s) ≡ ringing (k + length ps)
unfolding alarm_rounds
still_ringing [] s k v r e h = e ∙ ap ringing (omega arith)
still_ringing (p ∷ ps) s k v (r, rs) e h =
    still_ringing ps (alarm_round p s) (k + 1) (alarm_round-IsValid p s v) rs
      (round-ringing p s v r e ∙ ring_second-lt k (omega arith)) (omega arith)
    ∙ ap ringing (omega arith)

stops_ringing :
    (ps : List Levels) (s : Alarm) (k : ℕ)
    → IsValid s
    → All Released ps
    → phase s ≡ ringing k
    → k < 20
    → k + length ps ≡ 20
    → phase (alarm_rounds ps s) ≡ idle
unfolding alarm_rounds
stops_ringing [] s k v r e h h' = absurd (omega arith)
stops_ringing (p ∷ []) s k v (r, rs) e h h' =
    round-ringing p s v r e ∙ ring_second_last k (omega arith)
stops_ringing (p ∷ q ∷ ps) s k v (r, rs) e h h' =
    stops_ringing (q ∷ ps) (alarm_round p s) (k + 1) (alarm_round-IsValid p s v) rs
      (round-ringing p s v r e ∙ ring_second-lt k (omega arith)) (omega arith) (omega arith)

-- From a valid state in which the alarm has rung for k seconds, k below twenty, and with no button
-- pressed: after n more rounds, k + n below twenty, it still rings and has rung for k + n; when
-- k + n is twenty, it is idle.
pub auto_mute :
    (ps : List Levels) (s : Alarm) (k : ℕ)
    → IsValid s
    → All Released ps
    → phase s ≡ ringing k
    → k < 20
    → (k + length ps < 20 → phase (alarm_rounds ps s) ≡ ringing (k + length ps))
      × (k + length ps ≡ 20 → phase (alarm_rounds ps s) ≡ idle)
auto_mute ps s k v r e h = (still_ringing ps s k v r e, stops_ringing ps s k v r e h)

still_snoozing :
    (ps : List Levels) (s : Alarm) (k : ℕ)
    → IsValid s
    → All Released ps
    → phase s ≡ snoozing (suc (k + length ps))
    → phase (alarm_rounds ps s) ≡ snoozing (suc k)
unfolding alarm_rounds
still_snoozing [] s k v r e = e ∙ ap snoozing (omega arith)
still_snoozing (p ∷ ps) s k v (r, rs) e =
    still_snoozing ps (alarm_round p s) k (alarm_round-IsValid p s v) rs
      (round-snoozing p s {k = suc (suc (k + length ps))} v r (e ∙ ap snoozing (omega arith)))

-- The last round of a snooze begins to ring, and that round is the first second of ringing.
snooze_ends :
    (p : Levels) (s : Alarm)
    → IsValid s
    → Released p
    → phase s ≡ snoozing 1
    → phase (alarm_round p s) ≡ ringing 1
snooze_ends p s v r e = round-snoozing p s v r e

pub alarm_rounds_last :
    (ps : List Levels) (p : Levels) (s : Alarm)
    → alarm_rounds (ps ++ p ∷ []) s ≡ alarm_round p (alarm_rounds ps s)
unfolding alarm_rounds
alarm_rounds_last [] p s = refl
alarm_rounds_last (q ∷ ps) p s = alarm_rounds_last ps p (alarm_round q s)

-- From a valid state with n + 1 seconds of snooze left, and with no button pressed: n rounds later
-- the alarm is still snoozed with one second left, and it rings in the round after them.
pub snooze_lasts :
    (ps : List Levels) (p : Levels) (s : Alarm)
    → IsValid s
    → All Released ps
    → Released p
    → phase s ≡ snoozing (suc (length ps))
    → (phase (alarm_rounds ps s) ≡ snoozing 1) × (phase (alarm_rounds (ps ++ p ∷ []) s) ≡ ringing 1)
snooze_lasts ps p s v rs r e =
    let at_end = still_snoozing ps s 0 v rs (e ∙ ap snoozing (omega arith)) in
    (
      at_end,
      ap phase (alarm_rounds_last ps p s) ∙ snooze_ends p _ (alarm_rounds-IsValid ps s v) r at_end,
    )
