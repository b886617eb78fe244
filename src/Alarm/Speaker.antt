-- ===== src/Alarm/Speaker.antt =====
-- exsamene/src/alarm.c, `speaker_thread_entry`: what the speaker's thread does to its pin, and
-- when.
use mathlib.Core.Path.{subst}
use ikt104_eksamen_oppgave.Base.{
  ℕ, zero, suc, ◌+◌, ◌*◌, ◌≡◌, refl, sym, ap, ◌∙◌, arith, Bool, true, false, ◌&&◌, List, [], ◌∷◌,
  ◌++◌, if◌then◌else◌, if_of_both,
}
use ikt104_eksamen_oppgave.Alarm.{Alarm}

-- `gpio_pin_set` of the speaker's pin, `k_busy_wait` in microseconds, `k_msleep` in milliseconds.
pub data Act : Type 0 where
  pin_set : ℕ → Act
  busy_wait : ℕ → Act
  msleep : ℕ → Act

unfoldable pub beeps : ℕ → List Act
beeps zero = []
beeps (suc n) = pin_set 1 ∷ busy_wait 250 ∷ pin_set 0 ∷ busy_wait 250 ∷ beeps n

-- A round of the loop, on the state of the alarm that it finds.
unfoldable pub speaker_round : Alarm → List Act
speaker_round s =
    if s.alarm_active && s.gpiob
    then beeps 200 ++ msleep 50 ∷ []
    else ((if s.gpiob then pin_set 0 ∷ [] else []) ++ msleep 100 ∷ [])

unfoldable pub speaker_rounds : List Alarm → List Act
speaker_rounds [] = []
speaker_rounds (s ∷ ss) = speaker_round s ++ speaker_rounds ss

-- The microseconds that some acts take.
unfoldable pub duration : List Act → ℕ
duration [] = 0
duration (pin_set level ∷ acts) = duration acts
duration (busy_wait us ∷ acts) = us + duration acts
duration (msleep ms ∷ acts) = ms * 1000 + duration acts

-- With the pin at `level`, it is low whenever the thread sleeps, and at the end.
unfoldable pub SleepsLow : ℕ → List Act → Type 0
SleepsLow level [] = level ≡ 0
SleepsLow level (pin_set new ∷ acts) = SleepsLow new acts
SleepsLow level (busy_wait us ∷ acts) = SleepsLow level acts
SleepsLow level (msleep ms ∷ acts) = (level ≡ 0) × SleepsLow level acts

SleepsLow-append :
    (level : ℕ) (xs ys : List Act)
    → SleepsLow level xs
    → SleepsLow 0 ys
    → SleepsLow level (xs ++ ys)
unfolding SleepsLow
SleepsLow-append level [] ys h k = subst (λ l. SleepsLow l ys) (sym h) k
SleepsLow-append level (pin_set new ∷ xs) ys h k = SleepsLow-append new xs ys h k
SleepsLow-append level (busy_wait us ∷ xs) ys h k = SleepsLow-append level xs ys h k
SleepsLow-append level (msleep ms ∷ xs) ys (z, h) k = (z, SleepsLow-append level xs ys h k)

beeps-SleepsLow : (n : ℕ) → SleepsLow 0 (beeps n)
unfolding SleepsLow beeps
beeps-SleepsLow zero = refl
beeps-SleepsLow (suc n) = beeps-SleepsLow n

duration-append : (xs ys : List Act) → duration (xs ++ ys) ≡ duration xs + duration ys
unfolding duration
duration-append [] ys = omega arith
duration-append (pin_set level ∷ xs) ys = duration-append xs ys
duration-append (busy_wait us ∷ xs) ys = omega (arith, duration-append xs ys)
duration-append (msleep ms ∷ xs) ys = omega (arith, duration-append xs ys)

duration-beeps : (n : ℕ) → duration (beeps n) ≡ n * 500
unfolding duration beeps
duration-beeps zero = refl
duration-beeps (suc n) = omega (arith, duration-beeps n)

silent_round : (b : Bool) → SleepsLow 0 ((if b then pin_set 0 ∷ [] else []) ++ msleep 100 ∷ [])
unfolding SleepsLow
silent_round true = (refl, refl)
silent_round false = (refl, refl)

speaker_round-SleepsLow : (s : Alarm) → SleepsLow 0 (speaker_round s)
speaker_round-SleepsLow s =
    unfold speaker_round in
    if_of_both (SleepsLow 0) (s.alarm_active && s.gpiob) (beeps 200 ++ msleep 50 ∷ [])
      ((if s.gpiob then pin_set 0 ∷ [] else []) ++ msleep 100 ∷ [])
      (SleepsLow-append 0 (beeps 200) (msleep 50 ∷ []) (beeps-SleepsLow 200)
        (unfold SleepsLow in (refl, refl)))
      (silent_round s.gpiob)

speaker_low : (ss : List Alarm) → SleepsLow 0 (speaker_rounds ss)
unfolding speaker_rounds
speaker_low [] = unfold SleepsLow in refl
speaker_low (s ∷ ss) =
    SleepsLow-append 0 (speaker_round s) (speaker_rounds ss) (speaker_round-SleepsLow s)
      (speaker_low ss)

duration_if :
    (b : Bool) (xs ys : List Act) (m n : ℕ)
    → duration xs ≡ m
    → duration ys ≡ n
    → duration (if b then xs else ys) ≡ (if b then m else n)
duration_if true xs ys m n h k = h
duration_if false xs ys m n h k = k

silent_duration :
    (b : Bool) → duration ((if b then pin_set 0 ∷ [] else []) ++ msleep 100 ∷ []) ≡ 100000
unfolding duration
silent_duration true = refl
silent_duration false = refl

beep_duration : duration (beeps 200 ++ msleep 50 ∷ []) ≡ 150000
beep_duration =
    duration-append (beeps 200) (msleep 50 ∷ [])
    ∙ ap (λ d. d + duration (msleep 50 ∷ [])) (duration-beeps 200)
    ∙ (unfold duration in refl)

speaker_duration :
    (s : Alarm)
    → duration (speaker_round s) ≡ (if s.alarm_active && s.gpiob then 150000 else 100000)
unfolding speaker_round
speaker_duration s =
    duration_if (s.alarm_active && s.gpiob) (beeps 200 ++ msleep 50 ∷ [])
      ((if s.gpiob then pin_set 0 ∷ [] else []) ++ msleep 100 ∷ []) 150000 100000 beep_duration
      (silent_duration s.gpiob)

-- Whatever the alarm does meanwhile, the speaker's pin is low whenever the thread sleeps and at the
-- end of every round, from the low level that the pin is set up with; and a round takes 150
-- milliseconds if the alarm rings and 100 if it does not.
pub speaker_rounds-SleepsLow :
    (ss : List Alarm)
    → SleepsLow 0 (speaker_rounds ss)
      × ((s : Alarm)
          → duration (speaker_round s) ≡ (if s.alarm_active && s.gpiob then 150000 else 100000))
speaker_rounds-SleepsLow ss = (speaker_low ss, speaker_duration)
