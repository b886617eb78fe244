-- ===== src/Screen/Texts.antt =====
-- The texts of the clock and of the date, digit by digit.
use ikt104_eksamen_oppgave.Base.{
  ℕ, zero, suc, ◌+◌, ◌/◌, ◌%◌, ◌<◌, ◌≤◌, ◌≡◌, refl, ap, arith, [], ◌∷◌, ◌++◌, ltb, lt→ltb,
  Bool-cases, inl, inr, Bytes, digits_fuel, decimal, false,
}
use ikt104_eksamen_oppgave.Alarm.{Alarm, two_digits, clock_text, alarm_get_clock_text}
use ikt104_eksamen_oppgave.Alarm.Invariant.{IsValid}
use ikt104_eksamen_oppgave.Screen.{line_size}

digits_fuel_one : (fuel n : ℕ) (acc : Bytes) → n < 10 → digits_fuel fuel n acc ≡ (b'0' + n) ∷ acc
digits_fuel_one zero n acc h =
    let same : n % 10 ≡ n = omega arith in ap (λ d. (b'0' + d) ∷ acc) same
digits_fuel_one (suc fuel) n acc h = rw (lt→ltb n 10 h) refl

digits_fuel_two :
    (fuel n : ℕ)
    → n ≤ fuel
    → 10 ≤ n
    → n < 100
    → digits_fuel fuel n [] ≡ (b'0' + n / 10) ∷ (b'0' + n % 10) ∷ []
digits_fuel_two zero n h ten hundred = absurd (omega arith)
digits_fuel_two (suc fuel) n h ten hundred =
    rw several (digits_fuel_one fuel (n / 10) _ (omega arith))
  where
    several : ltb n 10 ≡ false
    several = ground arith

-- A number from 0 to 99 as two digits.
abbrev pub digit_pair : ℕ → Bytes
digit_pair n = (b'0' + n / 10) ∷ (b'0' + n % 10) ∷ []

pub two_digits-digit_pair : (n : ℕ) → n < 100 → two_digits n ≡ digit_pair n
unfolding two_digits decimal
two_digits-digit_pair n h = elim (Bool-cases (ltb n 10)) [
  | inl one ↦
      let none_above : n / 10 ≡ 0 = ground arith in
      let same : n % 10 ≡ n = ground arith in
      rw (one, none_above, same, digits_fuel_one n n [] (ground arith)) refl
  | inr more ↦ rw more (digits_fuel_two n n (omega arith) (ground arith) h)
]

-- Two digits of each, with colons between them.
abbrev pub clock_digits : ℕ → ℕ → ℕ → Bytes
clock_digits h m s = digit_pair h ++ (b':' ∷ digit_pair m ++ (b':' ∷ digit_pair s))

pub clock_text-clock_digits :
    (h m s : ℕ) → h < 100 → m < 100 → s < 100 → clock_text h m s ≡ clock_digits h m s
unfolding clock_text
clock_text-clock_digits h m s hh hm hs =
    rw (two_digits-digit_pair h hh, two_digits-digit_pair m hm, two_digits-digit_pair s hs) refl

-- In every valid state of the alarm, the clock's text is the two digits of the hour, of the minute
-- and of the second, with colons between them; nothing of it is cut off.
pub alarm_get_clock_text-clock_digits :
    (s : Alarm)
    → IsValid s
    → alarm_get_clock_text line_size s
      ≡ clock_digits s.current_hour s.current_minute s.current_second
unfolding alarm_get_clock_text
alarm_get_clock_text-clock_digits s v =
    rw
      (clock_text-clock_digits s.current_hour s.current_minute s.current_second
        (omega (arith, v.hour_in)) (omega (arith, v.minute_in)) (omega (arith, v.second_in)))
      refl
