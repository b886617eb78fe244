-- ===== src/Calendar/Epoch.antt =====
-- The epoch's digits, read back by `screen_show_datetime`.
use ikt104_eksamen_oppgave.Base.{
  ℕ, zero, suc, ◌+◌, ◌-◌, ◌*◌, ◌/◌, ◌%◌, ◌≤◌, ◌<◌, ◌≡◌, ◌∙◌, arith, Bool-cases, inl, inr, false,
  ltb, none, some, [], ◌∷◌, Bytes, digits_fuel, decimal,
}
use ikt104_eksamen_oppgave.Calendar.{long_max, read_epoch}

-- A digit is read by one round of the loop, unless the number would be too great.
read_epoch_digit :
    (epoch d next : ℕ) (rest : Bytes)
    → d < 10
    → epoch * 10 + d ≡ next
    → next ≤ long_max
    → read_epoch epoch ((b'0' + d) ∷ rest) ≡ read_epoch next rest
unfolding read_epoch
read_epoch_digit epoch d next rest h e fits =
    let same : epoch * 10 + (b'0' + d - b'0') ≡ next = omega arith in rw same (ground arith)

read_epoch_digit_overflow :
    (epoch d : ℕ) (rest : Bytes)
    → d < 10
    → long_max < epoch * 10 + d
    → read_epoch epoch ((b'0' + d) ∷ rest) ≡ none
unfolding read_epoch
read_epoch_digit_overflow epoch d rest h over = ground arith

read_epoch-digits_fuel :
    (fuel n : ℕ) (rest : Bytes)
    → n ≤ fuel
    → n ≤ long_max
    → read_epoch 0 (digits_fuel fuel n rest) ≡ read_epoch n rest
read_epoch-digits_fuel zero n rest h fits =
    read_epoch_digit 0 (n % 10) n rest (omega arith) (omega arith) fits
read_epoch-digits_fuel (suc fuel) n rest h fits = elim (Bool-cases (ltb n 10)) [
  | inl one ↦ rw one (read_epoch_digit 0 n n rest (ground arith) (omega arith) fits)
  | inr more ↦ rw more (
      read_epoch-digits_fuel fuel (n / 10) ((b'0' + n % 10) ∷ rest) (ground arith) (omega arith)
      ∙ read_epoch_digit (n / 10) (n % 10) n rest (omega arith) (omega arith) fits)
]

read_epoch-digits_fuel_overflow :
    (fuel n : ℕ) (rest : Bytes)
    → n ≤ fuel
    → long_max < n
    → read_epoch 0 (digits_fuel fuel n rest) ≡ none
read_epoch-digits_fuel_overflow zero n rest h over = absurd (omega arith)
read_epoch-digits_fuel_overflow (suc fuel) n rest h over =
    rw several (elim (Bool-cases (ltb long_max (n / 10))) [
      | inl early ↦
          read_epoch-digits_fuel_overflow fuel (n / 10) ((b'0' + n % 10) ∷ rest) (omega arith)
            (ground arith)
      | inr late ↦
          read_epoch-digits_fuel fuel (n / 10) ((b'0' + n % 10) ∷ rest) (omega arith) (ground arith)
          ∙ read_epoch_digit_overflow (n / 10) (n % 10) rest (omega arith) (omega arith)
    ])
  where
    several : ltb n 10 ≡ false
    several = ground arith

-- The loop reads back the decimal digits of every number that a `long` holds, and overflows on the
-- digits of every greater one.
pub read_epoch-decimal :
    (n : ℕ)
    → (n ≤ long_max → read_epoch 0 (decimal n) ≡ some n)
      × (long_max < n → read_epoch 0 (decimal n) ≡ none)
unfolding read_epoch decimal
read_epoch-decimal n = (
  read_epoch-digits_fuel n n [] (omega arith),
  read_epoch-digits_fuel_overflow n n [] (omega arith),
)
