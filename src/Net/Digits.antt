-- ===== src/Net/Digits.antt =====
-- `atoi` on the digits of a number and what stands behind them.
use ikt104_eksamen_oppgave.Base.{
  ℕ, zero, suc, ◌+◌, ◌-◌, ◌*◌, ◌/◌, ◌%◌, ◌<◌, ◌≤◌, pos, ◌≡◌, refl, sym, ap, ◌∙◌, arith, Bool-cases,
  inl, inr, true, false, some, [], ◌∷◌, ◌++◌, ltb, leb, ◌==◌, Bytes, digits_fuel, decimal,
}
use ikt104_eksamen_oppgave.Net.{int_max, is_space, skip_spaces, read_digits, atoi_signed, atoi}

read_digits_digit :
    (n d next : ℕ) (rest : Bytes)
    → d < 10
    → n * 10 + d ≡ next
    → read_digits n ((b'0' + d) ∷ rest) ≡ read_digits next rest
unfolding read_digits
read_digits_digit n d next rest h e =
    let same : n * 10 + (b'0' + d - b'0') ≡ next = omega arith in rw same (ground arith)

read_digits-digits_fuel :
    (fuel n : ℕ) (rest : Bytes)
    → n ≤ fuel
    → read_digits 0 (digits_fuel fuel n rest) ≡ read_digits n rest
read_digits-digits_fuel zero n rest h =
    read_digits_digit 0 (n % 10) n rest (omega arith) (omega arith)
read_digits-digits_fuel (suc fuel) n rest h = elim (Bool-cases (ltb n 10)) [
  | inl one ↦ rw one (read_digits_digit 0 n n rest (ground arith) (omega arith))
  | inr more ↦ rw more (
      read_digits-digits_fuel fuel (n / 10) ((b'0' + n % 10) ∷ rest) (ground arith)
      ∙ read_digits_digit (n / 10) (n % 10) n rest (omega arith) (omega arith))
]

append-digits_fuel :
    (fuel n : ℕ) (acc rest : Bytes)
    → digits_fuel fuel n acc ++ rest ≡ digits_fuel fuel n (acc ++ rest)
append-digits_fuel zero n acc rest = refl
append-digits_fuel (suc fuel) n acc rest = elim (Bool-cases (ltb n 10)) [
  | inl one ↦ rw one refl
  | inr more ↦ rw more (append-digits_fuel fuel (n / 10) ((b'0' + n % 10) ∷ acc) rest)
]

-- The text begins with a digit.
digits_fuel_begins :
    (fuel n : ℕ) (acc : Bytes)
    → (d : ℕ) × (text : Bytes) × (d < 10) × (digits_fuel fuel n acc ≡ (b'0' + d) ∷ text)
digits_fuel_begins zero n acc = (n % 10, acc, omega arith, refl)
digits_fuel_begins (suc fuel) n acc = elim (Bool-cases (ltb n 10)) [
  | inl one ↦ (n, acc, ground arith, rw one refl)
  | inr more ↦
      let (d, text, h, e) = digits_fuel_begins fuel (n / 10) ((b'0' + n % 10) ∷ acc) in
      (d, text, h, rw more e)
]

atoi_digit :
    (d n : ℕ) (text : Bytes)
    → d < 10
    → n ≤ int_max
    → read_digits 0 ((b'0' + d) ∷ text) ≡ n
    → atoi ((b'0' + d) ∷ text) ≡ some (pos n)
unfolding atoi skip_spaces atoi_signed
atoi_digit d n text h fits e = rw (not_space, not_minus, not_plus, e, small) refl
  where
    not_space : is_space (b'0' + d) ≡ false
    not_space = ground arith

    not_minus : (b'0' + d == b'-') ≡ false
    not_minus = ground arith

    not_plus : (b'0' + d == b'+') ≡ false
    not_plus = ground arith

    small : leb n int_max ≡ true
    small = ground arith

-- A number is read up to the end of its line.
pub atoi-decimal :
    (n : ℕ) (rest : Bytes) → n ≤ int_max → atoi (decimal n ++ b'\r' ∷ rest) ≡ some (pos n)
unfolding decimal
atoi-decimal n rest fits =
    let (d, text, h, e) = digits_fuel_begins n n (b'\r' ∷ rest) in
    ap atoi (append-digits_fuel n n [] (b'\r' ∷ rest) ∙ e)
    ∙ atoi_digit d n text h fits (
        ap (read_digits 0) (sym e)
        ∙ read_digits-digits_fuel n n (b'\r' ∷ rest) (omega arith)
        ∙ (unfold read_digits in refl))
