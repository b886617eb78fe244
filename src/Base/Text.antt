-- ===== src/Base/Text.antt =====
-- C strings as the list of their bytes before the NUL, and the standard library's functions on
-- them that the source calls.
use Prim.Native.Nat.{ℕ, zero, suc, ◌+◌, ◌-◌, ◌/◌, ◌%◌}
use Prim.Native.Char.{code}
use Prim.Native.String.{String}
use mathlib.Core.Path.{◌≡◌}
use mathlib.Core.Logic.{◌↔◌, ◌≢◌}
use mathlib.Core.Bool.{Bool, true, false, ◌&&◌}
use mathlib.Core.Option.{Option, none, some}
use mathlib.Core.List.{List, [], ◌∷◌}
use native.Mathlib.Omega.{arith}
use ikt104_eksamen_oppgave.Base.Tests.{ltb, ◌==◌, if◌then◌else◌}
use ikt104_eksamen_oppgave.Base.Lists.{take}

abbrev pub Bytes : Type 0
Bytes = List ℕ

-- The bytes of an ASCII literal.
abbrev pub codes : String → Bytes
codes String.[] = []
codes (String.◌∷◌ c s) = code c ∷ codes s

-- The digits of a number, most significant first; each round divides by ten, so `n` rounds are
-- enough for `n`.
abbrev pub digits_fuel : ℕ → ℕ → Bytes → Bytes
digits_fuel zero n acc = (b'0' + n % 10) ∷ acc
digits_fuel (suc fuel) n acc =
    let more = digits_fuel fuel (n / 10) ((b'0' + n % 10) ∷ acc) in
    if ltb n 10 then (b'0' + n) ∷ acc else more

-- "%d" of a number that is not negative.
unfoldable pub decimal : ℕ → Bytes
decimal n = digits_fuel n n []

-- Whether the text begins with the given one: `strncmp(text, word, strlen(word)) == 0`.
unfoldable pub starts_with : Bytes → Bytes → Bool
starts_with text [] = true
starts_with [] (w ∷ word) = false
starts_with (c ∷ text) (w ∷ word) = c == w && starts_with text word

-- `strstr`: the text from the first place where the word stands.
unfoldable pub strstr : Bytes → Bytes → Option Bytes
unfolding starts_with
strstr [] word = if starts_with [] word then some [] else none
strstr (c ∷ text) word =
    let later = strstr text word in if starts_with (c ∷ text) word then some (c ∷ text) else later

-- `snprintf` into a buffer of `size` bytes: what fits in front of the NUL.
abbrev pub snprintf : ℕ → Bytes → Bytes
snprintf size text = take (size - 1) text

unfoldable pub bytes_eq : Bytes → Bytes → Bool
bytes_eq [] [] = true
bytes_eq (x ∷ xs) (y ∷ ys) = x == y && bytes_eq xs ys
bytes_eq _ _ = false

pub bytes_eq_iff : (xs ys : Bytes) → (bytes_eq xs ys ≡ true) ↔ (xs ≡ ys)
unfolding bytes_eq
bytes_eq_iff (x ∷ xs) (y ∷ ys) = ground (arith, bytes_eq_iff xs ys)
bytes_eq_iff _ _ = ground arith

pub ne_of_bytes_eq : (xs ys : Bytes) → bytes_eq xs ys ≡ false → xs ≢ ys
ne_of_bytes_eq xs ys h e = cc ((bytes_eq_iff xs ys).1 e)
