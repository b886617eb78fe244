-- ===== src/Proxy/Escapes.antt =====
-- What `json.dumps` writes inside a string holds a quote only behind a backslash.
use mathlib.Core.List.{append-nil}
use ikt104_eksamen_oppgave.Base.{
  ℕ, ◌/◌, ◌%◌, false, ◌&&◌, [], ◌∷◌, ◌++◌, ◌≡◌, ◌≢◌, inl, inr, refl, arith, ◌==◌, ltb, leb, Bytes,
  All, if_of_both, Bool-cases,
}
use ikt104_eksamen_oppgave.Proxy.{hex_digit, unicode_escape, escape_other, escape_char}

-- A byte that a plain key may hold.
abbrev pub Plain : ℕ → Type 0
Plain c = (c ≢ b'"') × (c ≢ b'\\')

abbrev pub NotQuote : ℕ → Type 0
NotQuote c = c ≢ b'"'

-- What a code point is written as: itself, a backslash and a quote, or a backslash and more without
-- quotes.
pub data Shape : Bytes → Type 0 where
  itself : {c : ℕ} → Plain c → Shape (c ∷ [])
  escape_quote : Shape (b'\\' ∷ b'"' ∷ [])
  escape : {more : Bytes} → All NotQuote more → Shape (b'\\' ∷ more)

pub not_quote : (c : ℕ) → (c == b'"') ≡ false → NotQuote c
not_quote c h = ground arith

hex_digit-NotQuote : (n : ℕ) → NotQuote (hex_digit n)
unfolding hex_digit
hex_digit-NotQuote n = ground arith

-- The four digits, in front of more without quotes.
digits-NotQuote :
    (n : ℕ) (more : Bytes)
    → All NotQuote more
    → All NotQuote (
        hex_digit (n / 4096 % 16)
        ∷ hex_digit (n / 256 % 16)
        ∷ hex_digit (n / 16 % 16)
        ∷ hex_digit (n % 16)
        ∷ more)
digits-NotQuote n more h = (
  hex_digit-NotQuote (n / 4096 % 16),
  (
    hex_digit-NotQuote (n / 256 % 16),
    (hex_digit-NotQuote (n / 16 % 16), (hex_digit-NotQuote (n % 16), h)),
  ),
)

unicode_escape-Shape : (n : ℕ) (more : Bytes) → All NotQuote more → Shape (unicode_escape n ++ more)
unfolding unicode_escape
unicode_escape-Shape n more h = escape (not_quote b'u' refl, digits-NotQuote n more h)

unicode_escape-NotQuote : (n : ℕ) → All NotQuote (unicode_escape n)
unfolding unicode_escape
unicode_escape-NotQuote n = ((λ e. omega arith), ((λ e. omega arith), digits-NotQuote n [] tt))

escape_other-Shape : (c : ℕ) → Plain c → Shape (escape_other c)
escape_other-Shape c h =
    unfold escape_other in
    if_of_both Shape (c == b'\n') _ _ (escape (not_quote b'n' refl, tt)) (
      if_of_both Shape (c == b'\r') _ _ (escape (not_quote b'r' refl, tt)) (
        if_of_both Shape (c == b'\t') _ _ (escape (not_quote b't' refl, tt)) (
          if_of_both Shape (c == 12) _ _ (escape (not_quote b'f' refl, tt)) (
            if_of_both Shape (c == 8) _ _ (escape (not_quote b'b' refl, tt)) (
              if_of_both Shape (leb 32 c && leb c 126) _ _ (itself h) (
                if_of_both Shape (ltb c 65536) _ _
                  (rw (← append-nil (unicode_escape c)) (unicode_escape-Shape c [] tt))
                  (unicode_escape-Shape _ _ (unicode_escape-NotQuote _))))))))

pub escape_char-Shape : (c : ℕ) → Shape (escape_char c)
escape_char-Shape c =
    unfold escape_char in
    elim (Bool-cases (c == b'"')) [
      | inl quote ↦ rw quote escape_quote
      | inr other ↦ rw other (elim (Bool-cases (c == b'\\')) [
        | inl back ↦ rw back (escape (not_quote b'\\' refl, tt))
        | inr plain ↦ rw plain (escape_other-Shape c (ground arith))
      ])
    ]
