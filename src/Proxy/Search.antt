-- ===== src/Proxy/Search.antt =====
-- Where `strstr` finds a quoted key in what `json.dumps` wrote: never inside a string, since a
-- quote stands there behind a backslash, and never at a string's end, since no colon follows.
use ikt104_eksamen_oppgave.Base.{
  ℕ, true, false, [], ◌∷◌, ◌++◌, ◌≡◌, ◌≢◌, ◌⊎◌, inl, inr, refl, sym, ◌∙◌, arith, ◌==◌, some, Bytes,
  All, starts_with, strstr, Bool-cases,
}
use ikt104_eksamen_oppgave.Proxy.{escaped, Value, quoted, bare, dump_value}
use ikt104_eksamen_oppgave.Proxy.Escapes.{
  Plain, NotQuote, Shape, itself, escape_quote, escape, escape_char-Shape, not_quote,
}

-- The punctuation that follows a string or a key.
abbrev pub NotMark : ℕ → Type 0
NotMark c = (c ≢ b':') × (c ≢ b',') × (c ≢ b'}') × (c ≢ b']')

-- The key that is sought, quoted and with its colon.
abbrev pub needle : Bytes → Bytes
needle name = b'"' ∷ (name ++ b'"' ∷ b':' ∷ [])

-- The punctuation that may stand behind the end of a string.
abbrev pub FollowsString : Bytes → Type 0
FollowsString [] = Unit
FollowsString (c ∷ rest) = (c ≡ b',') ⊎ ((c ≡ b'}') ⊎ (c ≡ b']'))

strstr_skip :
    (c : ℕ) (text word : Bytes)
    → starts_with (c ∷ text) word ≡ false
    → strstr (c ∷ text) word ≡ strstr text word
unfolding strstr
strstr_skip c text word e = rw e

-- No match begins at a byte that is not a quote.
pub strstr-NotQuote :
    (name : Bytes) (c : ℕ) (text : Bytes)
    → NotQuote c
    → strstr (c ∷ text) (needle name) ≡ strstr text (needle name)
strstr-NotQuote name c text h = strstr_skip c text (needle name) (other name c text h)
  where
    other :
        (name : Bytes) (c : ℕ) (text : Bytes)
        → NotQuote c
        → starts_with (c ∷ text) (needle name) ≡ false
    other name c text h = unfold starts_with in ground arith

pub strstr-skip_text :
    (name text rest : Bytes)
    → All NotQuote text
    → strstr (text ++ rest) (needle name) ≡ strstr rest (needle name)
strstr-skip_text name [] rest h = refl
strstr-skip_text name (c ∷ text) rest (h, hs) =
    strstr-NotQuote name c (text ++ rest) h ∙ strstr-skip_text name text rest hs

-- What is left of the needle inside the name.
abbrev tail_of : Bytes → Bytes
tail_of name = name ++ b'"' ∷ b':' ∷ []

-- If it does not match behind what a code point is written as, it does not match there either.
Shape-no_match :
    {e : Bytes} (text name : Bytes)
    → Shape e
    → All Plain name
    → ((name' : Bytes) → All Plain name' → starts_with text (tail_of name') ≡ false)
    → starts_with (e ++ text) (tail_of name) ≡ false
unfolding starts_with
Shape-no_match text [] (itself h) p ih = ground arith
Shape-no_match text (n ∷ name) (itself h) (p, ps) ih = ground (arith, ih name ps)
Shape-no_match text [] escape_quote p ih = refl
Shape-no_match text (n ∷ name) escape_quote (p, ps) ih = ground arith
Shape-no_match text [] (escape h) p ih = refl
Shape-no_match text (n ∷ name) (escape h) (p, ps) ih = ground arith

end_no_match :
    (name rest : Bytes)
    → All Plain name
    → FollowsString rest
    → starts_with (b'"' ∷ rest) (tail_of name) ≡ false
unfolding starts_with
end_no_match [] [] p f = refl
end_no_match [] (c ∷ rest) p f = ground arith
end_no_match (n ∷ name) rest (p, ps) f = ground arith

-- The rest of the needle, from inside the name, does not match inside a string: it would have to
-- pass a quote, in front of which there is a backslash, or the end, behind which there is no colon.
escaped_no_match :
    (text name rest : Bytes)
    → All Plain name
    → FollowsString rest
    → starts_with (escaped text (b'"' ∷ rest)) (tail_of name) ≡ false
unfolding escaped
escaped_no_match [] name rest p f = end_no_match name rest p f
escaped_no_match (c ∷ text) name rest p f =
    Shape-no_match (escaped text (b'"' ∷ rest)) name (escape_char-Shape c) p
      (λ name' p'. escaped_no_match text name' rest p' f)

-- A key that can be sought: plain, and not empty, and it does not begin with punctuation.
pub record IsKey (name : Bytes) : Type 0 where
  pub plain : All Plain name
  pub first : ℕ
  pub others : Bytes
  pub splits : name ≡ first ∷ others
  pub no_mark : NotMark first

starts_with-cons_ne :
    (c d : ℕ) (text word : Bytes) → c ≢ d → starts_with (c ∷ text) (d ∷ word) ≡ false
unfolding starts_with
starts_with-cons_ne c d text word h = ground arith

-- A value that `strstr` passes over: a string, or what is written without quotes and has none.
abbrev pub IsPassed : Value → Type 0
IsPassed (quoted text) = Unit
IsPassed (bare text) = All NotQuote text

NotQuote-of_Plain : (text : Bytes) → All Plain text → All NotQuote text
NotQuote-of_Plain [] h = tt
NotQuote-of_Plain (c ∷ text) (h, hs) = (h.0, NotQuote-of_Plain text hs)

-- Two plain keys match only if they are equal.
key_no_match :
    (key name rest : Bytes)
    → All Plain key
    → All Plain name
    → key ≢ name
    → starts_with (key ++ b'"' ∷ rest) (tail_of name) ≡ false
unfolding starts_with
key_no_match [] [] rest p q h = absurd (h refl)
key_no_match [] (n ∷ name) rest p (q, qs) h = ground arith
key_no_match (c ∷ key) [] rest (p, ps) q h = ground arith
key_no_match (c ∷ key) (n ∷ name) rest (p, ps) (q, qs) h = elim (Bool-cases (c == n)) [
  | inl same ↦ rw same (key_no_match key name rest ps qs (λ e. h (ground arith)))
  | inr differs ↦ rw differs
]

key_match : (name rest : Bytes) → starts_with (name ++ b'"' ∷ b':' ∷ rest) (tail_of name) ≡ true
unfolding starts_with
key_match [] rest = refl
key_match (n ∷ name) rest = ground (arith, key_match name rest)

strstr_here :
    (c : ℕ) (text word : Bytes)
    → starts_with (c ∷ text) word ≡ true
    → strstr (c ∷ text) word ≡ some (c ∷ text)
unfolding strstr
strstr_here c text word e = rw e

-- A member with the key that is sought is found at its opening quote.
pub strstr_key :
    (name rest : Bytes)
    → strstr (b'"' ∷ (name ++ b'"' ∷ b':' ∷ rest)) (needle name)
      ≡ some (b'"' ∷ (name ++ b'"' ∷ b':' ∷ rest))
strstr_key name rest =
    strstr_here b'"' (name ++ b'"' ∷ b':' ∷ rest) (needle name)
      (unfold starts_with in key_match name rest)

module _ (name : Bytes) (k : IsKey name) where
  -- No match begins at a quote behind which the rest of the needle does not match.
  skip_quote :
      (text : Bytes)
      → starts_with text (tail_of name) ≡ false
      → strstr (b'"' ∷ text) (needle name) ≡ strstr text (needle name)
  skip_quote text h = strstr_skip b'"' text (needle name) (unfold starts_with in h)

  not_first : (c : ℕ) (text : Bytes) → c ≢ k.first → starts_with (c ∷ text) (tail_of name) ≡ false
  not_first c text h = rw k.splits (starts_with-cons_ne c k.first text _ h)

  follows_no_match : (rest : Bytes) → FollowsString rest → starts_with rest (tail_of name) ≡ false
  follows_no_match [] f = rw k.splits (unfold starts_with in refl)
  follows_no_match (c ∷ rest) f = not_first c rest (λ e. ground (arith, k.no_mark))

  Shape-skip :
      {e : Bytes} (text : Bytes)
      → Shape e
      → starts_with text (tail_of name) ≡ false
      → strstr (e ++ text) (needle name) ≡ strstr text (needle name)
  Shape-skip text (itself {c} h) e = strstr-NotQuote name c text h.0
  Shape-skip text escape_quote e =
      strstr-NotQuote name b'\\' (b'"' ∷ text) (not_quote b'\\' refl) ∙ skip_quote text e
  Shape-skip text (escape {more} h) e =
      strstr-NotQuote name b'\\' (more ++ text) (not_quote b'\\' refl)
      ∙ strstr-skip_text name more text h

  -- A string is passed over, up to what follows its closing quote.
  escaped_skip :
      (text rest : Bytes)
      → FollowsString rest
      → strstr (escaped text (b'"' ∷ rest)) (needle name) ≡ strstr rest (needle name)
  unfolding escaped
  escaped_skip [] rest f = skip_quote rest (follows_no_match rest f)
  escaped_skip (c ∷ text) rest f =
      Shape-skip (escaped text (b'"' ∷ rest)) (escape_char-Shape c)
        (escaped_no_match text name rest k.plain f)
      ∙ escaped_skip text rest f

  pub key_skip :
      (key rest : Bytes)
      → All Plain key
      → key ≢ name
      → strstr (b'"' ∷ (key ++ b'"' ∷ b':' ∷ b' ' ∷ rest)) (needle name) ≡ strstr rest (needle name)
  key_skip key rest p differs =
      skip_quote _ (key_no_match key name (b':' ∷ b' ' ∷ rest) p k.plain differs)
      ∙ strstr-skip_text name key _ (NotQuote-of_Plain key p)
      ∙ skip_quote (b':' ∷ b' ' ∷ rest) (not_first b':' (b' ' ∷ rest) (λ e. k.no_mark.0 (sym e)))
      ∙ strstr-NotQuote name b':' (b' ' ∷ rest) (not_quote b':' refl)
      ∙ strstr-NotQuote name b' ' rest (not_quote b' ' refl)

  pub value_skip :
      (v : Value) (rest : Bytes)
      → IsPassed v
      → FollowsString rest
      → strstr (dump_value v rest) (needle name) ≡ strstr rest (needle name)
  unfolding dump_value
  value_skip (quoted text) rest h f =
      skip_quote (escaped text (b'"' ∷ rest)) (escaped_no_match text name rest k.plain f)
      ∙ escaped_skip text rest f
  value_skip (bare text) rest h f = strstr-skip_text name text rest h
