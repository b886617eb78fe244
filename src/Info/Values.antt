-- ===== src/Info/Values.antt =====
-- How `parse_info` of network_config.c reads a value that `json.dumps` wrote.
use ikt104_eksamen_oppgave.Base.{
  ℕ, zero, suc, ◌≤◌, [], ◌∷◌, ◌++◌, ◌≡◌, ◌≢◌, refl, ◌∙◌, ap, arith, Bytes, All, take, drop, length,
}
use ikt104_eksamen_oppgave.Proxy.{
  escape_char, escape_other, escaped, Value, quoted, bare, dump_value,
}
use ikt104_eksamen_oppgave.Proxy.Members.{FollowsMember}
use ikt104_eksamen_oppgave.Info.{
  skip_blanks, copy_until, is_quote, ends_bare, read_value_at, read_value,
}

-- A code point that `json.dumps` writes as itself.
abbrev pub Ordinary : ℕ → Type 0
Ordinary c = (32 ≤ c) × (c ≤ 126) × (c ≢ b'"') × (c ≢ b'\\')

-- A byte of a number, or of `null`, `true` or `false`.
abbrev pub Bare : ℕ → Type 0
Bare c = (c ≢ b'"') × (c ≢ b',') × (c ≢ b'}') × (c ≢ b' ') × (c ≢ b'\t')

-- The values that the device shows as the proxy holds them.
abbrev pub IsSimple : Value → Type 0
IsSimple (quoted text) = All Ordinary text
IsSimple (bare text) = All Bare text

abbrev pub value_text : Value → Bytes
value_text (quoted text) = text
value_text (bare text) = text

-- What an array of the device holds of a value.
abbrev pub stored : Value → Bytes
stored v = take 31 (value_text v)

escape_char-Ordinary : (c : ℕ) → Ordinary c → escape_char c ≡ c ∷ []
unfolding escape_char escape_other
escape_char-Ordinary c h = ground arith

escaped-Ordinary : (text rest : Bytes) → All Ordinary text → escaped text rest ≡ text ++ rest
unfolding escaped
escaped-Ordinary [] rest h = refl
escaped-Ordinary (c ∷ text) rest (h, hs) =
    rw (escape_char-Ordinary c h, escaped-Ordinary text rest hs)

copy_until_quote :
    (room : ℕ) (text rest : Bytes)
    → All Ordinary text
    → (copy_until is_quote room (text ++ b'"' ∷ rest)).0 ≡ take room text
unfolding copy_until
copy_until_quote zero text rest h = refl
copy_until_quote (suc room) [] rest h = refl
copy_until_quote (suc room) (c ∷ text) rest (h, hs) =
    ground (arith, copy_until_quote room text rest hs)

copy_until_end :
    (room : ℕ) (text rest : Bytes)
    → All Bare text
    → FollowsMember rest
    → (copy_until ends_bare room (text ++ rest)).0 ≡ take room text
unfolding copy_until
copy_until_end zero text rest h f = refl
copy_until_end (suc room) [] [] h f = refl
copy_until_end (suc room) [] (c ∷ rest) h f = ground arith
copy_until_end (suc room) (c ∷ text) rest (h, hs) f =
    ground (arith, copy_until_end room text rest hs f)

skip_blanks_kept : (c : ℕ) (text : Bytes) → c ≢ b' ' → c ≢ b'\t' → skip_blanks (c ∷ text) ≡ c ∷ text
unfolding skip_blanks
skip_blanks_kept c text h k = ground arith

read_value_at_bare :
    (c : ℕ) (text : Bytes)
    → c ≢ b'"'
    → read_value_at (c ∷ text) ≡ (copy_until ends_bare 31 (c ∷ text)).0
unfolding read_value_at
read_value_at_bare c text h = ground arith

read_value_at-skip_blanks :
    (text rest : Bytes)
    → All Bare text
    → FollowsMember rest
    → read_value_at (skip_blanks (text ++ rest)) ≡ take 31 text
read_value_at-skip_blanks [] [] h f = absurd f
read_value_at-skip_blanks [] (c ∷ rest) h f =
    ap read_value_at (skip_blanks_kept c rest (ground arith) (ground arith))
    ∙ read_value_at_bare c rest (ground arith)
    ∙ copy_until_end 31 [] (c ∷ rest) tt f
read_value_at-skip_blanks (c ∷ text) rest (h, hs) f =
    ap read_value_at (skip_blanks_kept c (text ++ rest) h.3 h.4)
    ∙ read_value_at_bare c (text ++ rest) h.0
    ∙ copy_until_end 31 (c ∷ text) rest (h, hs) f

-- Behind a key and its blank, `parse_info` reads the text of the value, cut to the array.
pub read_value-dump_value :
    (v : Value) (rest : Bytes)
    → IsSimple v
    → FollowsMember rest
    → read_value (b' ' ∷ dump_value v rest) ≡ stored v
unfolding dump_value
read_value-dump_value (quoted text) rest h f =
    rw (escaped-Ordinary text (b'"' ∷ rest) h)
      (unfold read_value skip_blanks read_value_at in copy_until_quote 31 text rest h)
read_value-dump_value (bare text) rest h f =
    unfold read_value skip_blanks in read_value_at-skip_blanks text rest h f

pub drop_key :
    (name rest : Bytes)
    → drop (length (name ++ b'"' ∷ b':' ∷ [])) (name ++ b'"' ∷ b':' ∷ rest) ≡ rest
drop_key [] rest = refl
drop_key (n ∷ name) rest = drop_key name rest
