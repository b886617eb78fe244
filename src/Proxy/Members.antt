-- ===== src/Proxy/Members.antt =====
-- Which member of a dictionary that `json.dumps` wrote `strstr` finds.
use ikt104_eksamen_oppgave.Base.{
  false, Bool-cases, List, [], ◌∷◌, ◌++◌, ◌≡◌, ◌≢◌, ◌⊎◌, inl, inr, refl, ◌∙◌, arith, Option, none,
  some, if◌then◌else◌, Bytes, All, strstr, bytes_eq, bytes_eq_iff,
}
use ikt104_eksamen_oppgave.Proxy.{Value, dump_value, Member, separated, dump_members, dumps}
use ikt104_eksamen_oppgave.Proxy.Escapes.{Plain, not_quote}
use ikt104_eksamen_oppgave.Proxy.Search.{
  needle, FollowsString, IsKey, IsPassed, key_skip, value_skip, strstr_key, strstr-NotQuote,
}

-- `d.get(key)` of a dictionary with no key twice.
abbrev pub find_member : Bytes → List Member → Option Value
find_member name [] = none
find_member name (m ∷ ms) = if bytes_eq m.key name then some m.value else find_member name ms

-- The keys hold nothing to escape, and no value without quotes holds a quote.
abbrev pub IsMember : Member → Type 0
IsMember m = All Plain m.key × IsPassed m.value

-- What stands behind a member.
abbrev pub FollowsMember : Bytes → Type 0
FollowsMember [] = ⊥
FollowsMember (c ∷ rest) = (c ≡ b',') ⊎ (c ≡ b'}')

separated-FollowsMember : (ms : List Member) → FollowsMember (separated ms (dump_members ms))
separated-FollowsMember [] = unfold dump_members in inr refl
separated-FollowsMember (m ∷ ms) = inl refl

FollowsString-of_FollowsMember : (rest : Bytes) → FollowsMember rest → FollowsString rest
FollowsString-of_FollowsMember [] f = tt
FollowsString-of_FollowsMember (c ∷ rest) f = ground arith

separated-FollowsString : (ms : List Member) → FollowsString (separated ms (dump_members ms))
separated-FollowsString ms = FollowsString-of_FollowsMember _ (separated-FollowsMember ms)

-- The text from a member on.
abbrev pub from_member : Bytes → Value → Bytes → Bytes
from_member name v rest = b'"' ∷ (name ++ b'"' ∷ b':' ∷ b' ' ∷ dump_value v rest)

-- What `strstr` gives where the first member with the key has the value, or where there is none.
pub data Finds (name : Bytes) : Option Value → Option Bytes → Type 0 where
  absent : Finds name none none
  present :
      (v : Value) (rest : Bytes)
      → FollowsMember rest
      → Finds name (some v) (some (from_member name v rest))

module _ (name : Bytes) (k : IsKey name) where
  separator_skip :
      (ms : List Member) (rest : Bytes)
      → strstr (separated ms rest) (needle name) ≡ strstr rest (needle name)
  separator_skip [] rest = refl
  separator_skip (m ∷ ms) rest =
      strstr-NotQuote name b',' (b' ' ∷ rest) (not_quote b',' refl)
      ∙ strstr-NotQuote name b' ' rest (not_quote b' ' refl)

  strstr_end : strstr (b'}' ∷ []) (needle name) ≡ none
  strstr_end = strstr-NotQuote name b'}' [] (not_quote b'}' refl) ∙ unfold strstr in refl

  found_here :
      (key : Bytes) (v : Value) (rest : Bytes)
      → FollowsMember rest
      → key ≡ name
      → Finds name
          (some v)
          (strstr (b'"' ∷ (key ++ b'"' ∷ b':' ∷ b' ' ∷ dump_value v rest)) (needle name))
  found_here key v rest f same =
      rw (same, strstr_key name (b' ' ∷ dump_value v rest)) (present v rest f)

  member_skip :
      (m : Member) (ms : List Member)
      → IsMember m
      → m.key ≢ name
      → strstr (dump_members (m ∷ ms)) (needle name) ≡ strstr (dump_members ms) (needle name)
  member_skip m ms h differs =
      unfold dump_members in
      key_skip name k m.key _ h.0 differs
      ∙ value_skip name k m.value (separated ms (dump_members ms)) h.1 (separated-FollowsString ms)
      ∙ separator_skip ms (dump_members ms)

  strstr-dump_members :
      (ms : List Member)
      → All IsMember ms
      → Finds name (find_member name ms) (strstr (dump_members ms) (needle name))
  strstr-dump_members [] h = unfold dump_members in rw strstr_end absent
  strstr-dump_members (m ∷ ms) (h, hs) = elim (Bool-cases (bytes_eq m.key name)) [
    | inl same ↦ rw same (
        unfold dump_members in
        found_here m.key m.value (separated ms (dump_members ms)) (separated-FollowsMember ms)
          ((bytes_eq_iff m.key name).0 same))
    | inr differs ↦
        rw (differs, member_skip m ms h (key_differs m.key differs)) (strstr-dump_members ms hs)
  ]
    where
      key_differs : (key : Bytes) → bytes_eq key name ≡ false → key ≢ name
      key_differs key differs e = cc ((bytes_eq_iff key name).1 e)

  -- In the text of a dictionary with plain keys, `strstr` finds the quoted key of the member with
  -- that key, where it stands, and finds nothing where there is no such member.
  pub strstr-dumps :
      (ms : List Member)
      → All IsMember ms
      → Finds name (find_member name ms) (strstr (dumps ms) (needle name))
  strstr-dumps ms h =
      unfold dumps in
      rw (strstr-NotQuote name b'{' (dump_members ms) (not_quote b'{' refl))
        (strstr-dump_members ms h)
