-- ===== src/Proxy.antt =====
-- python_proxi/proxi.py: the body of the reply of `/info` and of the error replies, as Python's `json.dumps`
-- writes them. A Python string is the list of its code points.
pub mod Escapes
pub mod Search
pub mod Members
pub mod Titles
pub mod Dump
pub mod Answer
pub mod Found
pub mod Distinct
mod Examples
use ikt104_eksamen_oppgave.Base.{
  ℕ, zero, suc, ◌+◌, ◌-◌, ◌*◌, ◌/◌, ◌%◌, Bool, true, false, ◌&&◌, ◌||◌, List, [], ◌∷◌, ◌++◌, ltb,
  leb, ◌==◌, if◌then◌else◌, Bytes, codes, decimal, length,
}

-- A lower-case hexadecimal digit.
unfoldable pub hex_digit : ℕ → ℕ
hex_digit n = if ltb n 10 then b'0' + n else b'a' + (n - 10)

-- `\uXXXX`
unfoldable pub unicode_escape : ℕ → Bytes
unicode_escape n =
    b'\\'
    ∷ b'u'
    ∷ hex_digit (n / 4096 % 16)
    ∷ hex_digit (n / 256 % 16)
    ∷ hex_digit (n / 16 % 16)
    ∷ hex_digit (n % 16)
    ∷ []

abbrev pub backslashed : ℕ → Bytes
backslashed c = b'\\' ∷ c ∷ []

-- A code point that is neither a quote nor a backslash; past 0xffff it is a pair of surrogates.
unfoldable pub escape_other : ℕ → Bytes
escape_other c =
    if c == b'\n'
    then backslashed b'n'
    else if c == b'\r'
    then backslashed b'r'
    else if c == b'\t'
    then backslashed b't'
    else if c == 12
    then backslashed b'f'
    else if c == 8
    then backslashed b'b'
    else if leb 32 c && leb c 126
    then c ∷ []
    else if ltb c 65536
    then unicode_escape c
    else unicode_escape (55296 + (c - 65536) / 1024) ++ unicode_escape (56320 + (c - 65536) % 1024)

-- What `json.dumps` writes for one code point of a string.
unfoldable pub escape_char : ℕ → Bytes
escape_char c =
    if c == b'"' then backslashed b'"' else if c == b'\\' then backslashed b'\\' else escape_other c

-- A string's escaped text, in front of what follows it.
unfoldable pub escaped : Bytes → Bytes → Bytes
escaped [] rest = rest
escaped (c ∷ text) rest = escape_char c ++ escaped text rest

-- The values of the replies' members: strings, and what is written without quotes, which is a
-- number, `null`, `true` or `false`.
pub data Value : Type 0 where
  quoted : Bytes → Value
  bare : Bytes → Value

unfoldable pub dump_value : Value → Bytes → Bytes
dump_value (quoted text) rest = b'"' ∷ escaped text (b'"' ∷ rest)
dump_value (bare text) rest = text ++ rest

pub record Member : Type 0 where
  pub key : Bytes
  pub value : Value

abbrev pub member : Bytes → Value → Member
member k v = record { key = k; value = v }

-- What stands behind a member, or behind an item of a list: `, ` if there is another, or nothing.
abbrev pub separated {ℓ} : {A : Type ℓ} → List A → Bytes → Bytes
separated [] rest = rest
separated (x ∷ xs) rest = b',' ∷ b' ' ∷ rest

-- The keys of the replies hold nothing to escape.
unfoldable pub dump_members : List Member → Bytes
dump_members [] = b'}' ∷ []
dump_members (m ∷ ms) =
    b'"' ∷ (m.key ++ b'"' ∷ b':' ∷ b' ' ∷ dump_value m.value (separated ms (dump_members ms)))

-- `json.dumps` of a dictionary.
unfoldable pub dumps : List Member → Bytes
dumps ms = b'{' ∷ dump_members ms

-- The dictionary `data` of `info`, its values as the services and the clock gave them.
pub record InfoReply : Type 0 where
  pub unix_epoch : ℕ
  pub weekday : Value
  pub day : Value
  pub month : Value
  pub time : Value
  pub ip : Value
  pub city : Value
  pub country : Value
  pub latitude : Value
  pub longitude : Value
  pub weather : Value
  pub temperature_celsius : Value

abbrev pub info_members : InfoReply → List Member
info_members r =
    member (codes "unix_epoch") (bare (decimal r.unix_epoch))
    ∷ member (codes "weekday") r.weekday
    ∷ member (codes "day") r.day
    ∷ member (codes "month") r.month
    ∷ member (codes "time") r.time
    ∷ member (codes "ip") r.ip
    ∷ member (codes "city") r.city
    ∷ member (codes "country") r.country
    ∷ member (codes "latitude") r.latitude
    ∷ member (codes "longitude") r.longitude
    ∷ member (codes "weather") r.weather
    ∷ member (codes "temperature_celsius") r.temperature_celsius
    ∷ []

unfoldable pub info_body : InfoReply → Bytes
unfolding dumps
info_body r = dumps (info_members r)

-- The body of the error replies of `/news` and `/info`.
unfoldable pub error_body : Bytes → Bytes
error_body message = dumps (member (codes "error") (quoted message) ∷ [])
