-- ===== src/Info.antt =====
-- exsamene/src/network_config.c, `parse_info`, and the data that it fills (network_config.h). A
-- `char` array that holds a string is the list of the bytes in front of its NUL, and a pointer
-- into a string is the rest of the string from there.
pub mod Bounds
pub mod Values
pub mod Table
pub mod RoundTrip
pub mod Reply
mod Examples
use ikt104_eksamen_oppgave.Base.{
  ℕ, zero, suc, ◌-◌, Bool, true, false, ◌||◌, Option, none, some, List, [], ◌∷◌, ◌++◌, ltb, ◌==◌,
  if◌then◌else◌, Bytes, codes, length, drop, strstr,
}

abbrev pub info_str_len : ℕ
info_str_len = 32

pub record InfoData : Type 0 where
  pub city : Bytes
  pub country : Bytes
  pub weather : Bytes
  pub temperature : Bytes
  pub latitude : Bytes
  pub longitude : Bytes
  pub unix_epoch : Bytes
  pub ready : Bool

-- `info_data_t g_info = {0}`.
unfoldable pub empty_info : InfoData
empty_info = record {
  city = [];
  country = [];
  weather = [];
  temperature = [];
  latitude = [];
  longitude = [];
  unix_epoch = [];
  ready = false;
}

-- The rows of the table `fields`.
pub data Field : Type 0 where
  city_field country_field weather_field temperature_field : Field
  latitude_field longitude_field unix_epoch_field : Field

abbrev pub fields : List Field
fields =
    city_field ∷ country_field ∷ weather_field ∷ temperature_field ∷ latitude_field
    ∷ longitude_field ∷ unix_epoch_field ∷ []

-- The key of a row, without the quotes and the colon around it.
abbrev pub field_name : Field → Bytes
field_name city_field = codes "city"
field_name country_field = codes "country"
field_name weather_field = codes "weather"
field_name temperature_field = codes "temperature_celsius"
field_name latitude_field = codes "latitude"
field_name longitude_field = codes "longitude"
field_name unix_epoch_field = codes "unix_epoch"

-- A name as a key of the table: `"name":`.
abbrev pub quoted_key : Bytes → Bytes
quoted_key name = b'"' ∷ (name ++ b'"' ∷ b':' ∷ [])

-- The write through `fields[i].dest`.
unfoldable pub set_field : Field → Bytes → InfoData → InfoData
set_field city_field v g = record g { city = v }
set_field country_field v g = record g { country = v }
set_field weather_field v g = record g { weather = v }
set_field temperature_field v g = record g { temperature = v }
set_field latitude_field v g = record g { latitude = v }
set_field longitude_field v g = record g { longitude = v }
set_field unix_epoch_field v g = record g { unix_epoch = v }

unfoldable pub get_field : Field → InfoData → Bytes
get_field city_field g = g.city
get_field country_field g = g.country
get_field weather_field g = g.weather
get_field temperature_field g = g.temperature
get_field latitude_field g = g.latitude
get_field longitude_field g = g.longitude
get_field unix_epoch_field g = g.unix_epoch

-- `while (*pos == ' ' || *pos == '\t') pos++;`
unfoldable pub skip_blanks : Bytes → Bytes
skip_blanks [] = []
skip_blanks (c ∷ text) = if c == b' ' || c == b'\t' then skip_blanks text else c ∷ text

-- `while (*pos && !stop(*pos) && j < limit) dest[j++] = *pos++;` with `room` bytes left: what is
-- copied, and the text from the place where the loop ends.
unfoldable pub copy_until : (ℕ → Bool) → ℕ → Bytes → Bytes × Bytes
copy_until stop zero text = ([], text)
copy_until stop (suc room) [] = ([], [])
copy_until stop (suc room) (c ∷ text) =
    let (copied, rest) = copy_until stop room text in
    if stop c then ([], c ∷ text) else (c ∷ copied, rest)

abbrev pub is_quote : ℕ → Bool
is_quote c = c == b'"'

-- What ends a value that is not quoted.
abbrev pub ends_bare : ℕ → Bool
ends_bare c = c == b',' || c == b'}' || c == b' '

-- From the first byte behind the blanks: a quoted value or a bare one.
unfoldable pub read_value_at : Bytes → Bytes
read_value_at [] = (copy_until ends_bare (info_str_len - 1) []).0
read_value_at (c ∷ text) =
    if c == b'"'
    then (copy_until is_quote (info_str_len - 1) text).0
    else (copy_until ends_bare (info_str_len - 1) (c ∷ text)).0

unfoldable pub read_value : Bytes → Bytes
read_value text = read_value_at (skip_blanks text)

-- A round of the loop over the table, given what `strstr` found.
unfoldable pub parse_found : Field → Option Bytes → InfoData → InfoData
parse_found f none g = g
parse_found f (some text) g =
    set_field f (read_value (drop (length (quoted_key (field_name f))) text)) g

unfoldable pub parse_fields : Bytes → List Field → InfoData → InfoData
parse_fields json [] g = g
parse_fields json (f ∷ fs) g =
    parse_fields json fs (parse_found f (strstr json (quoted_key (field_name f))) g)

-- The mutex is held throughout, so the new value appears at once.
unfoldable pub parse_info : Bytes → InfoData → InfoData
parse_info json g = record (parse_fields json fields g) { ready = true }
