-- ===== src/Info/Bounds.antt =====
-- `parse_info` stays inside the arrays of `info_data_t`.
use ikt104_eksamen_oppgave.Base.{
  ℕ, zero, suc, ◌≤◌, ◌<◌, Bool, true, Option, none, some, List, [], ◌∷◌, arith, Bytes, length, drop,
  if_of_both, ◌==◌,
}
use ikt104_eksamen_oppgave.Info.{
  info_str_len, InfoData, empty_info, Field, city_field, fields, field_name, quoted_key, set_field,
  copy_until, is_quote, ends_bare, read_value_at, read_value, skip_blanks, parse_found,
  parse_fields, parse_info,
}

-- Every string has room for its NUL in its array.
pub record Fits (g : InfoData) : Type 0 where
  pub city_fits : length g.city < info_str_len
  pub country_fits : length g.country < info_str_len
  pub weather_fits : length g.weather < info_str_len
  pub temperature_fits : length g.temperature < info_str_len
  pub latitude_fits : length g.latitude < info_str_len
  pub longitude_fits : length g.longitude < info_str_len
  pub unix_epoch_fits : length g.unix_epoch < info_str_len

pub length-copy_until :
    (stop : ℕ → Bool) (room : ℕ) (text : Bytes) → length (copy_until stop room text).0 ≤ room
unfolding copy_until
length-copy_until stop zero text = omega arith
length-copy_until stop (suc room) [] = omega arith
length-copy_until stop (suc room) (c ∷ text) = ground (arith, length-copy_until stop room text)

length-read_value_at : (text : Bytes) → length (read_value_at text) < info_str_len
length-read_value_at [] = unfold read_value_at in omega (arith, length-copy_until ends_bare 31 [])
length-read_value_at (c ∷ text) =
    unfold read_value_at in
    if_of_both (λ v. length v < info_str_len) (c == b'"') (copy_until is_quote 31 text).0
      (copy_until ends_bare 31 (c ∷ text)).0 (omega (arith, length-copy_until is_quote 31 text))
      (omega (arith, length-copy_until ends_bare 31 (c ∷ text)))

length-read_value : (text : Bytes) → length (read_value text) < info_str_len
length-read_value text = unfold read_value in length-read_value_at (skip_blanks text)

set_field-Fits :
    (f : Field) (v : Bytes) (g : InfoData)
    → length v < info_str_len
    → Fits g
    → Fits (set_field f v g)
unfolding set_field
set_field-Fits city_field v g h k = omega arith
set_field-Fits _ v g h k = omega arith

parse_found-Fits : (f : Field) (o : Option Bytes) (g : InfoData) → Fits g → Fits (parse_found f o g)
parse_found-Fits f none g k = unfold parse_found in k
parse_found-Fits f (some text) g k =
    unfold parse_found in
    let v = read_value (drop (length (quoted_key (field_name f))) text) in
    set_field-Fits f v g (length-read_value (drop (length (quoted_key (field_name f))) text)) k

parse_fields-Fits :
    (json : Bytes) (fs : List Field) (g : InfoData) → Fits g → Fits (parse_fields json fs g)
unfolding parse_fields
parse_fields-Fits json [] g k = k
parse_fields-Fits json (f ∷ fs) g k = parse_fields-Fits json fs _ (parse_found-Fits f _ g k)

-- Whatever the response holds, `parse_info` leaves room for the NUL in each of the seven arrays.
pub parse_info-Fits : (json : Bytes) (g : InfoData) → Fits g → Fits (parse_info json g)
parse_info-Fits json g k = unfold parse_info in ready_kept (parse_fields-Fits json fields g k)
  where
    ready_kept : {h : InfoData} → Fits h → Fits (record h { ready = true })
    ready_kept k = omega arith

pub empty_info-Fits : Fits empty_info
unfolding empty_info
empty_info-Fits = omega arith
