-- ===== src/Info/Table.antt =====
-- The table `fields` of `parse_info` in network_config.c.
use ikt104_eksamen_oppgave.Base.{
  ℕ, Bool, false, ◌||◌, List, [], ◌∷◌, ◌≡◌, refl, arith, if◌then◌else◌, ◌==◌, Bytes, codes, All,
}
use ikt104_eksamen_oppgave.Proxy.Escapes.{Plain}
use ikt104_eksamen_oppgave.Proxy.Search.{NotMark, IsKey}
use ikt104_eksamen_oppgave.Info.{
  InfoData, Field, city_field, country_field, weather_field, temperature_field, latitude_field,
  longitude_field, unix_epoch_field, field_name, set_field, get_field,
}

IsKey-of : (c : ℕ) (others : Bytes) → All Plain (c ∷ others) → NotMark c → IsKey (c ∷ others)
IsKey-of c others p h = record { plain = p; first = c; others = others; splits = refl; no_mark = h }

pub field_name-IsKey : (f : Field) → IsKey (field_name f)
field_name-IsKey city_field = IsKey-of b'c' (codes "ity") (omega arith) (omega arith)
field_name-IsKey country_field = IsKey-of b'c' (codes "ountry") (omega arith) (omega arith)
field_name-IsKey weather_field = IsKey-of b'w' (codes "eather") (omega arith) (omega arith)
field_name-IsKey temperature_field =
    IsKey-of b't' (codes "emperature_celsius") (omega arith) (omega arith)
field_name-IsKey latitude_field = IsKey-of b'l' (codes "atitude") (omega arith) (omega arith)
field_name-IsKey longitude_field = IsKey-of b'l' (codes "ongitude") (omega arith) (omega arith)
field_name-IsKey unix_epoch_field = IsKey-of b'u' (codes "nix_epoch") (omega arith) (omega arith)

-- The row of the table.
abbrev pub field_id : Field → ℕ
field_id city_field = 0
field_id country_field = 1
field_id weather_field = 2
field_id temperature_field = 3
field_id latitude_field = 4
field_id longitude_field = 5
field_id unix_epoch_field = 6

pub get_field-set_field :
    (f f' : Field) (v : Bytes) (g : InfoData)
    → get_field f (set_field f' v g) ≡ (if field_id f == field_id f' then v else get_field f g)
unfolding get_field set_field
get_field-set_field city_field city_field v g = refl
get_field-set_field country_field city_field v g = refl
get_field-set_field weather_field city_field v g = refl
get_field-set_field temperature_field city_field v g = refl
get_field-set_field latitude_field city_field v g = refl
get_field-set_field longitude_field city_field v g = refl
get_field-set_field unix_epoch_field city_field v g = refl
get_field-set_field _ _ v g = refl

-- Whether the table's rows from here on have the field.
abbrev pub has_field : Field → List Field → Bool
has_field f [] = false
has_field f (f' ∷ fs) = field_id f == field_id f' || has_field f fs

pub field_of_id : (f f' : Field) → field_id f ≡ field_id f' → f ≡ f'
field_of_id city_field city_field e = refl
field_of_id country_field city_field e = absurd (omega arith)
field_of_id weather_field city_field e = absurd (omega arith)
field_of_id temperature_field city_field e = absurd (omega arith)
field_of_id latitude_field city_field e = absurd (omega arith)
field_of_id longitude_field city_field e = absurd (omega arith)
field_of_id unix_epoch_field city_field e = absurd (omega arith)
field_of_id _ _ e = ground arith
