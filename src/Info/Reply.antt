-- ===== src/Info/Reply.antt =====
-- `parse_info` of network_config.c on the two kinds of reply of `/info` in python_proxi/proxi.py.
use ikt104_eksamen_oppgave.Base.{
  ℕ, zero, suc, ◌+◌, ◌*◌, ◌/◌, ◌%◌, ◌≤◌, ◌<◌, true, List, [], ◌∷◌, ◌≡◌, refl, ap, ◌∙◌, arith, none,
  some, ltb, lt→ltb, Bytes, codes, digits_fuel, decimal, All, take, length, take_of_le, bytes_eq,
  Bool-cases, inl, inr,
}
use ikt104_eksamen_oppgave.Proxy.{
  Value, quoted, bare, Member, member, InfoReply, info_members, info_body, error_body,
}
use ikt104_eksamen_oppgave.Proxy.Escapes.{NotQuote}
use ikt104_eksamen_oppgave.Proxy.Search.{IsPassed}
use ikt104_eksamen_oppgave.Proxy.Members.{IsMember, find_member}
use ikt104_eksamen_oppgave.Info.{
  InfoData, Field, city_field, country_field, weather_field, temperature_field, latitude_field,
  longitude_field, unix_epoch_field, get_field, parse_info, field_name,
}
use ikt104_eksamen_oppgave.Info.Values.{Bare, IsSimple, stored}
use ikt104_eksamen_oppgave.Info.RoundTrip.{IsSimpleOption, stored_or, parse_info-dumps}
use ikt104_eksamen_oppgave.Calendar.{long_max, read_epoch}
use ikt104_eksamen_oppgave.Calendar.Epoch.{read_epoch-decimal}

digit-Bare : (d : ℕ) → d < 10 → Bare (b'0' + d)
digit-Bare d h = omega arith

digits_fuel-Bare : (fuel n : ℕ) (acc : Bytes) → All Bare acc → All Bare (digits_fuel fuel n acc)
digits_fuel-Bare zero n acc h = (digit-Bare (n % 10) (omega arith), h)
digits_fuel-Bare (suc fuel) n acc h = elim (Bool-cases (ltb n 10)) [
  | inl one ↦ rw one (digit-Bare n (ground arith), h)
  | inr more ↦ rw more (
      digits_fuel-Bare fuel (n / 10) ((b'0' + n % 10) ∷ acc) (digit-Bare (n % 10) (omega arith), h))
]

pub decimal-Bare : (n : ℕ) → All Bare (decimal n)
unfolding decimal
decimal-Bare n = digits_fuel-Bare n n [] tt

-- The least number with more than k + 1 digits.
abbrev pub digits_bound : ℕ → ℕ
digits_bound zero = 10
digits_bound (suc k) = 10 * digits_bound k

pub length-digits_fuel :
    (k fuel n : ℕ) (acc : Bytes)
    → n < digits_bound k
    → length (digits_fuel fuel n acc) ≤ suc k + length acc
length-digits_fuel k zero n acc h = omega arith
length-digits_fuel zero (suc fuel) n acc h = rw (lt→ltb n 10 h) (omega arith)
length-digits_fuel (suc k) (suc fuel) n acc h = elim (Bool-cases (ltb n 10)) [
  | inl one ↦ rw one (omega arith)
  | inr more ↦
      rw more
        (omega (arith, length-digits_fuel k fuel (n / 10) ((b'0' + n % 10) ∷ acc) (omega arith)))
]

length-decimal : (n : ℕ) → n ≤ long_max → length (decimal n) ≤ 10
unfolding decimal
length-decimal n h = omega (arith, length-digits_fuel 9 n n [] (omega arith))

-- The strings of a reply are ones that JSON writes as they are, and the rest are numbers, `null`,
-- `true` or `false`.
pub record IsSimpleReply (r : InfoReply) : Type 0 where
  pub weekday : IsSimple r.weekday
  pub day : IsSimple r.day
  pub month : IsSimple r.month
  pub time : IsSimple r.time
  pub ip : IsSimple r.ip
  pub city : IsSimple r.city
  pub country : IsSimple r.country
  pub latitude : IsSimple r.latitude
  pub longitude : IsSimple r.longitude
  pub weather : IsSimple r.weather
  pub temperature_celsius : IsSimple r.temperature_celsius

pub NotQuote-of_Bare : (text : Bytes) → All Bare text → All NotQuote text
NotQuote-of_Bare [] h = tt
NotQuote-of_Bare (c ∷ text) (h, hs) = (h.0, NotQuote-of_Bare text hs)

IsPassed-of_IsSimple : (v : Value) → IsSimple v → IsPassed v
IsPassed-of_IsSimple (quoted text) h = tt
IsPassed-of_IsSimple (bare text) h = NotQuote-of_Bare text h

info_members-IsMember : (r : InfoReply) → IsSimpleReply r → All IsMember (info_members r)
info_members-IsMember r h = (
  (omega arith, NotQuote-of_Bare _ (decimal-Bare r.unix_epoch)),
  (
    (omega arith, IsPassed-of_IsSimple r.weekday h.weekday),
    (
      (omega arith, IsPassed-of_IsSimple r.day h.day),
      (
        (omega arith, IsPassed-of_IsSimple r.month h.month),
        (
          (omega arith, IsPassed-of_IsSimple r.time h.time),
          (
            (omega arith, IsPassed-of_IsSimple r.ip h.ip),
            (
              (omega arith, IsPassed-of_IsSimple r.city h.city),
              (
                (omega arith, IsPassed-of_IsSimple r.country h.country),
                (
                  (omega arith, IsPassed-of_IsSimple r.latitude h.latitude),
                  (
                    (omega arith, IsPassed-of_IsSimple r.longitude h.longitude),
                    (
                      (omega arith, IsPassed-of_IsSimple r.weather h.weather),
                      (
                        (
                          omega arith,
                          IsPassed-of_IsSimple r.temperature_celsius h.temperature_celsius,
                        ),
                        tt,
                      ),
                    ),
                  ),
                ),
              ),
            ),
          ),
        ),
      ),
    ),
  ),
)

info_members-IsSimple :
    (r : InfoReply)
    → IsSimpleReply r
    → (f : Field) → IsSimpleOption (find_member (field_name f) (info_members r))
unfolding bytes_eq
info_members-IsSimple r h city_field = h.city
info_members-IsSimple r h country_field = h.country
info_members-IsSimple r h weather_field = h.weather
info_members-IsSimple r h temperature_field = h.temperature_celsius
info_members-IsSimple r h latitude_field = h.latitude
info_members-IsSimple r h longitude_field = h.longitude
info_members-IsSimple r h unix_epoch_field = decimal-Bare r.unix_epoch

-- What the device is to hold of a reply.
abbrev pub info_of : (r : InfoReply) → InfoData
info_of r = record {
  city = stored r.city;
  country = stored r.country;
  weather = stored r.weather;
  temperature = stored r.temperature_celsius;
  latitude = stored r.latitude;
  longitude = stored r.longitude;
  unix_epoch = take 31 (decimal r.unix_epoch);
  ready = true;
}

module _ (r : InfoReply) (h : IsSimpleReply r) where
  field_is :
      (f : Field) (g : InfoData)
      → get_field f (parse_info (info_body r) g)
        ≡ stored_or (find_member (field_name f) (info_members r)) (get_field f g)
  field_is f g =
      unfold info_body in
      (parse_info-dumps (info_members r) (info_members-IsMember r h) (info_members-IsSimple r h) f
        g).0

  ready_is : (g : InfoData) → (parse_info (info_body r) g).ready ≡ true
  ready_is g = unfold parse_info in refl

  -- From a reply of the proxy whose strings are ordinary ASCII, `parse_info` stores the seven texts
  -- that the table names, each cut to 31 bytes, whatever the device held before.
  pub parse_info-info_body : (g : InfoData) → parse_info (info_body r) g ≡ info_of r
  unfolding get_field bytes_eq
  parse_info-info_body g = λ i. record {
    city = field_is city_field g i;
    country = field_is country_field g i;
    weather = field_is weather_field g i;
    temperature = field_is temperature_field g i;
    latitude = field_is latitude_field g i;
    longitude = field_is longitude_field g i;
    unix_epoch = field_is unix_epoch_field g i;
    ready = ready_is g i;
  }

  -- The epoch goes from the proxy's clock to the date that the screen shows: `parse_info` stores
  -- the digits of every epoch that a `long` holds, and the screen's loop reads the same number
  -- back.
  pub read_epoch-parse_info :
      (g : InfoData)
      → r.unix_epoch ≤ long_max
      → read_epoch 0 (parse_info (info_body r) g).unix_epoch ≡ some r.unix_epoch
  read_epoch-parse_info g fits =
      ap (λ (d : InfoData). read_epoch 0 d.unix_epoch) (parse_info-info_body g)
      ∙ ap (read_epoch 0)
          (take_of_le 31 (decimal r.unix_epoch) (omega (arith, length-decimal r.unix_epoch fits)))
      ∙ (read_epoch-decimal r.unix_epoch).0 fits

abbrev error_members : Bytes → List Member
error_members message = member (codes "error") (quoted message) ∷ []

error_absent :
    (message : Bytes) (f : Field) → find_member (field_name f) (error_members message) ≡ none
unfolding bytes_eq
error_absent message city_field = refl
error_absent message _ = refl

error_kept :
    (message : Bytes) (f : Field) (g : InfoData)
    → get_field f (parse_info (error_body message) g) ≡ get_field f g
error_kept message f g =
    unfold error_body in
    (parse_info-dumps (error_members message) ((omega arith, tt), tt)
      (λ f'. rw (error_absent message f') tt) f g).0
    ∙ ap (λ o. stored_or o (get_field f g)) (error_absent message f)

-- An error reply of the proxy, whatever its message, leaves the seven strings as they were, and
-- still sets `ready`.
pub parse_info-error_body :
    (message : Bytes) (g : InfoData) → parse_info (error_body message) g ≡ record g { ready = true }
unfolding get_field parse_info
parse_info-error_body message g = λ i. record {
  city = error_kept message city_field g i;
  country = error_kept message country_field g i;
  weather = error_kept message weather_field g i;
  temperature = error_kept message temperature_field g i;
  latitude = error_kept message latitude_field g i;
  longitude = error_kept message longitude_field g i;
  unix_epoch = error_kept message unix_epoch_field g i;
  ready = true;
}
