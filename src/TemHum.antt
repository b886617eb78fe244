-- ===== src/TemHum.antt =====
-- exsamene/src/tem_hum.c, and the thread of main.c that calls it. The sensor is the kernel's:
-- whether it was found and whether it is ready are arguments, and so are the values that it gives
-- and the function that makes a floating-point number of them.
mod Examples
use ikt104_eksamen_oppgave.Base.{
  ℕ, ◌≡◌, refl, ℤ, Bool, true, false, not, List, [], ◌∷◌, if◌then◌else◌, Bool-cases, inl, inr,
  Option, none, some,
}

-- `struct sensor_value`: the whole part, and millionths.
pub record SensorValue : Type 0 where
  pub val1 : ℤ
  pub val2 : ℤ

-- What a call of `tem_hum_update` finds.
pub record Reading : Type 0 where
  pub is_ready : Bool
  pub temp : SensorValue
  pub hum : SensorValue

module _ {D : Type 0} (zero_point : D) (sensor_value_to_double : SensorValue → D) where
  -- `sensor` is true when the pointer is not NULL.
  pub record TemHum : Type 0 where
    pub sensor : Bool
    pub temperature : D
    pub humidity : D

  -- The initial values of the static variables.
  unfoldable pub at_start : TemHum
  at_start = record { sensor = false; temperature = zero_point; humidity = zero_point }

  unfoldable pub tem_hum_init : Bool → TemHum → TemHum
  tem_hum_init found s = record s { sensor = found }

  unfoldable pub tem_hum_update : Reading → TemHum → TemHum
  tem_hum_update r s = if not r.is_ready then s else record s {
    temperature = sensor_value_to_double r.temp;
    humidity = sensor_value_to_double r.hum;
  }

  unfoldable pub tem_hum_get_temp : TemHum → D
  tem_hum_get_temp s = s.temperature

  unfoldable pub tem_hum_get_hum : TemHum → D
  tem_hum_get_hum s = s.humidity

  unfoldable pub update_rounds : List Reading → TemHum → TemHum
  update_rounds [] s = s
  update_rounds (r ∷ rs) s = update_rounds rs (tem_hum_update r s)

  -- `temp_hum_thread_entry`, over the readings of its rounds so far.
  unfoldable pub temp_hum_thread : Bool → List Reading → TemHum
  temp_hum_thread found rs = update_rounds rs (tem_hum_init found at_start)

-- The last reading of a list at which the sensor was ready, or `last`.
unfoldable pub last_ready : Option Reading → List Reading → Option Reading
last_ready last [] = last
last_ready last (r ∷ rs) = last_ready (if r.is_ready then some r else last) rs

module _ {D : Type 0} (zero_point : D) (sensor_value_to_double : SensorValue → D) where
  abbrev pub temp_of : Option Reading → D
  temp_of none = zero_point
  temp_of (some r) = sensor_value_to_double r.temp

  abbrev pub hum_of : Option Reading → D
  hum_of none = zero_point
  hum_of (some r) = sensor_value_to_double r.hum

  Agrees : Option Reading → TemHum zero_point sensor_value_to_double → Type 0
  Agrees last s = (s.temperature ≡ temp_of last) × (s.humidity ≡ hum_of last)

  update-Agrees :
      (r : Reading) (last : Option Reading) (s : TemHum zero_point sensor_value_to_double)
      → Agrees last s
      → Agrees
          (if r.is_ready then some r else last)
          (tem_hum_update zero_point sensor_value_to_double r s)
  unfolding Agrees tem_hum_update
  update-Agrees r last s h = elim (Bool-cases r.is_ready) [
    | inl e ↦ rw e (refl, refl)
    | inr e ↦ rw e h
  ]

  rounds-Agrees :
      (rs : List Reading) (last : Option Reading) (s : TemHum zero_point sensor_value_to_double)
      → Agrees last s
      → Agrees (last_ready last rs) (update_rounds zero_point sensor_value_to_double rs s)
  unfolding update_rounds last_ready
  rounds-Agrees [] last s h = h
  rounds-Agrees (r ∷ rs) last s h = rounds-Agrees rs _ _ (update-Agrees r last s h)

  -- What the getters return is the last reading at which the sensor was ready, temperature and
  -- humidity from the same one, or 0 if there was none; a round in which the sensor is not ready
  -- keeps both.
  pub temp_hum_thread-last_ready :
      (found : Bool) (rs : List Reading)
      → (tem_hum_get_temp zero_point sensor_value_to_double
            (temp_hum_thread zero_point sensor_value_to_double found rs)
          ≡ temp_of (last_ready none rs))
        × (tem_hum_get_hum zero_point sensor_value_to_double
              (temp_hum_thread zero_point sensor_value_to_double found rs)
            ≡ hum_of (last_ready none rs))
  unfolding temp_hum_thread tem_hum_get_temp tem_hum_get_hum tem_hum_init at_start Agrees
  temp_hum_thread-last_ready found rs = rounds-Agrees rs none _ (refl, refl)
