-- ===== src/TemHum/Examples.antt =====
-- The sensor's theorem at three rounds, the last of which finds the sensor not ready.
use ikt104_eksamen_oppgave.Base.{◌≡◌, ℤ, pos, true, false, none, List, [], ◌∷◌}
use ikt104_eksamen_oppgave.TemHum.{
  SensorValue, Reading, tem_hum_get_temp, tem_hum_get_hum, temp_hum_thread, last_ready, temp_of,
  hum_of, temp_hum_thread-last_ready,
}

-- Millionths, in place of a floating-point number.
abbrev millionths : SensorValue → ℤ × ℤ
millionths v = (v.val1, v.val2)

abbrev zero_point : ℤ × ℤ
zero_point = (pos 0, pos 0)

abbrev value : ℤ → SensorValue
value z = record { val1 = z; val2 = pos 500000 }

abbrev readings : List Reading
readings =
    record { is_ready = true; temp = value (pos 20); hum = value (pos 40) }
    ∷ record { is_ready = true; temp = value (pos 21); hum = value (pos 41) }
    ∷ record { is_ready = false; temp = value (pos 99); hum = value (pos 99) }
    ∷ []

temp_hum_thread-last_ready_example :
    (tem_hum_get_temp zero_point millionths (temp_hum_thread zero_point millionths true readings)
      ≡ temp_of zero_point millionths (last_ready none readings))
    × (tem_hum_get_hum zero_point millionths (temp_hum_thread zero_point millionths true readings)
        ≡ hum_of zero_point millionths (last_ready none readings))
temp_hum_thread-last_ready_example = temp_hum_thread-last_ready zero_point millionths true readings
