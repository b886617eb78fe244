-- ===== src/Syscalls/DeviceCalls.antt =====
-- The wrappers of the calls of syscalls/gpio.h, i2c.h, sensor.h and device.h, and their numbers in
-- generated/zephyr/syscall_list.h.
use ikt104_eksamen_oppgave.Base.{ℕ, ℤ, [], ◌∷◌}
use ikt104_eksamen_oppgave.Lcd.{Io}
use ikt104_eksamen_oppgave.Syscalls.{
  Kernel, byte_union, half_union, enum_union, trapped, int_result, bool_result, as_bool,
  impl_gpio_pin_configure, impl_gpio_port_get_raw, impl_gpio_port_set_bits_raw,
  impl_gpio_port_clear_bits_raw, impl_i2c_transfer, impl_sensor_sample_fetch,
  impl_sensor_channel_get, impl_device_is_ready,
}

abbrev pub k_syscall_gpio_pin_configure : ℕ
k_syscall_gpio_pin_configure = 11

abbrev pub k_syscall_gpio_port_get_raw : ℕ
k_syscall_gpio_port_get_raw = 16

abbrev pub k_syscall_gpio_port_set_bits_raw : ℕ
k_syscall_gpio_port_set_bits_raw = 17

abbrev pub k_syscall_gpio_port_clear_bits_raw : ℕ
k_syscall_gpio_port_clear_bits_raw = 14

abbrev pub k_syscall_i2c_transfer : ℕ
k_syscall_i2c_transfer = 30

abbrev pub k_syscall_sensor_sample_fetch : ℕ
k_syscall_sensor_sample_fetch = 161

abbrev pub k_syscall_sensor_channel_get : ℕ
k_syscall_sensor_channel_get = 158

abbrev pub k_syscall_device_is_ready : ℕ
k_syscall_device_is_ready = 8

module _ {S : Type 0} (k : Kernel S) where
  unfoldable pub gpio_pin_configure : ℕ → ℕ → ℕ → Io S ℤ
  unfolding trapped
  gpio_pin_configure port pin flags =
      trapped k
        (int_result (
          k.arch_syscall_invoke (port ∷ byte_union k pin ∷ flags ∷ []) ([])
            k_syscall_gpio_pin_configure))
        ((k.z_impl (impl_gpio_pin_configure port pin flags)))

  unfoldable pub gpio_port_get_raw : ℕ → ℕ → Io S ℤ
  unfolding trapped
  gpio_port_get_raw port value =
      trapped k
        (int_result (k.arch_syscall_invoke (port ∷ value ∷ []) ([]) k_syscall_gpio_port_get_raw))
        ((k.z_impl (impl_gpio_port_get_raw port value)))

  unfoldable pub gpio_port_set_bits_raw : ℕ → ℕ → Io S ℤ
  unfolding trapped
  gpio_port_set_bits_raw port pins =
      trapped k
        (int_result
          (k.arch_syscall_invoke (port ∷ pins ∷ []) ([]) k_syscall_gpio_port_set_bits_raw))
        ((k.z_impl (impl_gpio_port_set_bits_raw port pins)))

  unfoldable pub gpio_port_clear_bits_raw : ℕ → ℕ → Io S ℤ
  unfolding trapped
  gpio_port_clear_bits_raw port pins =
      trapped k
        (int_result
          (k.arch_syscall_invoke (port ∷ pins ∷ []) ([]) k_syscall_gpio_port_clear_bits_raw))
        ((k.z_impl (impl_gpio_port_clear_bits_raw port pins)))

  unfoldable pub i2c_transfer : ℕ → ℕ → ℕ → ℕ → Io S ℤ
  unfolding trapped
  i2c_transfer dev msgs num_msgs addr =
      trapped k
        (int_result (
          k.arch_syscall_invoke (dev ∷ msgs ∷ byte_union k num_msgs ∷ half_union k addr ∷ []) ([])
            k_syscall_i2c_transfer))
        ((k.z_impl (impl_i2c_transfer dev msgs num_msgs addr)))

  unfoldable pub sensor_sample_fetch : ℕ → Io S ℤ
  unfolding trapped
  sensor_sample_fetch dev =
      trapped k (int_result (k.arch_syscall_invoke (dev ∷ []) ([]) k_syscall_sensor_sample_fetch))
        ((k.z_impl (impl_sensor_sample_fetch dev)))

  unfoldable pub sensor_channel_get : ℕ → ℕ → ℕ → Io S ℤ
  unfolding trapped
  sensor_channel_get dev chan value =
      trapped k
        (int_result (
          k.arch_syscall_invoke (dev ∷ enum_union k chan ∷ value ∷ []) ([])
            k_syscall_sensor_channel_get))
        ((k.z_impl (impl_sensor_channel_get dev chan value)))

  unfoldable pub device_is_ready : ℕ → Io S ℤ
  unfolding trapped
  device_is_ready dev =
      trapped k (bool_result (k.arch_syscall_invoke (dev ∷ []) ([]) k_syscall_device_is_ready))
        (as_bool (k.z_impl (impl_device_is_ready dev)))
