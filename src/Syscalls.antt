-- ===== src/Syscalls.antt =====
-- The wrappers of the kernel's calls that the build has generated, exsamene/build/zephyr/include/
-- generated/zephyr/syscalls, as far as the program goes through them. A call is made in the
-- program's own mode, or, with CONFIG_USERSPACE and from a user thread, by a trap that passes the
-- arguments in words of 32 bits. What stands behind both, the kernel, is an argument. A pointer is
-- its address. The program is built without CONFIG_USERSPACE (autoconf.h); both ways are modelled.
pub mod Words
pub mod KernelCalls
pub mod DeviceCalls
pub mod SocketCalls
pub mod Table
pub mod Handlers
pub mod Call
pub mod Results
pub mod Same
pub mod Trace
pub mod Sample
mod Examples
use ikt104_eksamen_oppgave.Base.{
  ℕ, zero, suc, ◌+◌, ◌-◌, ◌*◌, ◌/◌, ◌%◌, ℤ, pos, negsuc, ◌==ℤ◌, Bool, true, false, ◌&&◌, List, [],
  ◌∷◌, ltb, ◌==◌, if◌then◌else◌,
}
use ikt104_eksamen_oppgave.Lcd.{Io, ◌>>=◌, returns}

-- The functions `z_impl_…` behind the wrappers, with their arguments.
pub data Impl : Type 0 where
  impl_k_thread_create : ℕ → ℕ → ℕ → ℕ → ℕ → ℕ → ℕ → ℤ → ℕ → ℤ → Impl
  impl_k_sleep : ℤ → Impl
  impl_k_usleep : ℤ → Impl
  impl_k_busy_wait : ℕ → Impl
  impl_k_mutex_lock : ℕ → ℤ → Impl
  impl_k_mutex_unlock : ℕ → Impl
  impl_k_sem_take : ℕ → ℤ → Impl
  impl_k_sem_give : ℕ → Impl
  impl_gpio_pin_configure : ℕ → ℕ → ℕ → Impl
  impl_gpio_port_get_raw : ℕ → ℕ → Impl
  impl_gpio_port_set_bits_raw : ℕ → ℕ → Impl
  impl_gpio_port_clear_bits_raw : ℕ → ℕ → Impl
  impl_i2c_transfer : ℕ → ℕ → ℕ → ℕ → Impl
  impl_sensor_sample_fetch : ℕ → Impl
  impl_sensor_channel_get : ℕ → ℕ → ℕ → Impl
  impl_device_is_ready : ℕ → Impl
  impl_net_addr_pton : ℕ → ℕ → ℕ → Impl
  impl_zsock_socket : ℤ → ℤ → ℤ → Impl
  impl_zsock_close : ℤ → Impl
  impl_zsock_connect : ℤ → ℕ → ℕ → Impl
  impl_zsock_sendto : ℤ → ℕ → ℕ → ℤ → ℕ → ℕ → Impl
  impl_zvfs_poll : ℕ → ℤ → ℤ → Impl
  impl_z_errno : Impl
  impl_k_str_out : ℕ → ℕ → Impl
  impl_zsock_recvfrom : ℤ → ℕ → ℕ → ℤ → ℕ → ℕ → Impl

-- The handlers `z_mrsh_…` of these calls, of which syscall_dispatch.c has the names.
pub data Mrsh : Type 0 where
  z_mrsh_k_thread_create : Mrsh
  z_mrsh_k_sleep : Mrsh
  z_mrsh_k_usleep : Mrsh
  z_mrsh_k_busy_wait : Mrsh
  z_mrsh_k_mutex_lock : Mrsh
  z_mrsh_k_mutex_unlock : Mrsh
  z_mrsh_k_sem_take : Mrsh
  z_mrsh_k_sem_give : Mrsh
  z_mrsh_gpio_pin_configure : Mrsh
  z_mrsh_gpio_port_get_raw : Mrsh
  z_mrsh_gpio_port_set_bits_raw : Mrsh
  z_mrsh_gpio_port_clear_bits_raw : Mrsh
  z_mrsh_i2c_transfer : Mrsh
  z_mrsh_sensor_sample_fetch : Mrsh
  z_mrsh_sensor_channel_get : Mrsh
  z_mrsh_device_is_ready : Mrsh
  z_mrsh_net_addr_pton : Mrsh
  z_mrsh_zsock_socket : Mrsh
  z_mrsh_zsock_close : Mrsh
  z_mrsh_zsock_connect : Mrsh
  z_mrsh_zsock_sendto : Mrsh
  z_mrsh_zsock_recvfrom : Mrsh
  z_mrsh_zvfs_poll : Mrsh
  z_mrsh_z_errno : Mrsh
  z_mrsh_k_str_out : Mrsh

-- What the wrappers stand on. `arch_syscall_invoke` takes the words in the registers, the words of
-- the array `more` to which the last register points if there is one, and the number of the call;
-- a handler takes the same words.
-- A union whose first member is shorter than the word leaves the other bytes open: they are
-- `union_rest`. `enum_range` is the number of values that fit an `enum sensor_channel`. `z_vrfy` is
-- what a handler calls: the verification of the arguments and, where they are granted, the function
-- itself.
pub record Kernel (S : Type 0) : Type 0 where
  pub config_userspace : Bool
  pub z_syscall_trap : Bool
  pub union_rest : ℕ
  pub enum_range : ℕ
  pub arch_syscall_invoke : List ℕ → List ℕ → ℕ → Io S ℕ
  pub mrsh : Mrsh → List ℕ → List ℕ → Io S ℕ
  pub z_impl : Impl → Io S ℤ
  pub z_vrfy : Impl → Io S ℤ

-- `union { uintptr_t x; int val; }`, two's complement.
unfoldable pub word_of_int : ℤ → ℕ
word_of_int (pos n) = n
word_of_int (negsuc n) = 4294967295 - n

-- The cast `(int)` of a word.
unfoldable pub int_of_word : ℕ → ℤ
int_of_word w = if ltb w 2147483648 then pos w else negsuc (4294967295 - w)

unfoldable pub word_of_int64 : ℤ → ℕ
word_of_int64 (pos n) = n
word_of_int64 (negsuc n) = 18446744073709551615 - n

-- `union { struct { uintptr_t lo, hi; } split; k_timeout_t val; }`
unfoldable pub split_lo : ℤ → ℕ
unfolding word_of_int64
split_lo t = word_of_int64 t % 4294967296

unfoldable pub split_hi : ℤ → ℕ
unfolding word_of_int64
split_hi t = word_of_int64 t / 4294967296

module _ {S : Type 0} (k : Kernel S) where
  -- `union { uintptr_t x; gpio_pin_t val; }`, and of a `uint16_t` and an enumeration.
  abbrev pub byte_union : ℕ → ℕ
  byte_union v = v + 256 * k.union_rest

  abbrev pub half_union : ℕ → ℕ
  half_union v = v + 65536 * k.union_rest

  abbrev pub enum_union : ℕ → ℕ
  enum_union v = v + k.enum_range * k.union_rest

  -- `#ifdef CONFIG_USERSPACE if (z_syscall_trap()) return …;` and what stands behind it.
  unfoldable pub trapped : Io S ℤ → Io S ℤ → Io S ℤ
  trapped by_trap direct s = if k.config_userspace && k.z_syscall_trap then by_trap s else direct s

module _ {S : Type 0} where
  -- The casts of what `arch_syscall_invoke` returns.
  unfoldable pub int_result : Io S ℕ → Io S ℤ
  unfolding int_of_word
  int_result m = m >>= λ w. returns (int_of_word w)

  unfoldable pub pointer_result : Io S ℕ → Io S ℤ
  pointer_result m = m >>= λ w. returns (pos w)

  unfoldable pub void_result : Io S ℕ → Io S ℤ
  void_result m = m >>= λ w. returns (pos 0)

  unfoldable pub bool_result : Io S ℕ → Io S ℤ
  bool_result m = m >>= λ w. returns (if w == 0 then pos 0 else pos 1)

  -- A function without a value, and one whose value is 0 or 1.
  unfoldable pub without_value : Io S ℤ → Io S ℤ
  without_value m = m >>= λ z. returns (pos 0)

  unfoldable pub as_bool : Io S ℤ → Io S ℤ
  as_bool m = m >>= λ z. returns (if z ==ℤ pos 0 then pos 0 else pos 1)
