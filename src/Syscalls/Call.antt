-- ===== src/Syscalls/Call.antt =====
-- The wrappers as one function on calls, and the values their arguments can have.
use ikt104_eksamen_oppgave.Base.{◌<◌, ℤ, false, ◌&&◌, if◌then◌else◌}
use ikt104_eksamen_oppgave.Lcd.{Io}
use ikt104_eksamen_oppgave.Syscalls.{
  Kernel, Impl, impl_k_thread_create, impl_zvfs_poll, impl_z_errno, impl_k_str_out, impl_k_sleep,
  impl_k_usleep, impl_k_busy_wait, impl_k_mutex_lock, impl_k_mutex_unlock, impl_k_sem_take,
  impl_k_sem_give, impl_gpio_pin_configure, impl_gpio_port_get_raw, impl_gpio_port_set_bits_raw,
  impl_gpio_port_clear_bits_raw, impl_i2c_transfer, impl_sensor_sample_fetch,
  impl_sensor_channel_get, impl_device_is_ready, impl_net_addr_pton, impl_zsock_socket,
  impl_zsock_close, impl_zsock_connect, impl_zsock_sendto, impl_zsock_recvfrom,
}
use ikt104_eksamen_oppgave.Syscalls.Words.{IsInt, IsTicks}
use ikt104_eksamen_oppgave.Syscalls.Table.{entry}
use ikt104_eksamen_oppgave.Syscalls.KernelCalls.{
  k_thread_create, k_sleep, k_usleep, k_busy_wait, k_mutex_lock, k_mutex_unlock, k_sem_take,
  k_sem_give, k_str_out,
}
use ikt104_eksamen_oppgave.Syscalls.DeviceCalls.{
  gpio_pin_configure, gpio_port_get_raw, gpio_port_set_bits_raw, gpio_port_clear_bits_raw,
  i2c_transfer, sensor_sample_fetch, sensor_channel_get, device_is_ready,
}
use ikt104_eksamen_oppgave.Syscalls.SocketCalls.{
  net_addr_pton, zsock_socket, zsock_close, zsock_connect, zsock_sendto, zsock_recvfrom, zvfs_poll,
  z_errno,
}

-- The wrapper that the code calls.
unfoldable pub call : {S : Type 0} → Kernel S → Impl → Io S ℤ
call k (impl_k_thread_create new_thread stack stack_size entry p1 p2 p3 prio options delay) =
    k_thread_create k new_thread stack stack_size entry p1 p2 p3 prio options delay
call k (impl_zvfs_poll fds nfds poll_timeout) = zvfs_poll k fds nfds poll_timeout
call k impl_z_errno = z_errno k
call k (impl_k_str_out c n) = k_str_out k c n
call k (impl_k_sleep timeout) = k_sleep k timeout
call k (impl_k_usleep us) = k_usleep k us
call k (impl_k_busy_wait usec_to_wait) = k_busy_wait k usec_to_wait
call k (impl_k_mutex_lock mutex timeout) = k_mutex_lock k mutex timeout
call k (impl_k_mutex_unlock mutex) = k_mutex_unlock k mutex
call k (impl_k_sem_take sem timeout) = k_sem_take k sem timeout
call k (impl_k_sem_give sem) = k_sem_give k sem
call k (impl_gpio_pin_configure port pin flags) = gpio_pin_configure k port pin flags
call k (impl_gpio_port_get_raw port value) = gpio_port_get_raw k port value
call k (impl_gpio_port_set_bits_raw port pins) = gpio_port_set_bits_raw k port pins
call k (impl_gpio_port_clear_bits_raw port pins) = gpio_port_clear_bits_raw k port pins
call k (impl_i2c_transfer dev msgs num_msgs addr) = i2c_transfer k dev msgs num_msgs addr
call k (impl_sensor_sample_fetch dev) = sensor_sample_fetch k dev
call k (impl_sensor_channel_get dev chan value) = sensor_channel_get k dev chan value
call k (impl_device_is_ready dev) = device_is_ready k dev
call k (impl_net_addr_pton family src dst) = net_addr_pton k family src dst
call k (impl_zsock_socket family kind proto) = zsock_socket k family kind proto
call k (impl_zsock_close sock) = zsock_close k sock
call k (impl_zsock_connect sock addr addrlen) = zsock_connect k sock addr addrlen
call k (impl_zsock_sendto sock buf len flags dest_addr addrlen) =
    zsock_sendto k sock buf len flags dest_addr addrlen
call k (impl_zsock_recvfrom sock buf max_len flags src_addr addrlen) =
    zsock_recvfrom k sock buf max_len flags src_addr addrlen

-- The arguments have values of their types.
abbrev pub InRange : {S : Type 0} → Kernel S → Impl → Type 0
InRange k (impl_k_thread_create _ _ _ _ _ _ _ prio _ delay) = (IsInt prio) × (IsTicks delay)
InRange k (impl_zvfs_poll _ nfds poll_timeout) = IsInt nfds × IsInt poll_timeout
InRange k impl_z_errno = Unit
InRange k (impl_k_str_out _ _) = Unit
InRange k (impl_k_sleep timeout) = (IsTicks timeout)
InRange k (impl_k_usleep us) = (IsInt us)
InRange k (impl_k_busy_wait _) = Unit
InRange k (impl_k_mutex_lock _ timeout) = (IsTicks timeout)
InRange k (impl_k_mutex_unlock _) = Unit
InRange k (impl_k_sem_take _ timeout) = (IsTicks timeout)
InRange k (impl_k_sem_give _) = Unit
InRange k (impl_gpio_pin_configure _ pin _) = (pin < 256)
InRange k (impl_gpio_port_get_raw _ _) = Unit
InRange k (impl_gpio_port_set_bits_raw _ _) = Unit
InRange k (impl_gpio_port_clear_bits_raw _ _) = Unit
InRange k (impl_i2c_transfer _ _ num_msgs addr) = (num_msgs < 256) × (addr < 65536)
InRange k (impl_sensor_sample_fetch _) = Unit
InRange k (impl_sensor_channel_get _ chan _) = (chan < k.enum_range)
InRange k (impl_device_is_ready _) = Unit
InRange k (impl_net_addr_pton family _ _) = (family < 65536)
InRange k (impl_zsock_socket family kind proto) = (IsInt family) × (IsInt kind) × (IsInt proto)
InRange k (impl_zsock_close sock) = (IsInt sock)
InRange k (impl_zsock_connect sock _ _) = (IsInt sock)
InRange k (impl_zsock_sendto sock _ _ flags _ _) = (IsInt sock) × (IsInt flags)
InRange k (impl_zsock_recvfrom sock _ _ flags _ _) = (IsInt sock) × (IsInt flags)

-- The same kernel with nothing between a call and what it reaches: by the trap, which a build with
-- CONFIG_USERSPACE has and a user thread takes, the verification function, else the function itself.
abbrev pub reached : {S : Type 0} → Kernel S → Kernel S
reached k = record k {
  z_syscall_trap = false;
  z_impl = λ c. if k.config_userspace && k.z_syscall_trap then k.z_vrfy c else k.z_impl c;
}
