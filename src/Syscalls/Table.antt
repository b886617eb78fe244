-- ===== src/Syscalls/Table.antt =====
-- The table that leads from a call's number to its handler, generated/zephyr/syscall_dispatch.c,
-- `_k_syscall_table`. It has one entry for each number; those of calls that the program does not
-- make are left out.
use ikt104_eksamen_oppgave.Base.{ℕ, Option, none, some, List, [], ◌∷◌, ◌==◌, if◌then◌else◌}
use ikt104_eksamen_oppgave.Syscalls.{
  Mrsh, z_mrsh_k_thread_create, z_mrsh_zvfs_poll, z_mrsh_z_errno, z_mrsh_k_str_out, z_mrsh_k_sleep,
  z_mrsh_k_usleep, z_mrsh_k_busy_wait, z_mrsh_k_mutex_lock, z_mrsh_k_mutex_unlock,
  z_mrsh_k_sem_take, z_mrsh_k_sem_give, z_mrsh_gpio_pin_configure, z_mrsh_gpio_port_get_raw,
  z_mrsh_gpio_port_set_bits_raw, z_mrsh_gpio_port_clear_bits_raw, z_mrsh_i2c_transfer,
  z_mrsh_sensor_sample_fetch, z_mrsh_sensor_channel_get, z_mrsh_device_is_ready,
  z_mrsh_net_addr_pton, z_mrsh_zsock_socket, z_mrsh_zsock_close, z_mrsh_zsock_connect,
  z_mrsh_zsock_sendto, z_mrsh_zsock_recvfrom,
}
use ikt104_eksamen_oppgave.Syscalls.KernelCalls.{
  k_syscall_k_thread_create, k_syscall_k_sleep, k_syscall_k_usleep, k_syscall_k_busy_wait,
  k_syscall_k_mutex_lock, k_syscall_k_mutex_unlock, k_syscall_k_sem_take, k_syscall_k_sem_give,
  k_syscall_k_str_out,
}
use ikt104_eksamen_oppgave.Syscalls.DeviceCalls.{
  k_syscall_gpio_pin_configure, k_syscall_gpio_port_get_raw, k_syscall_gpio_port_set_bits_raw,
  k_syscall_gpio_port_clear_bits_raw, k_syscall_i2c_transfer, k_syscall_sensor_sample_fetch,
  k_syscall_sensor_channel_get, k_syscall_device_is_ready,
}
use ikt104_eksamen_oppgave.Syscalls.SocketCalls.{
  k_syscall_net_addr_pton, k_syscall_zsock_socket, k_syscall_zsock_close, k_syscall_zsock_connect,
  k_syscall_zsock_sendto, k_syscall_zsock_recvfrom, k_syscall_zvfs_poll, k_syscall_z_errno,
}

abbrev pub socket_entries : List (ℕ × Mrsh)
socket_entries =
    (k_syscall_zvfs_poll, z_mrsh_zvfs_poll)
    ∷ (k_syscall_net_addr_pton, z_mrsh_net_addr_pton)
    ∷ (k_syscall_zsock_socket, z_mrsh_zsock_socket)
    ∷ (k_syscall_zsock_close, z_mrsh_zsock_close)
    ∷ (k_syscall_zsock_connect, z_mrsh_zsock_connect)
    ∷ (k_syscall_zsock_sendto, z_mrsh_zsock_sendto)
    ∷ (k_syscall_zsock_recvfrom, z_mrsh_zsock_recvfrom)
    ∷ []

abbrev pub device_entries : List (ℕ × Mrsh)
device_entries =
    (k_syscall_gpio_pin_configure, z_mrsh_gpio_pin_configure)
    ∷ (k_syscall_gpio_port_get_raw, z_mrsh_gpio_port_get_raw)
    ∷ (k_syscall_gpio_port_set_bits_raw, z_mrsh_gpio_port_set_bits_raw)
    ∷ (k_syscall_gpio_port_clear_bits_raw, z_mrsh_gpio_port_clear_bits_raw)
    ∷ (k_syscall_i2c_transfer, z_mrsh_i2c_transfer)
    ∷ (k_syscall_sensor_sample_fetch, z_mrsh_sensor_sample_fetch)
    ∷ (k_syscall_sensor_channel_get, z_mrsh_sensor_channel_get)
    ∷ (k_syscall_device_is_ready, z_mrsh_device_is_ready)
    ∷ []

abbrev pub kernel_entries : List (ℕ × Mrsh)
kernel_entries =
    (k_syscall_k_thread_create, z_mrsh_k_thread_create)
    ∷ (k_syscall_k_sleep, z_mrsh_k_sleep)
    ∷ (k_syscall_k_usleep, z_mrsh_k_usleep)
    ∷ (k_syscall_k_busy_wait, z_mrsh_k_busy_wait)
    ∷ (k_syscall_k_mutex_lock, z_mrsh_k_mutex_lock)
    ∷ (k_syscall_k_mutex_unlock, z_mrsh_k_mutex_unlock)
    ∷ (k_syscall_k_sem_take, z_mrsh_k_sem_take)
    ∷ (k_syscall_k_sem_give, z_mrsh_k_sem_give)
    ∷ (k_syscall_k_str_out, z_mrsh_k_str_out)
    ∷ (k_syscall_z_errno, z_mrsh_z_errno)
    ∷ []

unfoldable pub entry : ℕ → List (ℕ × Mrsh) → Option Mrsh → Option Mrsh
entry id [] rest = rest
entry id ((number, handler) ∷ entries) rest =
    if number == id then some handler else entry id entries rest

-- `_k_syscall_table[id]`.
unfoldable pub k_syscall_table : ℕ → Option Mrsh
unfolding entry
k_syscall_table id =
    entry id socket_entries (entry id device_entries (entry id kernel_entries none))
