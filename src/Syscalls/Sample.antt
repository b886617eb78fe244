-- ===== src/Syscalls/Sample.antt =====
-- A kernel for the examples: it keeps the calls that were made, the last one first.
use ikt104_eksamen_oppgave.Base.{
  ℕ, ◌%◌, ◌/◌, ◌==◌, if◌then◌else◌, Bytes, ℤ, pos, negsuc, true, false, Option, none, some, refl,
  ap, arith, List, [], ◌∷◌,
}
use ikt104_eksamen_oppgave.Lcd.{Io, returns}
use ikt104_eksamen_oppgave.Syscalls.{
  Kernel, Impl, Mrsh, int_of_word, impl_k_thread_create, impl_zvfs_poll, impl_z_errno,
  impl_k_str_out, impl_k_sleep, impl_k_usleep, impl_k_busy_wait, impl_k_mutex_lock,
  impl_k_mutex_unlock, impl_k_sem_take, impl_k_sem_give, impl_gpio_pin_configure,
  impl_gpio_port_get_raw, impl_gpio_port_set_bits_raw, impl_gpio_port_clear_bits_raw,
  impl_i2c_transfer, impl_sensor_sample_fetch, impl_sensor_channel_get, impl_device_is_ready,
  impl_net_addr_pton, impl_zsock_socket, impl_zsock_close, impl_zsock_connect, impl_zsock_sendto,
  impl_zsock_recvfrom, z_mrsh_k_thread_create, z_mrsh_zvfs_poll, z_mrsh_z_errno, z_mrsh_k_str_out,
  z_mrsh_k_sleep, z_mrsh_k_usleep, z_mrsh_k_busy_wait, z_mrsh_k_mutex_lock, z_mrsh_k_mutex_unlock,
  z_mrsh_k_sem_take, z_mrsh_k_sem_give, z_mrsh_gpio_pin_configure, z_mrsh_gpio_port_get_raw,
  z_mrsh_gpio_port_set_bits_raw, z_mrsh_gpio_port_clear_bits_raw, z_mrsh_i2c_transfer,
  z_mrsh_sensor_sample_fetch, z_mrsh_sensor_channel_get, z_mrsh_device_is_ready,
  z_mrsh_net_addr_pton, z_mrsh_zsock_socket, z_mrsh_zsock_close, z_mrsh_zsock_connect,
  z_mrsh_zsock_sendto, z_mrsh_zsock_recvfrom,
}
use ikt104_eksamen_oppgave.Syscalls.Words.{timeout_of_words}
use ikt104_eksamen_oppgave.Syscalls.Trace.{Traces, Effect, called, printed}
use ikt104_eksamen_oppgave.Syscalls.Table.{k_syscall_table}
use ikt104_eksamen_oppgave.Syscalls.Handlers.{
  Handles, Fits, int_word, pointer_word, void_word, bool_word,
}

abbrev pub Calls : Type 0
Calls = List Effect

-- A new thread is at address 8192, `errno` at 512, no semaphore is free (-11), every device is
-- ready.
abbrev pub answer : Impl → ℤ
answer (impl_k_thread_create _ _ _ _ _ _ _ _ _ _) = pos 8192
answer impl_z_errno = pos 512
answer (impl_k_sem_take _ _) = negsuc 10
answer (impl_device_is_ready _) = pos 1
answer _ = pos 0

abbrev pub noted : Impl → Io Calls ℤ
noted c calls = (answer c, called c ∷ calls)

-- The verification lets a user thread create no thread but a user thread (K_USER, 4).
abbrev pub verified : Impl → Io Calls ℤ
verified (impl_k_thread_create new_thread stack stack_size entry p1 p2 p3 prio options delay) =
    if options / 4 % 2 == 1
    then noted (impl_k_thread_create new_thread stack stack_size entry p1 p2 p3 prio options delay)
    else returns (pos 0)
verified c = noted c

-- The handlers.
abbrev pub handled : Mrsh → List ℕ → List ℕ → Io Calls ℕ
handled z_mrsh_k_thread_create (new_thread ∷ stack ∷ stack_size ∷ entry ∷ p1 ∷ [])
      (p2 ∷ p3 ∷ prio_word ∷ options ∷ delay_lo ∷ delay_hi ∷ []) =
    pointer_word (
      verified (
        impl_k_thread_create new_thread stack stack_size entry p1 p2 p3 (int_of_word prio_word)
          options (timeout_of_words delay_lo delay_hi)))
handled z_mrsh_zvfs_poll (fds ∷ nfds_word ∷ poll_timeout_word ∷ []) [] =
    int_word (verified (impl_zvfs_poll fds (int_of_word nfds_word) (int_of_word poll_timeout_word)))
handled z_mrsh_z_errno [] [] = pointer_word (verified impl_z_errno)
handled z_mrsh_k_str_out (c ∷ n ∷ []) [] = void_word (verified (impl_k_str_out c n))
handled z_mrsh_k_sleep (timeout_lo ∷ timeout_hi ∷ []) ([]) =
    int_word (verified (impl_k_sleep (timeout_of_words timeout_lo timeout_hi)))
handled z_mrsh_k_usleep (us_word ∷ []) ([]) =
    int_word (verified (impl_k_usleep (int_of_word us_word)))
handled z_mrsh_k_busy_wait (usec_to_wait ∷ []) ([]) =
    void_word (verified (impl_k_busy_wait usec_to_wait))
handled z_mrsh_k_mutex_lock (mutex ∷ timeout_lo ∷ timeout_hi ∷ []) ([]) =
    int_word (verified (impl_k_mutex_lock mutex (timeout_of_words timeout_lo timeout_hi)))
handled z_mrsh_k_mutex_unlock (mutex ∷ []) ([]) = int_word (verified (impl_k_mutex_unlock mutex))
handled z_mrsh_k_sem_take (sem ∷ timeout_lo ∷ timeout_hi ∷ []) ([]) =
    int_word (verified (impl_k_sem_take sem (timeout_of_words timeout_lo timeout_hi)))
handled z_mrsh_k_sem_give (sem ∷ []) ([]) = void_word (verified (impl_k_sem_give sem))
handled z_mrsh_gpio_pin_configure (port ∷ pin_word ∷ flags ∷ []) ([]) =
    int_word (verified (impl_gpio_pin_configure port (pin_word % 256) flags))
handled z_mrsh_gpio_port_get_raw (port ∷ value ∷ []) ([]) =
    int_word (verified (impl_gpio_port_get_raw port value))
handled z_mrsh_gpio_port_set_bits_raw (port ∷ pins ∷ []) ([]) =
    int_word (verified (impl_gpio_port_set_bits_raw port pins))
handled z_mrsh_gpio_port_clear_bits_raw (port ∷ pins ∷ []) ([]) =
    int_word (verified (impl_gpio_port_clear_bits_raw port pins))
handled z_mrsh_i2c_transfer (dev ∷ msgs ∷ num_msgs_word ∷ addr_word ∷ []) ([]) =
    int_word (verified (impl_i2c_transfer dev msgs (num_msgs_word % 256) (addr_word % 65536)))
handled z_mrsh_sensor_sample_fetch (dev ∷ []) ([]) =
    int_word (verified (impl_sensor_sample_fetch dev))
handled z_mrsh_sensor_channel_get (dev ∷ chan_word ∷ value ∷ []) ([]) =
    int_word (verified (impl_sensor_channel_get dev (chan_word % 60) value))
handled z_mrsh_device_is_ready (dev ∷ []) ([]) = bool_word (verified (impl_device_is_ready dev))
handled z_mrsh_net_addr_pton (family_word ∷ src ∷ dst ∷ []) ([]) =
    int_word (verified (impl_net_addr_pton (family_word % 65536) src dst))
handled z_mrsh_zsock_socket (family_word ∷ kind_word ∷ proto_word ∷ []) ([]) = int_word (
    verified (
      impl_zsock_socket (int_of_word family_word) (int_of_word kind_word) (int_of_word proto_word)))
handled z_mrsh_zsock_close (sock_word ∷ []) ([]) =
    int_word (verified (impl_zsock_close (int_of_word sock_word)))
handled z_mrsh_zsock_connect (sock_word ∷ addr ∷ addrlen ∷ []) ([]) =
    int_word (verified (impl_zsock_connect (int_of_word sock_word) addr addrlen))
handled z_mrsh_zsock_sendto (sock_word ∷ buf ∷ len ∷ flags_word ∷ dest_addr ∷ addrlen ∷ []) ([]) =
    int_word (
      verified (
        impl_zsock_sendto (int_of_word sock_word) buf len (int_of_word flags_word) dest_addr
          addrlen))
handled z_mrsh_zsock_recvfrom (sock_word ∷ buf ∷ max_len ∷ flags_word ∷ src_addr ∷ addrlen ∷ [])
      ([]) =
    int_word (
      verified (
        impl_zsock_recvfrom (int_of_word sock_word) buf max_len (int_of_word flags_word) src_addr
          addrlen))
handled _ _ _ = returns 0

abbrev pub dispatched : Option Mrsh → List ℕ → List ℕ → Io Calls ℕ
dispatched none regs more = returns 0
dispatched (some handler) regs more = handled handler regs more

abbrev pub kernel : Kernel Calls
kernel = record {
  config_userspace = true;
  z_syscall_trap = true;
  union_rest = 7;
  enum_range = 60;
  arch_syscall_invoke = λ regs more id. dispatched (k_syscall_table id) regs more;
  mrsh = handled;
  z_impl = noted;
  z_vrfy = verified;
}

answer-Fits : (c : Impl) → Fits c (answer c)
answer-Fits (impl_k_thread_create _ _ _ _ _ _ _ _ _ _) = refl
answer-Fits (impl_zvfs_poll _ _ _) = omega arith
answer-Fits impl_z_errno = refl
answer-Fits (impl_k_str_out _ _) = omega arith
answer-Fits (impl_k_sleep _) = omega arith
answer-Fits (impl_k_usleep _) = omega arith
answer-Fits (impl_k_busy_wait _) = omega arith
answer-Fits (impl_k_mutex_lock _ _) = omega arith
answer-Fits (impl_k_mutex_unlock _) = omega arith
answer-Fits (impl_k_sem_take _ _) = omega arith
answer-Fits (impl_k_sem_give _) = omega arith
answer-Fits (impl_gpio_pin_configure _ _ _) = omega arith
answer-Fits (impl_gpio_port_get_raw _ _) = omega arith
answer-Fits (impl_gpio_port_set_bits_raw _ _) = omega arith
answer-Fits (impl_gpio_port_clear_bits_raw _ _) = omega arith
answer-Fits (impl_i2c_transfer _ _ _ _) = omega arith
answer-Fits (impl_sensor_sample_fetch _) = omega arith
answer-Fits (impl_sensor_channel_get _ _ _) = omega arith
answer-Fits (impl_device_is_ready _) = omega arith
answer-Fits (impl_net_addr_pton _ _ _) = omega arith
answer-Fits (impl_zsock_socket _ _ _) = omega arith
answer-Fits (impl_zsock_close _) = omega arith
answer-Fits (impl_zsock_connect _ _ _) = omega arith
answer-Fits (impl_zsock_sendto _ _ _ _ _ _) = omega arith
answer-Fits (impl_zsock_recvfrom _ _ _ _ _ _) = omega arith

verified-Fits : (c : Impl) (s : Calls) → Fits c (verified c s).0
verified-Fits (impl_k_thread_create _ _ _ _ _ _ _ _ options _) s = ground arith
verified-Fits (impl_zvfs_poll a b c) s = answer-Fits (impl_zvfs_poll a b c)
verified-Fits impl_z_errno s = answer-Fits impl_z_errno
verified-Fits (impl_k_str_out a b) s = answer-Fits (impl_k_str_out a b)
verified-Fits (impl_k_sleep a) s = answer-Fits (impl_k_sleep a)
verified-Fits (impl_k_usleep a) s = answer-Fits (impl_k_usleep a)
verified-Fits (impl_k_busy_wait a) s = answer-Fits (impl_k_busy_wait a)
verified-Fits (impl_k_mutex_lock a b) s = answer-Fits (impl_k_mutex_lock a b)
verified-Fits (impl_k_mutex_unlock a) s = answer-Fits (impl_k_mutex_unlock a)
verified-Fits (impl_k_sem_take a b) s = answer-Fits (impl_k_sem_take a b)
verified-Fits (impl_k_sem_give a) s = answer-Fits (impl_k_sem_give a)
verified-Fits (impl_gpio_pin_configure a b c) s = answer-Fits (impl_gpio_pin_configure a b c)
verified-Fits (impl_gpio_port_get_raw a b) s = answer-Fits (impl_gpio_port_get_raw a b)
verified-Fits (impl_gpio_port_set_bits_raw a b) s = answer-Fits (impl_gpio_port_set_bits_raw a b)
verified-Fits (impl_gpio_port_clear_bits_raw a b) s =
    answer-Fits (impl_gpio_port_clear_bits_raw a b)
verified-Fits (impl_i2c_transfer a b c d) s = answer-Fits (impl_i2c_transfer a b c d)
verified-Fits (impl_sensor_sample_fetch a) s = answer-Fits (impl_sensor_sample_fetch a)
verified-Fits (impl_sensor_channel_get a b c) s = answer-Fits (impl_sensor_channel_get a b c)
verified-Fits (impl_device_is_ready a) s = answer-Fits (impl_device_is_ready a)
verified-Fits (impl_net_addr_pton a b c) s = answer-Fits (impl_net_addr_pton a b c)
verified-Fits (impl_zsock_socket a b c) s = answer-Fits (impl_zsock_socket a b c)
verified-Fits (impl_zsock_close a) s = answer-Fits (impl_zsock_close a)
verified-Fits (impl_zsock_connect a b c) s = answer-Fits (impl_zsock_connect a b c)
verified-Fits (impl_zsock_sendto a b c d e f) s = answer-Fits (impl_zsock_sendto a b c d e f)
verified-Fits (impl_zsock_recvfrom a b c d e f) s = answer-Fits (impl_zsock_recvfrom a b c d e f)

pub kernel-Handles : Handles kernel
kernel-Handles = record {
  by_table = λ regs more id handler e. ap (λ (h : Option Mrsh). dispatched h regs more) e;
  fits = verified-Fits;
  mrsh_k_thread_create =
      λ new_thread stack stack_size entry p1 p2 p3 prio_word options delay_lo delay_hi. refl;
  mrsh_zvfs_poll = λ fds nfds_word poll_timeout_word. refl;
  mrsh_z_errno = refl;
  mrsh_k_str_out = λ c n. refl;
  mrsh_k_sleep = λ timeout_lo timeout_hi. refl;
  mrsh_k_usleep = λ us_word. refl;
  mrsh_k_busy_wait = λ usec_to_wait. refl;
  mrsh_k_mutex_lock = λ mutex timeout_lo timeout_hi. refl;
  mrsh_k_mutex_unlock = λ mutex. refl;
  mrsh_k_sem_take = λ sem timeout_lo timeout_hi. refl;
  mrsh_k_sem_give = λ sem. refl;
  mrsh_gpio_pin_configure = λ port pin_word flags. refl;
  mrsh_gpio_port_get_raw = λ port value. refl;
  mrsh_gpio_port_set_bits_raw = λ port pins. refl;
  mrsh_gpio_port_clear_bits_raw = λ port pins. refl;
  mrsh_i2c_transfer = λ dev msgs num_msgs_word addr_word. refl;
  mrsh_sensor_sample_fetch = λ dev. refl;
  mrsh_sensor_channel_get = λ dev chan_word value. refl;
  mrsh_device_is_ready = λ dev. refl;
  mrsh_net_addr_pton = λ family_word src dst. refl;
  mrsh_zsock_socket = λ family_word kind_word proto_word. refl;
  mrsh_zsock_close = λ sock_word. refl;
  mrsh_zsock_connect = λ sock_word addr addrlen. refl;
  mrsh_zsock_sendto = λ sock_word buf len flags_word dest_addr addrlen. refl;
  mrsh_zsock_recvfrom = λ sock_word buf max_len flags_word src_addr addrlen. refl;
}

-- The kernel as the program is built, which takes no trap.
abbrev pub built_kernel : Kernel Calls
built_kernel = record kernel { config_userspace = false }

abbrev pub kernel_traces : Traces built_kernel
kernel_traces = record { effects = λ calls. calls; traced = λ c s. refl }

-- What is printed is kept as well.
abbrev pub noted_text : Bytes → Io Calls ℤ
noted_text text calls = (pos 0, printed text ∷ calls)
