-- ===== src/Syscalls/Handlers.antt =====
-- What the kernel is to do on the other side of a trap: the documented way of Zephyr's handlers,
-- which are not part of the repository. Each reads its arguments back from the words, calls the
-- verification function with them, and returns that function's result in a word. What a
-- verification function allows is left open; of a call that it answers by stopping the thread, which
-- then does not return, nothing is said.
use ikt104_eksamen_oppgave.Base.{
  ℕ, ◌%◌, ℤ, pos, pos_part, ◌==ℤ◌, some, ◌≡◌, List, [], ◌∷◌, if◌then◌else◌,
}
use ikt104_eksamen_oppgave.Lcd.{Io, ◌>>=◌, returns}
use ikt104_eksamen_oppgave.Syscalls.{
  Kernel, Impl, Mrsh, word_of_int, int_of_word, impl_k_thread_create, impl_zvfs_poll, impl_z_errno,
  impl_k_str_out, impl_k_sleep, impl_k_usleep, impl_k_busy_wait, impl_k_mutex_lock,
  impl_k_mutex_unlock, impl_k_sem_take, impl_k_sem_give, impl_gpio_pin_configure,
  impl_gpio_port_get_raw, impl_gpio_port_set_bits_raw, impl_gpio_port_clear_bits_raw,
  impl_i2c_transfer, impl_sensor_sample_fetch, impl_sensor_channel_get, impl_device_is_ready,
  impl_net_addr_pton, impl_zsock_socket, impl_zsock_close, impl_zsock_connect, impl_zsock_sendto,
  impl_zsock_recvfrom, z_mrsh_k_thread_create, z_mrsh_zvfs_poll, z_mrsh_z_errno, z_mrsh_k_str_out,
  z_mrsh_k_sleep, z_mrsh_k_usleep, z_mrsh_k_busy_wait, z_mrsh_k_mutex_lock, z_mrsh_k_mutex_unlock,
  z_mrsh_k_sem_take, z_mrsh_k_sem_give, z_mrsh_gpio_pin_configure, z_mrsh_gpio_port_get_raw,
  z_mrsh_gpio_port_set_bits_raw, z_mrsh_gpio_port_clear_bits_raw, z_mrsh_i2c_transfer,
  z_mrsh_sensor_sample_fetch, z_mrsh_sensor_channel_get, z_mrsh_device_is_ready,
  z_mrsh_net_addr_pton, z_mrsh_zsock_socket, z_mrsh_zsock_close, z_mrsh_zsock_connect,
  z_mrsh_zsock_sendto, z_mrsh_zsock_recvfrom,
}
use ikt104_eksamen_oppgave.Syscalls.Words.{IsInt, timeout_of_words}
use ikt104_eksamen_oppgave.Syscalls.Table.{k_syscall_table}

module _ {S : Type 0} where
  unfoldable pub int_word : Io S ℤ → Io S ℕ
  int_word m = m >>= λ z. returns (word_of_int z)

  unfoldable pub pointer_word : Io S ℤ → Io S ℕ
  pointer_word m = m >>= λ z. returns (pos_part z)

  unfoldable pub void_word : Io S ℤ → Io S ℕ
  void_word m = m >>= λ z. returns 0

  unfoldable pub bool_word : Io S ℤ → Io S ℕ
  bool_word m = m >>= λ z. returns (if z ==ℤ pos 0 then 0 else 1)

-- A result that its type can hold: the identity of a thread and the place of `errno` are addresses,
-- the others are an `int`.
abbrev pub Fits : Impl → ℤ → Type 0
Fits (impl_k_thread_create _ _ _ _ _ _ _ _ _ _) z = pos (pos_part z) ≡ z
Fits impl_z_errno z = pos (pos_part z) ≡ z
Fits _ z = IsInt z

-- The trap goes to the handler that the table has for the number, which has a result of its type.
pub record Handles {S : Type 0} (k : Kernel S) : Type 0 where
  pub by_table :
      (regs more : List ℕ) (id : ℕ) (handler : Mrsh)
      → k_syscall_table id ≡ some handler
      → k.arch_syscall_invoke regs more id ≡ k.mrsh handler regs more
  pub fits : (c : Impl) (s : S) → let (z, s') = k.z_vrfy c s in Fits c z
  pub mrsh_k_thread_create :
      (new_thread stack stack_size entry p1 p2 p3 prio_word options delay_lo delay_hi : ℕ)
      → k.mrsh z_mrsh_k_thread_create
          (new_thread ∷ stack ∷ stack_size ∷ entry ∷ p1 ∷ [])
          (p2 ∷ p3 ∷ prio_word ∷ options ∷ delay_lo ∷ delay_hi ∷ [])
        ≡ pointer_word (
            k.z_vrfy (
              impl_k_thread_create new_thread stack stack_size entry p1 p2 p3
                (int_of_word prio_word)
                options
                (timeout_of_words delay_lo delay_hi)))
  pub mrsh_zvfs_poll :
      (fds nfds_word poll_timeout_word : ℕ)
      → k.mrsh z_mrsh_zvfs_poll (fds ∷ nfds_word ∷ poll_timeout_word ∷ []) []
        ≡ int_word
            (k.z_vrfy (impl_zvfs_poll fds (int_of_word nfds_word) (int_of_word poll_timeout_word)))
  pub mrsh_z_errno : k.mrsh z_mrsh_z_errno [] [] ≡ pointer_word (k.z_vrfy impl_z_errno)
  pub mrsh_k_str_out :
      (c n : ℕ)
      → k.mrsh z_mrsh_k_str_out (c ∷ n ∷ []) [] ≡ void_word (k.z_vrfy (impl_k_str_out c n))
  pub mrsh_k_sleep :
      (timeout_lo timeout_hi : ℕ)
      → k.mrsh z_mrsh_k_sleep (timeout_lo ∷ timeout_hi ∷ []) ([])
        ≡ int_word (k.z_vrfy (impl_k_sleep (timeout_of_words timeout_lo timeout_hi)))
  pub mrsh_k_usleep :
      (us_word : ℕ)
      → k.mrsh z_mrsh_k_usleep (us_word ∷ []) ([])
        ≡ int_word (k.z_vrfy (impl_k_usleep (int_of_word us_word)))
  pub mrsh_k_busy_wait :
      (usec_to_wait : ℕ)
      → k.mrsh z_mrsh_k_busy_wait (usec_to_wait ∷ []) ([])
        ≡ void_word (k.z_vrfy (impl_k_busy_wait usec_to_wait))
  pub mrsh_k_mutex_lock :
      (mutex timeout_lo timeout_hi : ℕ)
      → k.mrsh z_mrsh_k_mutex_lock (mutex ∷ timeout_lo ∷ timeout_hi ∷ []) ([])
        ≡ int_word (k.z_vrfy (impl_k_mutex_lock mutex (timeout_of_words timeout_lo timeout_hi)))
  pub mrsh_k_mutex_unlock :
      (mutex : ℕ)
      → k.mrsh z_mrsh_k_mutex_unlock (mutex ∷ []) ([])
        ≡ int_word (k.z_vrfy (impl_k_mutex_unlock mutex))
  pub mrsh_k_sem_take :
      (sem timeout_lo timeout_hi : ℕ)
      → k.mrsh z_mrsh_k_sem_take (sem ∷ timeout_lo ∷ timeout_hi ∷ []) ([])
        ≡ int_word (k.z_vrfy (impl_k_sem_take sem (timeout_of_words timeout_lo timeout_hi)))
  pub mrsh_k_sem_give :
      (sem : ℕ)
      → k.mrsh z_mrsh_k_sem_give (sem ∷ []) ([]) ≡ void_word (k.z_vrfy (impl_k_sem_give sem))
  pub mrsh_gpio_pin_configure :
      (port pin_word flags : ℕ)
      → k.mrsh z_mrsh_gpio_pin_configure (port ∷ pin_word ∷ flags ∷ []) ([])
        ≡ int_word (k.z_vrfy (impl_gpio_pin_configure port (pin_word % 256) flags))
  pub mrsh_gpio_port_get_raw :
      (port value : ℕ)
      → k.mrsh z_mrsh_gpio_port_get_raw (port ∷ value ∷ []) ([])
        ≡ int_word (k.z_vrfy (impl_gpio_port_get_raw port value))
  pub mrsh_gpio_port_set_bits_raw :
      (port pins : ℕ)
      → k.mrsh z_mrsh_gpio_port_set_bits_raw (port ∷ pins ∷ []) ([])
        ≡ int_word (k.z_vrfy (impl_gpio_port_set_bits_raw port pins))
  pub mrsh_gpio_port_clear_bits_raw :
      (port pins : ℕ)
      → k.mrsh z_mrsh_gpio_port_clear_bits_raw (port ∷ pins ∷ []) ([])
        ≡ int_word (k.z_vrfy (impl_gpio_port_clear_bits_raw port pins))
  pub mrsh_i2c_transfer :
      (dev msgs num_msgs_word addr_word : ℕ)
      → k.mrsh z_mrsh_i2c_transfer (dev ∷ msgs ∷ num_msgs_word ∷ addr_word ∷ []) ([])
        ≡ int_word (k.z_vrfy (impl_i2c_transfer dev msgs (num_msgs_word % 256) (addr_word % 65536)))
  pub mrsh_sensor_sample_fetch :
      (dev : ℕ)
      → k.mrsh z_mrsh_sensor_sample_fetch (dev ∷ []) ([])
        ≡ int_word (k.z_vrfy (impl_sensor_sample_fetch dev))
  pub mrsh_sensor_channel_get :
      (dev chan_word value : ℕ)
      → k.mrsh z_mrsh_sensor_channel_get (dev ∷ chan_word ∷ value ∷ []) ([])
        ≡ int_word (k.z_vrfy (impl_sensor_channel_get dev (chan_word % k.enum_range) value))
  pub mrsh_device_is_ready :
      (dev : ℕ)
      → k.mrsh z_mrsh_device_is_ready (dev ∷ []) ([])
        ≡ bool_word (k.z_vrfy (impl_device_is_ready dev))
  pub mrsh_net_addr_pton :
      (family_word src dst : ℕ)
      → k.mrsh z_mrsh_net_addr_pton (family_word ∷ src ∷ dst ∷ []) ([])
        ≡ int_word (k.z_vrfy (impl_net_addr_pton (family_word % 65536) src dst))
  pub mrsh_zsock_socket :
      (family_word kind_word proto_word : ℕ)
      → k.mrsh z_mrsh_zsock_socket (family_word ∷ kind_word ∷ proto_word ∷ []) ([])
        ≡ int_word (
            k.z_vrfy (
              impl_zsock_socket
                (int_of_word family_word)
                (int_of_word kind_word)
                (int_of_word proto_word)))
  pub mrsh_zsock_close :
      (sock_word : ℕ)
      → k.mrsh z_mrsh_zsock_close (sock_word ∷ []) ([])
        ≡ int_word (k.z_vrfy (impl_zsock_close (int_of_word sock_word)))
  pub mrsh_zsock_connect :
      (sock_word addr addrlen : ℕ)
      → k.mrsh z_mrsh_zsock_connect (sock_word ∷ addr ∷ addrlen ∷ []) ([])
        ≡ int_word (k.z_vrfy (impl_zsock_connect (int_of_word sock_word) addr addrlen))
  pub mrsh_zsock_sendto :
      (sock_word buf len flags_word dest_addr addrlen : ℕ)
      → k.mrsh z_mrsh_zsock_sendto
          (sock_word ∷ buf ∷ len ∷ flags_word ∷ dest_addr ∷ addrlen ∷ [])
          ([])
        ≡ int_word (
            k.z_vrfy (
              impl_zsock_sendto
                (int_of_word sock_word)
                buf
                len
                (int_of_word flags_word)
                dest_addr
                addrlen))
  pub mrsh_zsock_recvfrom :
      (sock_word buf max_len flags_word src_addr addrlen : ℕ)
      → k.mrsh z_mrsh_zsock_recvfrom
          (sock_word ∷ buf ∷ max_len ∷ flags_word ∷ src_addr ∷ addrlen ∷ [])
          ([])
        ≡ int_word (
            k.z_vrfy (
              impl_zsock_recvfrom
                (int_of_word sock_word)
                buf
                max_len
                (int_of_word flags_word)
                src_addr
                addrlen))
