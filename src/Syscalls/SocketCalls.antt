-- ===== src/Syscalls/SocketCalls.antt =====
-- The wrappers of the calls of syscalls/net_ip.h, socket.h,
-- fdtable.h and errno_private.h, and their numbers in generated/zephyr/syscall_list.h.
use ikt104_eksamen_oppgave.Base.{ℕ, ℤ, [], ◌∷◌}
use ikt104_eksamen_oppgave.Lcd.{Io}
use ikt104_eksamen_oppgave.Syscalls.{
  Kernel, word_of_int, half_union, trapped, int_result, pointer_result, impl_net_addr_pton,
  impl_zsock_socket, impl_zsock_close, impl_zsock_connect, impl_zsock_sendto, impl_zsock_recvfrom,
  impl_zvfs_poll, impl_z_errno,
}

abbrev pub k_syscall_zvfs_poll : ℕ
k_syscall_zvfs_poll = 223

abbrev pub k_syscall_z_errno : ℕ
k_syscall_z_errno = 225

abbrev pub k_syscall_net_addr_pton : ℕ
k_syscall_net_addr_pton = 133

abbrev pub k_syscall_zsock_socket : ℕ
k_syscall_zsock_socket = 221

abbrev pub k_syscall_zsock_close : ℕ
k_syscall_zsock_close = 204

abbrev pub k_syscall_zsock_connect : ℕ
k_syscall_zsock_connect = 205

abbrev pub k_syscall_zsock_sendto : ℕ
k_syscall_zsock_sendto = 218

abbrev pub k_syscall_zsock_recvfrom : ℕ
k_syscall_zsock_recvfrom = 215

module _ {S : Type 0} (k : Kernel S) where
  unfoldable pub net_addr_pton : ℕ → ℕ → ℕ → Io S ℤ
  unfolding trapped
  net_addr_pton family src dst =
      trapped k
        (int_result (
          k.arch_syscall_invoke (half_union k family ∷ src ∷ dst ∷ []) ([])
            k_syscall_net_addr_pton))
        ((k.z_impl (impl_net_addr_pton family src dst)))

  unfoldable pub zsock_socket : ℤ → ℤ → ℤ → Io S ℤ
  unfolding trapped
  zsock_socket family kind proto =
      trapped k
        (int_result (
          k.arch_syscall_invoke (word_of_int family ∷ word_of_int kind ∷ word_of_int proto ∷ [])
            ([]) k_syscall_zsock_socket))
        ((k.z_impl (impl_zsock_socket family kind proto)))

  unfoldable pub zsock_close : ℤ → Io S ℤ
  unfolding trapped
  zsock_close sock =
      trapped k
        (int_result (k.arch_syscall_invoke (word_of_int sock ∷ []) ([]) k_syscall_zsock_close))
        ((k.z_impl (impl_zsock_close sock)))

  unfoldable pub zsock_connect : ℤ → ℕ → ℕ → Io S ℤ
  unfolding trapped
  zsock_connect sock addr addrlen =
      trapped k
        (int_result (
          k.arch_syscall_invoke (word_of_int sock ∷ addr ∷ addrlen ∷ []) ([])
            k_syscall_zsock_connect))
        ((k.z_impl (impl_zsock_connect sock addr addrlen)))

  unfoldable pub zsock_sendto : ℤ → ℕ → ℕ → ℤ → ℕ → ℕ → Io S ℤ
  unfolding trapped
  zsock_sendto sock buf len flags dest_addr addrlen =
      trapped k
        (int_result (
          k.arch_syscall_invoke
            (word_of_int sock ∷ buf ∷ len ∷ word_of_int flags ∷ dest_addr ∷ addrlen ∷ []) ([])
            k_syscall_zsock_sendto))
        ((k.z_impl (impl_zsock_sendto sock buf len flags dest_addr addrlen)))

  unfoldable pub zsock_recvfrom : ℤ → ℕ → ℕ → ℤ → ℕ → ℕ → Io S ℤ
  unfolding trapped
  zsock_recvfrom sock buf max_len flags src_addr addrlen =
      trapped k
        (int_result (
          k.arch_syscall_invoke
            (word_of_int sock ∷ buf ∷ max_len ∷ word_of_int flags ∷ src_addr ∷ addrlen ∷ []) ([])
            k_syscall_zsock_recvfrom))
        ((k.z_impl (impl_zsock_recvfrom sock buf max_len flags src_addr addrlen)))

  unfoldable pub zvfs_poll : ℕ → ℤ → ℤ → Io S ℤ
  unfolding trapped
  zvfs_poll fds nfds poll_timeout =
      trapped k
        (int_result (
          k.arch_syscall_invoke (fds ∷ word_of_int nfds ∷ word_of_int poll_timeout ∷ []) []
            k_syscall_zvfs_poll))
        (k.z_impl (impl_zvfs_poll fds nfds poll_timeout))

  unfoldable pub z_errno : Io S ℤ
  unfolding trapped
  z_errno =
      trapped k (pointer_result (k.arch_syscall_invoke [] [] k_syscall_z_errno))
        (k.z_impl impl_z_errno)
