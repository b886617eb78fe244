-- ===== src/Syscalls/KernelCalls.antt =====
-- The wrappers of the calls of syscalls/kernel.h, and their numbers in
-- generated/zephyr/syscall_list.h.
use ikt104_eksamen_oppgave.Base.{ℕ, ℤ, [], ◌∷◌}
use ikt104_eksamen_oppgave.Lcd.{Io}
use ikt104_eksamen_oppgave.Syscalls.{
  Kernel, word_of_int, split_lo, split_hi, trapped, int_result, pointer_result, void_result,
  without_value, impl_k_thread_create, impl_k_sleep, impl_k_usleep, impl_k_busy_wait,
  impl_k_mutex_lock, impl_k_mutex_unlock, impl_k_sem_take, impl_k_sem_give, impl_k_str_out,
}

abbrev pub k_syscall_k_thread_create : ℕ
k_syscall_k_thread_create = 99

abbrev pub k_syscall_k_sleep : ℕ
k_syscall_k_sleep = 92

abbrev pub k_syscall_k_usleep : ℕ
k_syscall_k_usleep = 124

abbrev pub k_syscall_k_busy_wait : ℕ
k_syscall_k_busy_wait = 31

abbrev pub k_syscall_k_mutex_lock : ℕ
k_syscall_k_mutex_lock = 61

abbrev pub k_syscall_k_mutex_unlock : ℕ
k_syscall_k_mutex_unlock = 62

abbrev pub k_syscall_k_sem_take : ℕ
k_syscall_k_sem_take = 91

abbrev pub k_syscall_k_str_out : ℕ
k_syscall_k_str_out = 96

abbrev pub k_syscall_k_sem_give : ℕ
k_syscall_k_sem_give = 88

module _ {S : Type 0} (k : Kernel S) where
  unfoldable pub k_thread_create : ℕ → ℕ → ℕ → ℕ → ℕ → ℕ → ℕ → ℤ → ℕ → ℤ → Io S ℤ
  unfolding trapped
  k_thread_create new_thread stack stack_size entry p1 p2 p3 prio options delay =
      trapped k
        (pointer_result (
          k.arch_syscall_invoke (new_thread ∷ stack ∷ stack_size ∷ entry ∷ p1 ∷ [])
            (p2 ∷ p3 ∷ word_of_int prio ∷ options ∷ split_lo delay ∷ split_hi delay ∷ [])
            k_syscall_k_thread_create))
        ((k.z_impl
          (impl_k_thread_create new_thread stack stack_size entry p1 p2 p3 prio options delay)))

  unfoldable pub k_sleep : ℤ → Io S ℤ
  unfolding trapped
  k_sleep timeout =
      trapped k
        (int_result
          (k.arch_syscall_invoke (split_lo timeout ∷ split_hi timeout ∷ []) ([]) k_syscall_k_sleep))
        ((k.z_impl (impl_k_sleep timeout)))

  unfoldable pub k_usleep : ℤ → Io S ℤ
  unfolding trapped
  k_usleep us =
      trapped k (int_result (k.arch_syscall_invoke (word_of_int us ∷ []) ([]) k_syscall_k_usleep))
        ((k.z_impl (impl_k_usleep us)))

  unfoldable pub k_busy_wait : ℕ → Io S ℤ
  unfolding trapped
  k_busy_wait usec_to_wait =
      trapped k (void_result (k.arch_syscall_invoke (usec_to_wait ∷ []) ([]) k_syscall_k_busy_wait))
        (without_value (k.z_impl (impl_k_busy_wait usec_to_wait)))

  unfoldable pub k_mutex_lock : ℕ → ℤ → Io S ℤ
  unfolding trapped
  k_mutex_lock mutex timeout =
      trapped k
        (int_result (
          k.arch_syscall_invoke (mutex ∷ split_lo timeout ∷ split_hi timeout ∷ []) ([])
            k_syscall_k_mutex_lock))
        ((k.z_impl (impl_k_mutex_lock mutex timeout)))

  unfoldable pub k_mutex_unlock : ℕ → Io S ℤ
  unfolding trapped
  k_mutex_unlock mutex =
      trapped k (int_result (k.arch_syscall_invoke (mutex ∷ []) ([]) k_syscall_k_mutex_unlock))
        ((k.z_impl (impl_k_mutex_unlock mutex)))

  unfoldable pub k_sem_take : ℕ → ℤ → Io S ℤ
  unfolding trapped
  k_sem_take sem timeout =
      trapped k
        (int_result (
          k.arch_syscall_invoke (sem ∷ split_lo timeout ∷ split_hi timeout ∷ []) ([])
            k_syscall_k_sem_take))
        ((k.z_impl (impl_k_sem_take sem timeout)))

  unfoldable pub k_sem_give : ℕ → Io S ℤ
  unfolding trapped
  k_sem_give sem =
      trapped k (void_result (k.arch_syscall_invoke (sem ∷ []) ([]) k_syscall_k_sem_give))
        (without_value (k.z_impl (impl_k_sem_give sem)))

  unfoldable pub k_str_out : ℕ → ℕ → Io S ℤ
  unfolding trapped
  k_str_out c n =
      trapped k (void_result (k.arch_syscall_invoke (c ∷ n ∷ []) [] k_syscall_k_str_out))
        (without_value (k.z_impl (impl_k_str_out c n)))
