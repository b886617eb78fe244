-- ===== src/Syscalls/Trace.antt =====
-- A kernel that keeps a list of what is asked of it, which a proof reads, in a program that is built
-- without CONFIG_USERSPACE: no call takes the trap.
use ikt104_eksamen_oppgave.Base.{ℕ, ℤ, ◌≡◌, false, List, ◌∷◌, Bytes}
use ikt104_eksamen_oppgave.Syscalls.{
  Kernel, Impl, impl_k_thread_create, impl_gpio_pin_configure, impl_device_is_ready, trapped,
  as_bool,
}
use ikt104_eksamen_oppgave.Syscalls.KernelCalls.{k_thread_create}
use ikt104_eksamen_oppgave.Syscalls.DeviceCalls.{gpio_pin_configure, device_is_ready}

-- A function of the kernel is called, or a text is printed.
pub data Effect : Type 0 where
  called : Impl → Effect
  printed : Bytes → Effect

-- `effects` has the last one first.
pub record Traces {S : Type 0} (k : Kernel S) : Type 0 where
  pub effects : S → List Effect
  pub traced : (c : Impl) (s : S) → let (z, s') = k.z_impl c s in effects s' ≡ called c ∷ effects s

module _ {S : Type 0} (k : Kernel S) (built : k.config_userspace ≡ false) (tr : Traces k) where
  -- Each adds itself to what was asked.
  pub create-effects :
      (new_thread stack stack_size entry p1 p2 p3 : ℕ) (prio : ℤ) (options : ℕ) (delay : ℤ) (s : S)
      → tr.effects
          (k_thread_create k new_thread stack stack_size entry p1 p2 p3 prio options delay s).1
        ≡ called
            (impl_k_thread_create new_thread stack stack_size entry p1 p2 p3 prio options delay)
          ∷ tr.effects s
  unfolding k_thread_create trapped
  create-effects new_thread stack stack_size entry p1 p2 p3 prio options delay s = rw built (
      tr.traced (impl_k_thread_create new_thread stack stack_size entry p1 p2 p3 prio options delay)
        s)

  pub configure-effects :
      (port pin flags : ℕ) (s : S)
      → tr.effects (gpio_pin_configure k port pin flags s).1
        ≡ called (impl_gpio_pin_configure port pin flags) ∷ tr.effects s
  unfolding gpio_pin_configure trapped
  configure-effects port pin flags s =
      rw built (tr.traced (impl_gpio_pin_configure port pin flags) s)

  pub is_ready-effects :
      (dev : ℕ) (s : S)
      → tr.effects (device_is_ready k dev s).1 ≡ called (impl_device_is_ready dev) ∷ tr.effects s
  unfolding device_is_ready trapped as_bool
  is_ready-effects dev s = rw built (tr.traced (impl_device_is_ready dev) s)
