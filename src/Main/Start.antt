-- ===== src/Main/Start.antt =====
-- What `main` starts, in a program that is built without CONFIG_USERSPACE.
use ikt104_eksamen_oppgave.Base.{ℕ, ℤ, pos, ◌≡◌, refl, ap, ◌∙◌, false, List, [], ◌∷◌, ◌++◌}
use ikt104_eksamen_oppgave.Syscalls.{Kernel, impl_k_thread_create}
use ikt104_eksamen_oppgave.Syscalls.KernelCalls.{k_thread_create}
use ikt104_eksamen_oppgave.Syscalls.Trace.{Traces, Effect, called, create-effects}
use ikt104_eksamen_oppgave.Main.{Objects, main}

-- The thread of the sensor, that of the alarm and that of the screen, the last one first: the
-- address of its object, its stack and the stack's size, its function and three arguments, its
-- priority, no options and no delay.
abbrev pub creations : Objects → List Effect
creations o =
    called
      (impl_k_thread_create o.t2 o.stack_2 1024 o.temp_hum_thread_entry 0 0 0 (pos 2) 0 (pos 0))
    ∷ called (
        impl_k_thread_create o.alarm_thread o.alarm_stack 2048 o.alarm_thread_entry 0 0 0 (pos 3) 0
          (pos 0))
    ∷ called
        (impl_k_thread_create o.t1 o.stack_1 2048 o.screen_thread_entry 0 0 0 (pos 2) 0 (pos 0))
    ∷ []

module _ {S : Type 0} (k : Kernel S) (built : k.config_userspace ≡ false) (tr : Traces k) where
  created :
      (t stack size entry : ℕ) (prio : ℤ) (earlier : List Effect) (s : S)
      → tr.effects s ≡ earlier
      → tr.effects (k_thread_create k t stack size entry 0 0 0 prio 0 (pos 0) s).1
        ≡ called (impl_k_thread_create t stack size entry 0 0 0 prio 0 (pos 0)) ∷ earlier
  created t stack size entry prio earlier s e =
      create-effects k built tr t stack size entry 0 0 0 prio 0 (pos 0) s
      ∙ ap
          (λ (es : List Effect).
            called (impl_k_thread_create t stack size entry 0 0 0 prio 0 (pos 0)) ∷ es)
          e

  -- Built without CONFIG_USERSPACE, and whatever `k_thread_create` returns, `main` creates the
  -- threads of the screen, of the alarm and of the sensor, in this order and each once, with stacks
  -- of 2048, 2048 and 1024 bytes and the priorities 2, 3 and 2, to start at once, makes no other
  -- call, and returns 0.
  pub main-creations :
      (o : Objects) (s : S)
      → let (z, s') = main k o s in (z ≡ pos 0) × (tr.effects s' ≡ creations o ++ tr.effects s)
  unfolding main
  main-creations o s = (
    refl,
    created o.t2 o.stack_2 1024 o.temp_hum_thread_entry (pos 2) _ _ (
        created o.alarm_thread o.alarm_stack 2048 o.alarm_thread_entry (pos 3) _ _
          (created o.t1 o.stack_1 2048 o.screen_thread_entry (pos 2) _ s refl)),
  )
