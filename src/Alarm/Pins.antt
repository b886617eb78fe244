-- ===== src/Alarm/Pins.antt =====
-- exsamene/src/alarm.c, `alarm_gpio_init`: the calls that set the pins up and start the speaker's
-- thread, by the kernel's wrappers, and what it prints. Addresses and the flags of the pins, which are the kernel's,
-- are arguments.
use ikt104_eksamen_oppgave.Base.{
  ℕ, ℤ, pos, ◌==ℤ◌, ◌≡◌, refl, ap, ◌∙◌, Bool, false, Bytes, codes, not, Bool-cases, inl, inr, List,
  [], ◌∷◌, ◌++◌, if◌then◌else◌,
}
use ikt104_eksamen_oppgave.Lcd.{Io, ◌>>=◌, ◌>>◌}
use ikt104_eksamen_oppgave.Syscalls.{
  Kernel, impl_k_thread_create, impl_gpio_pin_configure, impl_device_is_ready,
}
use ikt104_eksamen_oppgave.Syscalls.KernelCalls.{k_thread_create}
use ikt104_eksamen_oppgave.Syscalls.DeviceCalls.{gpio_pin_configure, device_is_ready}
use ikt104_eksamen_oppgave.Syscalls.Trace.{
  Traces, Effect, called, printed, create-effects, configure-effects, is_ready-effects,
}
use ikt104_eksamen_oppgave.Alarm.{Alarm, alarm_gpio_init}

abbrev pub snooze_pin : ℕ
snooze_pin = 6

abbrev pub mute_pin : ℕ
mute_pin = 7

abbrev pub enable_pin : ℕ
enable_pin = 1

abbrev pub speaker_pin : ℕ
speaker_pin = 0

abbrev pub speaker_stack_size : ℕ
speaker_stack_size = 512

abbrev pub speaker_priority : ℤ
speaker_priority = pos 4

-- `pull_up` is `GPIO_INPUT | GPIO_PULL_UP`, and `inactive` is `GPIO_OUTPUT_INACTIVE`.
pub record Pins : Type 0 where
  pub gpioa : ℕ
  pub gpiob : ℕ
  pub pull_up : ℕ
  pub inactive : ℕ
  pub speaker_thread_data : ℕ
  pub speaker_stack : ℕ
  pub speaker_thread_entry : ℕ

-- `print` is the kernel's `printk`.
module _ {S : Type 0} (k : Kernel S) (print : Bytes → Io S ℤ) (o : Pins) where
  -- Behind the test of the devices.
  unfoldable pub configure_pins : Io S ℤ
  configure_pins = do
    gpio_pin_configure k o.gpioa snooze_pin o.pull_up
    gpio_pin_configure k o.gpioa mute_pin o.pull_up
    gpio_pin_configure k o.gpiob enable_pin o.pull_up
    gpio_pin_configure k o.gpiob speaker_pin o.inactive
    print (codes "Alarm GPIO ready\n")
    k_thread_create k o.speaker_thread_data o.speaker_stack speaker_stack_size
        o.speaker_thread_entry 0 0 0 speaker_priority 0 (pos 0)

  -- A device that is not ready ends it.
  unfoldable pub if_ready : ℕ → Io S ℤ → Io S ℤ
  if_ready dev rest = device_is_ready k dev >>= λ ready.
      if ready ==ℤ pos 0 then print (codes "GPIO not ready\n") else rest

  -- `if (!device_is_ready(gpioa) || !device_is_ready(gpiob)) { …; return; }`
  unfoldable pub gpio_init_calls : Io S ℤ
  unfolding if_ready configure_pins
  gpio_init_calls = if_ready o.gpioa (if_ready o.gpiob configure_pins)

-- The buttons at pins 6 and 7 of port A and 1 of port B with pull-ups, the speaker at pin 0 of port
-- B, low; the text; and the speaker's thread with a stack of 512 bytes and priority 4, to start at
-- once. The last one is first.
abbrev pub configured : Pins → List Effect
configured o =
    called (
      impl_k_thread_create o.speaker_thread_data o.speaker_stack 512 o.speaker_thread_entry 0 0 0
        (pos 4) 0 (pos 0))
    ∷ printed (codes "Alarm GPIO ready\n")
    ∷ called (impl_gpio_pin_configure o.gpiob 0 o.inactive)
    ∷ called (impl_gpio_pin_configure o.gpiob 1 o.pull_up)
    ∷ called (impl_gpio_pin_configure o.gpioa 7 o.pull_up)
    ∷ called (impl_gpio_pin_configure o.gpioa 6 o.pull_up)
    ∷ []

abbrev pub asked : Pins → Bool → List Effect
asked o ready_a =
    if ready_a
    then called (impl_device_is_ready o.gpiob) ∷ called (impl_device_is_ready o.gpioa) ∷ []
    else called (impl_device_is_ready o.gpioa) ∷ []

-- What the kernel answers of a device.
abbrev pub is_ready : {S : Type 0} → Kernel S → ℕ → S → Bool
is_ready k dev s = not ((device_is_ready k dev s).0 ==ℤ pos 0)

module _ {S : Type 0} (k : Kernel S) (built : k.config_userspace ≡ false) (tr : Traces k)
    (print : Bytes → Io S ℤ)
    (prints : (text : Bytes) (s : S) → tr.effects (print text s).1 ≡ printed text ∷ tr.effects s)
    (o : Pins) where
  configured_pin :
      (port pin flags : ℕ) (earlier : List Effect) (s : S)
      → tr.effects s ≡ earlier
      → tr.effects (gpio_pin_configure k port pin flags s).1
        ≡ called (impl_gpio_pin_configure port pin flags) ∷ earlier
  configured_pin port pin flags earlier s e =
      configure-effects k built tr port pin flags s
      ∙ ap (λ (es : List Effect). called (impl_gpio_pin_configure port pin flags) ∷ es) e

  configure_pins-effects :
      (s : S) → tr.effects (configure_pins k print o s).1 ≡ configured o ++ tr.effects s
  unfolding configure_pins
  configure_pins-effects s =
      create-effects k built tr o.speaker_thread_data o.speaker_stack 512 o.speaker_thread_entry 0 0
        0 (pos 4) 0 (pos 0) _
      ∙ ap
          (λ (es : List Effect).
            called (
              impl_k_thread_create o.speaker_thread_data o.speaker_stack 512 o.speaker_thread_entry
                0 0 0 (pos 4) 0 (pos 0))
            ∷ es)
          (prints (codes "Alarm GPIO ready\n") _
            ∙ ap (λ (es : List Effect). printed (codes "Alarm GPIO ready\n") ∷ es)
                (configured_pin o.gpiob 0 o.inactive _ _ (
                  configured_pin o.gpiob 1 o.pull_up _ _ (
                    configured_pin o.gpioa 7 o.pull_up _ _
                      (configured_pin o.gpioa 6 o.pull_up _ s refl)))))

  not_ready :
      (earlier : List Effect) (s : S)
      → tr.effects s ≡ earlier
      → tr.effects (print (codes "GPIO not ready\n") s).1
        ≡ printed (codes "GPIO not ready\n") ∷ earlier
  not_ready earlier s e =
      prints (codes "GPIO not ready\n") s
      ∙ ap (λ (es : List Effect). printed (codes "GPIO not ready\n") ∷ es) e

  -- Built without CONFIG_USERSPACE, and with a `printk` that adds its text to the trace,
  -- `alarm_gpio_init` asks for the first device and, if that is ready, for the second. If the
  -- alarm's model says that the thread starts, the buttons at pins 6 and 7 of the first port and 1
  -- of the second are set up with the flags for inputs and the speaker's pin 0 with those for an
  -- output, then "Alarm GPIO ready" is printed and the speaker's thread is created with 512 bytes
  -- of stack and priority 4, in this order; else "GPIO not ready" is printed. It does nothing more.
  pub gpio_init-effects :
      (a : Alarm) (s : S)
      → let ready_a = is_ready k o.gpioa s in
        let ready_b = is_ready k o.gpiob (device_is_ready k o.gpioa s).1 in
        tr.effects (gpio_init_calls k print o s).1
        ≡ (if (alarm_gpio_init ready_a ready_b a).1
            then configured o
            else printed (codes "GPIO not ready\n") ∷ [])
          ++ (asked o ready_a ++ tr.effects s)
  unfolding gpio_init_calls alarm_gpio_init
  gpio_init-effects a s =
      let s' = (device_is_ready k o.gpioa s).1 in
      let s'' = (device_is_ready k o.gpiob s').1 in
      let first = is_ready-effects k built tr o.gpioa s in
      let both =
        is_ready-effects k built tr o.gpiob s'
        ∙ ap (λ (es : List Effect). called (impl_device_is_ready o.gpiob) ∷ es) first in
      elim (Bool-cases ((device_is_ready k o.gpioa s).0 ==ℤ pos 0)) [
        | inl e ↦ rw e (not_ready _ s' first)
        | inr e ↦ elim (Bool-cases ((device_is_ready k o.gpiob s').0 ==ℤ pos 0)) [
          | inl e' ↦ rw (e, e') (not_ready _ s'' both)
          | inr e' ↦
              rw (e, e')
                (configure_pins-effects s'' ∙ ap (λ (es : List Effect). configured o ++ es) both)
        ]
      ]
