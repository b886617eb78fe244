-- ===== src/Syscalls/Results.antt =====
-- One lemma for each type of result: by the trap it comes back as it was.
use ikt104_eksamen_oppgave.Base.{
  ℕ, ℤ, pos, pos_part, ◌==ℤ◌, ◌≡◌, refl, ap, ◌∙◌, Bool, true, false, Bool-cases, inl, inr, some,
  List, ◌==◌, if◌then◌else◌,
}
use ikt104_eksamen_oppgave.Lcd.{Io}
use ikt104_eksamen_oppgave.Syscalls.{
  Kernel, Impl, Mrsh, trapped, int_result, pointer_result, void_result, bool_result, without_value,
  as_bool,
}
use ikt104_eksamen_oppgave.Syscalls.Words.{IsInt, int_of_word-word_of_int}
use ikt104_eksamen_oppgave.Syscalls.Table.{k_syscall_table}
use ikt104_eksamen_oppgave.Syscalls.Handlers.{Handles, int_word, pointer_word, void_word, bool_word}
use ikt104_eksamen_oppgave.Syscalls.Call.{reached}

word_of_bool :
    (b : Bool) → (if (if b then 0 else 1) == 0 then pos 0 else pos 1) ≡ (if b then pos 0 else pos 1)
word_of_bool true = refl
word_of_bool false = refl

module _ {S : Type 0} (k : Kernel S) (hk : Handles k) where
  either_way :
      (f : Io S ℤ → Io S ℤ) (c : Impl) (by_trap : Io S ℤ) (s : S)
      → by_trap s ≡ f (k.z_vrfy c) s
      → trapped k by_trap (f (k.z_impl c)) s
        ≡ trapped (reached k) by_trap (f ((reached k).z_impl c)) s
  unfolding trapped
  either_way f c by_trap s e = elim (Bool-cases k.config_userspace) [
    | inl user ↦ elim (Bool-cases k.z_syscall_trap) [
      | inl trap ↦ rw (user, trap) e
      | inr direct ↦ rw (user, direct) refl
    ]
    | inr built ↦ rw built refl
  ]

  module _ (c : Impl) (regs more : List ℕ) (id : ℕ) (handler : Mrsh)
      (e : k_syscall_table id ≡ some handler) where
    abbrev invoked : Io S ℕ
    invoked = k.arch_syscall_invoke regs more id

    pub int_call :
        k.mrsh handler regs more ≡ int_word (k.z_vrfy c)
        → (s : S)
        → let (z, s') = k.z_vrfy c s in
          IsInt z
          → trapped k (int_result invoked) (k.z_impl c) s
            ≡ trapped (reached k) (int_result invoked) ((reached k).z_impl c) s
    unfolding int_result int_word
    int_call law s fits =
        let (z, s') = k.z_vrfy c s in
        either_way (λ m. m) c (int_result invoked) s
          (ap (λ (m : Io S ℕ). int_result m s) (hk.by_table regs more id handler e ∙ law)
            ∙ ap (λ (r : ℤ). (r, s')) (int_of_word-word_of_int z fits))

    pub pointer_call :
        k.mrsh handler regs more ≡ pointer_word (k.z_vrfy c)
        → (s : S)
        → let (z, s') = k.z_vrfy c s in
          pos (pos_part z) ≡ z
          → trapped k (pointer_result invoked) (k.z_impl c) s
            ≡ trapped (reached k) (pointer_result invoked) ((reached k).z_impl c) s
    unfolding pointer_result pointer_word
    pointer_call law s fits =
        let (z, s') = k.z_vrfy c s in
        either_way (λ m. m) c (pointer_result invoked) s
          (ap (λ (m : Io S ℕ). pointer_result m s) (hk.by_table regs more id handler e ∙ law)
            ∙ ap (λ (r : ℤ). (r, s')) fits)

    pub void_call :
        k.mrsh handler regs more ≡ void_word (k.z_vrfy c)
        → (s : S)
        → trapped k (void_result invoked) (without_value (k.z_impl c)) s
          ≡ trapped (reached k) (void_result invoked) (without_value ((reached k).z_impl c)) s
    unfolding void_result void_word without_value
    void_call law s =
        either_way without_value c (void_result invoked) s
          (ap (λ (m : Io S ℕ). void_result m s) (hk.by_table regs more id handler e ∙ law))

    pub bool_call :
        k.mrsh handler regs more ≡ bool_word (k.z_vrfy c)
        → (s : S)
        → trapped k (bool_result invoked) (as_bool (k.z_impl c)) s
          ≡ trapped (reached k) (bool_result invoked) (as_bool ((reached k).z_impl c)) s
    unfolding bool_result bool_word as_bool
    bool_call law s =
        let (z, s') = k.z_vrfy c s in
        either_way as_bool c (bool_result invoked) s (
          ap (λ (m : Io S ℕ). bool_result m s) (hk.by_table regs more id handler e ∙ law)
          ∙ ap (λ (r : ℤ). (r, s')) (word_of_bool (z ==ℤ pos 0)))
