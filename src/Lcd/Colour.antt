-- ===== src/Lcd/Colour.antt =====
-- `rgb_lcd_1602_set_rgb` against a list of writes.
use ikt104_eksamen_oppgave.Base.{
  ℕ, ◌≡◌, refl, arith, ℤ, pos, negsuc, ◌==ℤ◌, true, Bool-cases, inl, inr, List, [], ◌∷◌,
  if◌then◌else◌, Bytes,
}
use ikt104_eksamen_oppgave.Lcd.{Io, RgbLcd, rgb_lcd_1602_set_rgb, or_else_return}

module _ {S : Type 0} (i2c_write : Bytes → ℕ → Io S ℤ) where
  -- The writes in their order, up to the first that fails; its code, or 0.
  unfoldable pub writes_in_order : List (Bytes × ℕ) → Io S ℤ
  writes_in_order [] s = (pos 0, s)
  writes_in_order ((bytes, address) ∷ writes) s =
      let (code, s') = i2c_write bytes address s in
      let rest = writes_in_order writes s' in if code ==ℤ pos 0 then rest else (code, s')

  zero_of_test : (z : ℤ) → (z ==ℤ pos 0) ≡ true → z ≡ pos 0
  zero_of_test (pos n) h = ground arith
  zero_of_test (negsuc n) h = ground arith

  -- What `if (ret) return ret` makes of a write's outcome, where the rest agrees.
  or_else_return-writes :
      (rest rest' : Io S ℤ) (o : ℤ × S)
      → ((s : S) → rest s ≡ rest' s)
      → or_else_return i2c_write rest o.0 o.1 ≡ (if o.0 ==ℤ pos 0 then rest' o.1 else o)
  unfolding or_else_return
  or_else_return-writes rest rest' (code, s) same = elim (Bool-cases (code ==ℤ pos 0)) [
    | inl e ↦ rw e (same s)
    | inr e ↦ rw e refl
  ]

  last_write : (o : ℤ × S) → o ≡ (if o.0 ==ℤ pos 0 then (pos 0, o.1) else o)
  last_write (code, s) = elim (Bool-cases (code ==ℤ pos 0)) [
    | inl e ↦ rw e (λ i. (zero_of_test code e i, s))
    | inr e ↦ rw e refl
  ]

-- On every bus, `rgb_lcd_1602_set_rgb` writes red, green and blue to their registers in that order,
-- stops behind the first write that fails, and returns that write's code, or 0 if none fails.
pub rgb_lcd_1602_set_rgb-writes_in_order :
    {S : Type 0} (i2c_write : Bytes → ℕ → Io S ℤ) (lcd : RgbLcd) (r g b : ℕ) (s : S)
    → rgb_lcd_1602_set_rgb i2c_write lcd r g b s
      ≡ writes_in_order i2c_write
          ((lcd.reg_red ∷ r ∷ [], lcd.rgb_addr)
            ∷ (lcd.reg_green ∷ g ∷ [], lcd.rgb_addr)
            ∷ (lcd.reg_blue ∷ b ∷ [], lcd.rgb_addr)
            ∷ [])
          s
unfolding rgb_lcd_1602_set_rgb writes_in_order
rgb_lcd_1602_set_rgb-writes_in_order i2c_write lcd r g b s =
    or_else_return-writes i2c_write _ _ (i2c_write (lcd.reg_red ∷ r ∷ []) lcd.rgb_addr s) (λ s₁.
      or_else_return-writes i2c_write _ _ (i2c_write (lcd.reg_green ∷ g ∷ []) lcd.rgb_addr s₁)
        (λ s₂. last_write i2c_write (i2c_write (lcd.reg_blue ∷ b ∷ []) lcd.rgb_addr s₂)))
