-- ===== src/Lcd/Panel.antt =====
-- What the display's controller does with the bytes it is sent, as far as the program relies on
-- it: cells in rows and columns, and a place where the next character goes, which moves on with
-- each character. A row has 40 cells, of which 16 are seen.
use ikt104_eksamen_oppgave.Base.{ℕ, suc, ◌<◌, ◌≡◌, ◌⊎◌, ◌≢◌, ℤ, [], ◌∷◌, Bytes}
use ikt104_eksamen_oppgave.Lcd.{Io, lcd_address, lcd_command, lcd_data, lcd_cleardisplay}

pub record Panel {S : Type 0} (i2c_write : Bytes → ℕ → Io S ℤ) : Type 0 where
  pub cell : S → ℕ → ℕ → ℕ
  pub row : S → ℕ
  pub column : S → ℕ
  pub clear_cell :
      (s : S) (r c : ℕ)
      → cell (i2c_write (lcd_command ∷ lcd_cleardisplay ∷ []) lcd_address s).1 r c ≡ b' '
  pub first_row : (s : S) → row (i2c_write (lcd_command ∷ 0x80 ∷ []) lcd_address s).1 ≡ 0
  pub first_column : (s : S) → column (i2c_write (lcd_command ∷ 0x80 ∷ []) lcd_address s).1 ≡ 0
  pub first_cell :
      (s : S) (r c : ℕ)
      → cell (i2c_write (lcd_command ∷ 0x80 ∷ []) lcd_address s).1 r c ≡ cell s r c
  pub second_row : (s : S) → row (i2c_write (lcd_command ∷ 0xc0 ∷ []) lcd_address s).1 ≡ 1
  pub second_column : (s : S) → column (i2c_write (lcd_command ∷ 0xc0 ∷ []) lcd_address s).1 ≡ 0
  pub second_cell :
      (s : S) (r c : ℕ)
      → cell (i2c_write (lcd_command ∷ 0xc0 ∷ []) lcd_address s).1 r c ≡ cell s r c
  pub char_row :
      (s : S) (byte : ℕ)
      → column s < 40
      → row (i2c_write (lcd_data ∷ byte ∷ []) lcd_address s).1 ≡ row s
  pub char_column :
      (s : S) (byte : ℕ)
      → suc (column s) < 40
      → column (i2c_write (lcd_data ∷ byte ∷ []) lcd_address s).1 ≡ suc (column s)
  pub char_here :
      (s : S) (byte : ℕ)
      → column s < 40
      → cell (i2c_write (lcd_data ∷ byte ∷ []) lcd_address s).1 (row s) (column s) ≡ byte
  pub char_elsewhere :
      (s : S) (byte r c : ℕ)
      → (r ≢ row s) ⊎ (c ≢ column s)
      → cell (i2c_write (lcd_data ∷ byte ∷ []) lcd_address s).1 r c ≡ cell s r c
