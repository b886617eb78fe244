-- ===== src/Lcd/Sample.antt =====
-- A panel that behaves as `Panel` says: the cells as a function, and the place of the cursor.
use ikt104_eksamen_oppgave.Base.{
  ℕ, suc, ◌≡◌, ◌≢◌, ◌⊎◌, refl, arith, ℤ, pos, ◌&&◌, [], ◌∷◌, leb, ◌-◌, ◌==◌, if◌then◌else◌, Bytes,
}
use ikt104_eksamen_oppgave.Lcd.{Io, lcd_address, lcd_command, lcd_data, lcd_cleardisplay}
use ikt104_eksamen_oppgave.Lcd.Panel.{Panel}

pub record Glass : Type 0 where
  pub cells : ℕ → ℕ → ℕ
  pub row : ℕ
  pub column : ℕ

abbrev command : ℕ → Glass → Glass
command byte s =
    if byte == lcd_cleardisplay
    then record { cells = λ r c. b' '; row = 0; column = 0 }
    else if leb 0xc0 byte
    then record s { row = 1; column = byte - 0xc0 }
    else if leb 0x80 byte
    then record s { row = 0; column = byte - 0x80 }
    else s

abbrev typed : ℕ → Glass → Glass
typed byte s = record {
  cells = λ r c. if r == s.row && c == s.column then byte else s.cells r c;
  row = s.row;
  column = suc s.column;
}

abbrev glass_write : Bytes → Glass → Glass
glass_write (kind ∷ byte ∷ []) s =
    if kind == lcd_command then command byte s else if kind == lcd_data then typed byte s else s
glass_write _ s = s

abbrev pub glass_bus : Bytes → ℕ → Io Glass ℤ
glass_bus bytes address s = (pos 0, if address == lcd_address then glass_write bytes s else s)

abbrev pub blank_glass : Glass
blank_glass = record { cells = λ r c. b'?'; row = 0; column = 0 }

pub write_here : (s : Glass) (byte : ℕ) → (typed byte s).cells s.row s.column ≡ byte
write_here s byte = ground arith

pub write_elsewhere :
    (s : Glass) (byte r c : ℕ)
    → (r ≢ s.row) ⊎ (c ≢ s.column)
    → (typed byte s).cells r c ≡ s.cells r c
write_elsewhere s byte r c h = ground arith

abbrev pub glass_panel : Panel glass_bus
glass_panel = record {
  cell = λ s. s.cells;
  row = λ s. s.row;
  column = λ s. s.column;
  clear_cell = λ s r c. refl;
  first_row = λ s. refl;
  first_column = λ s. refl;
  first_cell = λ s r c. refl;
  second_row = λ s. refl;
  second_column = λ s. refl;
  second_cell = λ s r c. refl;
  char_row = λ s byte h. refl;
  char_column = λ s byte h. refl;
  char_here = λ s byte h. write_here s byte;
  char_elsewhere = write_elsewhere;
}
