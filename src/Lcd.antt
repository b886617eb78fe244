-- ===== src/Lcd.antt =====
-- exsamene/src/rgb_lcd.c and rgb_lcd.h: the driver of the display. `i2c_write` is the kernel's: it
-- is an argument, which takes the bytes and the address, and returns its code and the state of the
-- bus. The pauses are left out.
pub mod Panel
pub mod Colour
pub mod Sample
mod Examples
use Prim.Native.Nat.{bit_or}
use ikt104_eksamen_oppgave.Base.{
  ℕ, zero, suc, ◌/◌, ℤ, pos, negsuc, ◌==ℤ◌, Bool, true, false, not, List, [], ◌∷◌, ◌==◌,
  if◌then◌else◌, Bytes,
}

-- The functions that write to the bus, whose state is in `S`.
abbrev pub Io : Type 0 → Type 0 → Type 0
Io S A = S → A × S

infixl 5 ◌>>=◌ ◌>>◌
abbrev pub ◌>>=◌ : {S A B : Type 0} → Io S A → (A → Io S B) → Io S B
◌>>=◌ m f s = let (a, s') = m s in f a s'

abbrev pub ◌>>◌ : {S A B : Type 0} → Io S A → Io S B → Io S B
m >> k = m >>= λ _. k

abbrev pub returns : {S A : Type 0} → A → Io S A
returns a s = (a, s)

abbrev pub lcd_address : ℕ
lcd_address = 0x7c / 2

abbrev pub lcd_command : ℕ
lcd_command = 0x80

abbrev pub lcd_data : ℕ
lcd_data = 0x40

abbrev pub lcd_cleardisplay : ℕ
lcd_cleardisplay = 0x01

abbrev pub lcd_displaycontrol : ℕ
lcd_displaycontrol = 0x08

abbrev pub lcd_functionset : ℕ
lcd_functionset = 0x20

abbrev pub lcd_displayon : ℕ
lcd_displayon = 0x04

abbrev pub lcd_cursoroff : ℕ
lcd_cursoroff = 0x00

abbrev pub lcd_blinkoff : ℕ
lcd_blinkoff = 0x00

abbrev pub lcd_4bitmode : ℕ
lcd_4bitmode = 0x00

abbrev pub lcd_2line : ℕ
lcd_2line = 0x08

abbrev pub lcd_5x8dots : ℕ
lcd_5x8dots = 0x00

abbrev pub reg_mode1 : ℕ
reg_mode1 = 0x00

abbrev pub reg_mode2 : ℕ
reg_mode2 = 0x01

abbrev pub reg_output : ℕ
reg_output = 0x08

-- `dev` is true when the pointer is set.
pub record RgbLcd : Type 0 where
  pub cols : ℕ
  pub rows : ℕ
  pub lcd_addr : ℕ
  pub rgb_addr : ℕ
  pub reg_red : ℕ
  pub reg_green : ℕ
  pub reg_blue : ℕ
  pub control : ℕ
  pub dev : Bool

-- The static variable `lcd` of screen.c at the start.
unfoldable pub empty_lcd : RgbLcd
empty_lcd = record {
  cols = 0;
  rows = 0;
  lcd_addr = 0;
  rgb_addr = 0;
  reg_red = 0;
  reg_green = 0;
  reg_blue = 0;
  control = 0;
  dev = false;
}

-- The choice of the colour registers in `rgb_lcd_1602_init`; other addresses leave them alone.
unfoldable pub colour_registers : ℕ → RgbLcd → RgbLcd
colour_registers rgb_addr lcd =
    if rgb_addr == 0x60
    then record lcd { reg_red = 0x04; reg_green = 0x03; reg_blue = 0x02 }
    else if rgb_addr == 0x60 / 2
    then record lcd { reg_red = 0x06; reg_green = 0x07; reg_blue = 0x08 }
    else if rgb_addr == 0x6b
    then record lcd { reg_red = 0x06; reg_green = 0x05; reg_blue = 0x04 }
    else if rgb_addr == 0x2d
    then record lcd { reg_red = 0x01; reg_green = 0x02; reg_blue = 0x03 }
    else lcd

-- The stores of `rgb_lcd_1602_init`.
unfoldable pub init_fields : ℕ → RgbLcd → RgbLcd
unfolding colour_registers
init_fields rgb_addr lcd = colour_registers rgb_addr (record lcd {
  dev = true;
  cols = 16;
  rows = 2;
  control = bit_or (bit_or lcd_displayon lcd_cursoroff) lcd_blinkoff;
  lcd_addr = lcd_address;
  rgb_addr = rgb_addr;
})

-- The byte that holds row and column.
unfoldable pub cursor_byte : ℕ → ℕ → ℕ
cursor_byte col row = if row == 0 then bit_or col 0x80 else bit_or col 0xc0

module _ {S : Type 0} (i2c_write : Bytes → ℕ → Io S ℤ) where
  unfoldable pub lcd_function_set : RgbLcd → Io S ℤ
  lcd_function_set lcd =
      i2c_write
        (lcd_command
          ∷ bit_or (bit_or (bit_or lcd_functionset lcd_4bitmode) lcd_2line) lcd_5x8dots
          ∷ [])
        lcd.lcd_addr

  unfoldable pub lcd_display_control : RgbLcd → Io S ℤ
  lcd_display_control lcd =
      i2c_write (lcd_command ∷ bit_or lcd_displaycontrol lcd.control ∷ []) lcd.lcd_addr

  unfoldable pub rgb_reg_write : RgbLcd → ℕ → ℕ → Io S ℤ
  rgb_reg_write lcd reg value = i2c_write (reg ∷ value ∷ []) lcd.rgb_addr

  -- The three branches of `rgb_init`.
  unfoldable pub init_mode : RgbLcd → Io S ℤ
  unfolding rgb_reg_write
  init_mode lcd = do
    rgb_reg_write lcd reg_mode1 0
    rgb_reg_write lcd reg_output 0xff
    rgb_reg_write lcd reg_mode2 0x20
    returns (pos 0)

  unfoldable pub init_channels : RgbLcd → Io S ℤ
  unfolding rgb_reg_write
  init_channels lcd = do
    rgb_reg_write lcd 0x01 0x00
    rgb_reg_write lcd 0x02 0xff
    rgb_reg_write lcd 0x04 0x15
    returns (pos 0)

  unfoldable pub init_driver : RgbLcd → Io S ℤ
  unfolding rgb_reg_write
  init_driver lcd = do
    rgb_reg_write lcd 0x2f 0x00
    rgb_reg_write lcd 0x00 0x20
    rgb_reg_write lcd 0x01 0x00
    rgb_reg_write lcd 0x02 0x01
    rgb_reg_write lcd 0x03 4
    returns (pos 0)

  unfoldable pub rgb_init : RgbLcd → Io S ℤ
  unfolding init_mode init_channels init_driver
  rgb_init lcd =
      if lcd.rgb_addr == 0xc0 / 2
      then init_mode lcd
      else if lcd.rgb_addr == 0x60 / 2
      then init_channels lcd
      else if lcd.rgb_addr == 0x6b
      then init_driver lcd
      else returns (pos 0)

  unfoldable pub rgb_lcd_1602_clear : RgbLcd → Io S ℤ
  rgb_lcd_1602_clear lcd = i2c_write (lcd_command ∷ lcd_cleardisplay ∷ []) lcd.lcd_addr

  unfoldable pub rgb_lcd_1602_set_cursor : RgbLcd → ℕ → ℕ → Io S ℤ
  unfolding cursor_byte
  rgb_lcd_1602_set_cursor lcd col row =
      i2c_write (lcd_command ∷ cursor_byte col row ∷ []) lcd.lcd_addr

  unfoldable pub rgb_lcd_1602_write_char : RgbLcd → ℕ → Io S ℤ
  rgb_lcd_1602_write_char lcd byte = i2c_write (lcd_data ∷ byte ∷ []) lcd.lcd_addr

  -- `if (ret) return ret`, before the rest.
  unfoldable pub or_else_return : Io S ℤ → ℤ → Io S ℤ
  or_else_return rest ret = if not (ret ==ℤ pos 0) then returns ret else rest

  unfoldable pub rgb_lcd_1602_set_rgb : RgbLcd → ℕ → ℕ → ℕ → Io S ℤ
  unfolding or_else_return
  rgb_lcd_1602_set_rgb lcd r g b = do
    red ← i2c_write (lcd.reg_red ∷ r ∷ []) lcd.rgb_addr
    or_else_return
        (do
          green ← i2c_write (lcd.reg_green ∷ g ∷ []) lcd.rgb_addr
          or_else_return (i2c_write (lcd.reg_blue ∷ b ∷ []) lcd.rgb_addr) green)
        red

  -- The writes of `rgb_lcd_1602_init`.
  unfoldable pub init_writes : RgbLcd → Io S (ℤ × RgbLcd)
  unfolding lcd_function_set lcd_display_control rgb_lcd_1602_clear rgb_init
  init_writes lcd = do
    lcd_function_set lcd
    lcd_function_set lcd
    lcd_function_set lcd
    lcd_display_control lcd
    rgb_lcd_1602_clear lcd
    rgb_init lcd
    returns (pos 0, lcd)

  -- Given whether the device is ready: the code, which is -ENODEV = -19 if it is not, and the
  -- fields that were stored.
  unfoldable pub rgb_lcd_1602_init : Bool → ℕ → RgbLcd → Io S (ℤ × RgbLcd)
  unfolding init_fields init_writes
  rgb_lcd_1602_init is_ready rgb_addr lcd =
      if not is_ready then returns (negsuc 18, lcd) else init_writes (init_fields rgb_addr lcd)
