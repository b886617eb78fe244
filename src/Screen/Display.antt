-- ===== src/Screen/Display.antt =====
-- What `lcd_show` leaves on the display.
use ikt104_eksamen_oppgave.Base.{
  ℕ, zero, suc, ◌+◌, ◌<◌, ◌≡◌, refl, sym, ap, ◌∙◌, ◌≢◌, ◌⊎◌, inl, inr, ℤ, [], ◌∷◌, Bytes, get_or,
  take, arith,
}
use ikt104_eksamen_oppgave.Lcd.{
  Io, lcd_address, RgbLcd, rgb_lcd_1602_write_char, rgb_lcd_1602_clear, rgb_lcd_1602_set_cursor,
  cursor_byte,
}
use ikt104_eksamen_oppgave.Lcd.Panel.{Panel}
use ikt104_eksamen_oppgave.Screen.{Lines}
use ikt104_eksamen_oppgave.Screen.Draw.{write_chars, lcd_write_string, lcd_show}

module _ {S : Type 0} {i2c_write : Bytes → ℕ → Io S ℤ} (p : Panel i2c_write) (lcd : RgbLcd)
    (here : lcd.lcd_addr ≡ lcd_address) where
  open p use {cell, row, column}

  -- The state of the display once the text is written.
  abbrev after : ℕ → Bytes → S → S
  after room text s = (write_chars i2c_write lcd room text s).1

  abbrev typed : ℕ → S → S
  typed c s = (rgb_lcd_1602_write_char i2c_write lcd c s).1

  typed-row : (c : ℕ) (s : S) → column s < 40 → row (typed c s) ≡ row s
  unfolding rgb_lcd_1602_write_char
  typed-row c s h = rw here (p.char_row s c h)

  typed-column : (c : ℕ) (s : S) → suc (column s) < 40 → column (typed c s) ≡ suc (column s)
  unfolding rgb_lcd_1602_write_char
  typed-column c s h = rw here (p.char_column s c h)

  typed-here : (c : ℕ) (s : S) → column s < 40 → cell (typed c s) (row s) (column s) ≡ c
  unfolding rgb_lcd_1602_write_char
  typed-here c s h = rw here (p.char_here s c h)

  typed-elsewhere :
      (b : ℕ) (s : S) (r c : ℕ) → (r ≢ row s) ⊎ (c ≢ column s) → cell (typed b s) r c ≡ cell s r c
  unfolding rgb_lcd_1602_write_char
  typed-elsewhere b s r c h = rw here (p.char_elsewhere s b r c h)

  after-other_row :
      (room : ℕ) (text : Bytes) (s : S) (r c : ℕ)
      → column s + room < 40
      → r ≢ row s
      → cell (after room text s) r c ≡ cell s r c
  unfolding write_chars
  after-other_row zero text s r c h other = refl
  after-other_row (suc room) [] s r c h other = refl
  after-other_row (suc room) (b ∷ text) s r c h other =
      let down = typed-row b s (omega arith) in
      let on = typed-column b s (omega arith) in
      after-other_row room text (typed b s) r c (omega arith) (λ e. other (e ∙ down))
      ∙ typed-elsewhere b s r c (inl other)

  after-left :
      (room : ℕ) (text : Bytes) (s : S) (r c : ℕ)
      → column s + room < 40
      → c < column s
      → cell (after room text s) r c ≡ cell s r c
  unfolding write_chars
  after-left zero text s r c h left = refl
  after-left (suc room) [] s r c h left = refl
  after-left (suc room) (b ∷ text) s r c h left =
      let on = typed-column b s (omega arith) in
      after-left room text (typed b s) r c (omega arith) (omega arith)
      ∙ typed-elsewhere b s r c (inr (λ e. omega arith))

  -- From the place of the cursor on stands the text, as far as there is room.
  after-at :
      (room : ℕ) (text : Bytes) (s : S) (r c i : ℕ)
      → column s + room < 40
      → r ≡ row s
      → c ≡ column s + i
      → cell (after room text s) r c ≡ get_or (take room text) i (cell s r c)
  unfolding write_chars
  after-at zero text s r c i h e at = refl
  after-at (suc room) [] s r c i h e at = refl
  after-at (suc room) (b ∷ text) s r c zero h e at =
      let on = typed-column b s (omega arith) in
      let col : c ≡ column s = omega arith in
      after-left room text (typed b s) r c (omega arith) (omega arith)
      ∙ (λ i. cell (typed b s) (e i) (col i))
      ∙ typed-here b s (omega arith)
  after-at (suc room) (b ∷ text) s r c (suc i) h e at =
      let down = typed-row b s (omega arith) in
      let on = typed-column b s (omega arith) in
      after-at room text (typed b s) r c i (omega arith) (e ∙ sym down) (omega arith)
      ∙ ap (get_or (take room text) i) (typed-elsewhere b s r c (inr (λ e. omega arith)))

  -- The steps of `lcd_show`, and what each leaves in the cells.
  abbrev cleared : S → S
  cleared s = (rgb_lcd_1602_clear i2c_write lcd s).1

  abbrev moved : ℕ → S → S
  moved r s = (rgb_lcd_1602_set_cursor i2c_write lcd 0 r s).1

  cleared-cell : (s : S) (r c : ℕ) → cell (cleared s) r c ≡ b' '
  unfolding rgb_lcd_1602_clear
  cleared-cell s r c = rw here (p.clear_cell s r c)

  first-row : (s : S) → row (moved 0 s) ≡ 0
  unfolding rgb_lcd_1602_set_cursor cursor_byte
  first-row s = rw here (p.first_row s)

  first-column : (s : S) → column (moved 0 s) ≡ 0
  unfolding rgb_lcd_1602_set_cursor cursor_byte
  first-column s = rw here (p.first_column s)

  first-cell : (s : S) (r c : ℕ) → cell (moved 0 s) r c ≡ cell s r c
  unfolding rgb_lcd_1602_set_cursor cursor_byte
  first-cell s r c = rw here (p.first_cell s r c)

  second-row : (s : S) → row (moved 1 s) ≡ 1
  unfolding rgb_lcd_1602_set_cursor cursor_byte
  second-row s = rw here (p.second_row s)

  second-column : (s : S) → column (moved 1 s) ≡ 0
  unfolding rgb_lcd_1602_set_cursor cursor_byte
  second-column s = rw here (p.second_column s)

  second-cell : (s : S) (r c : ℕ) → cell (moved 1 s) r c ≡ cell s r c
  unfolding rgb_lcd_1602_set_cursor cursor_byte
  second-cell s r c = rw here (p.second_cell s r c)

  -- The two rows, from the state in which the display was cleared.
  module _ (line1 line2 : Bytes) (s : S) where
    abbrev top : S
    top = after 16 line1 (moved 0 (cleared s))

    abbrev both : S
    both = after 16 line2 (moved 1 top)

    top-first : (c : ℕ) → cell top 0 c ≡ get_or (take 16 line1) c b' '
    top-first c =
        let left = first-column (cleared s) in
        after-at 16 line1 (moved 0 (cleared s)) 0 c c (omega arith) (sym (first-row (cleared s)))
          (omega arith)
        ∙ ap (get_or (take 16 line1) c) (first-cell (cleared s) 0 c ∙ cleared-cell s 0 c)

    top-second : (c : ℕ) → cell top 1 c ≡ b' '
    top-second c =
        let left = first-column (cleared s) in
        let up = first-row (cleared s) in
        after-other_row 16 line1 (moved 0 (cleared s)) 1 c (omega arith) (λ e. omega arith)
        ∙ first-cell (cleared s) 1 c
        ∙ cleared-cell s 1 c

    both-first : (c : ℕ) → cell both 0 c ≡ get_or (take 16 line1) c b' '
    both-first c =
        let left = second-column top in
        let down = second-row top in
        after-other_row 16 line2 (moved 1 top) 0 c (omega arith) (λ e. omega arith)
        ∙ second-cell top 0 c
        ∙ top-first c

    both-second : (c : ℕ) → cell both 1 c ≡ get_or (take 16 line2) c b' '
    both-second c =
        let left = second-column top in
        after-at 16 line2 (moved 1 top) 1 c c (omega arith) (sym (second-row top)) (omega arith)
        ∙ ap (get_or (take 16 line2) c) (second-cell top 1 c ∙ top-second c)

-- The display shows a line in a row: its first 16 characters, and blanks behind them.
unfoldable pub Shows :
    {S : Type 0} {i2c_write : Bytes → ℕ → Io S ℤ} → Panel i2c_write → S → Lines → Type 0
Shows p s (line1, line2) =
    (c : ℕ)
    → c < 40
    → (p.cell s 0 c ≡ get_or (take 16 line1) c b' ')
      × (p.cell s 1 c ≡ get_or (take 16 line2) c b' ')

-- On a panel that works as `Panel` says, at the address that the driver uses, `lcd_show` leaves
-- the first 16 characters of its two lines at the left of the two rows and blanks behind them,
-- whatever was shown before.
pub lcd_show-Shows :
    {S : Type 0} {i2c_write : Bytes → ℕ → Io S ℤ} (p : Panel i2c_write) (lcd : RgbLcd)
    (lines : Lines) (s : S)
    → lcd.lcd_addr ≡ lcd_address
    → Shows p (lcd_show i2c_write lcd lines s).1 lines
unfolding Shows lcd_show lcd_write_string
lcd_show-Shows p lcd (line1, line2) s here c h =
    (both-first p lcd here line1 line2 s c, both-second p lcd here line1 line2 s c)
