-- ===== src/Lcd/Examples.antt =====
-- The colour on a bus on which the second register fails.
use ikt104_eksamen_oppgave.Base.{
  ℕ, ◌≡◌, refl, ℤ, pos, negsuc, List, [], ◌∷◌, ◌==◌, if◌then◌else◌, Bytes,
}
use ikt104_eksamen_oppgave.Lcd.{
  Io, RgbLcd, empty_lcd, colour_registers, init_fields, rgb_lcd_1602_set_rgb, or_else_return,
}
use ikt104_eksamen_oppgave.Lcd.Colour.{writes_in_order, rgb_lcd_1602_set_rgb-writes_in_order}

abbrev code_for : Bytes → ℤ
code_for [] = pos 0
code_for (reg ∷ values) = if reg == 2 then negsuc 4 else pos 0

-- The bus's state is the list of what was written, the last write first.
abbrev failing_bus : Bytes → ℕ → Io (List (Bytes × ℕ)) ℤ
failing_bus bytes address log = (code_for bytes, (bytes, address) ∷ log)

abbrev set_up : RgbLcd
unfolding init_fields empty_lcd
set_up = init_fields 0x2d empty_lcd

-- Blue is not written behind the failure.
stops_at_green :
    rgb_lcd_1602_set_rgb failing_bus set_up 255 0 255 []
    ≡ (negsuc 4, (2 ∷ 0 ∷ [], 0x2d) ∷ (1 ∷ 255 ∷ [], 0x2d) ∷ [])
unfolding rgb_lcd_1602_set_rgb or_else_return init_fields empty_lcd colour_registers
stops_at_green = refl

rgb_lcd_1602_set_rgb-writes_in_order_example :
    rgb_lcd_1602_set_rgb failing_bus set_up 255 0 255 []
    ≡ writes_in_order failing_bus
        ((set_up.reg_red ∷ 255 ∷ [], set_up.rgb_addr)
          ∷ (set_up.reg_green ∷ 0 ∷ [], set_up.rgb_addr)
          ∷ (set_up.reg_blue ∷ 255 ∷ [], set_up.rgb_addr)
          ∷ [])
        []
rgb_lcd_1602_set_rgb-writes_in_order_example =
    rgb_lcd_1602_set_rgb-writes_in_order failing_bus set_up 255 0 255 []
