-- ===== src/Lcd/Command.antt =====
-- Commands to the panel controller: registers, reset, the start-up sequence, blanking and the address
-- window.
use meta_picocalc.Prelude.{
  ap, append-nil, ℕ, zero, suc, ◌*◌, ◌/◌, ◌%◌, ◌<◌, ◌≡◌, refl, arith, Bool, List, [], ◌∷◌, ◌++◌,
  map, if◌then◌else◌, ◌^◌,
}
use meta_picocalc.Lcd.Panel.{tag, rst, dc, cs, Out, gpio, spi, delay, wire}

abbrev pub u8 : ℕ → ℕ
u8 n = n % 256

abbrev pub concat : List (List Out) → List Out
concat [] = []
concat (os ∷ oss) = os ++ concat oss

unfoldable pub write_buf_dc : List ℕ → ℕ → List Out
write_buf_dc buf level = gpio dc level ∷ spi buf ∷ []

-- The command byte goes with the pin low, the parameters, if any, with the pin high.
unfoldable pub write_reg : ℕ → List ℕ → List Out
unfolding write_buf_dc
write_reg cmd [] = write_buf_dc (u8 cmd ∷ []) 0
write_reg cmd (p ∷ ps) = write_buf_dc (u8 cmd ∷ []) 0 ++ write_buf_dc (map u8 (p ∷ ps)) 1

unfoldable pub reset : List Out
reset = gpio rst 1 ∷ delay 10 ∷ gpio rst 0 ∷ delay 10 ∷ gpio rst 1 ∷ delay 10 ∷ []

unfoldable pub init_display : Bool → List Out
unfolding reset write_reg
init_display p_3bit_mode = concat (
    reset
    ∷ (gpio cs 0 ∷ [])
    ∷ write_reg 0xE0 (
        0x00 ∷ 0x03 ∷ 0x09 ∷ 0x08 ∷ 0x16 ∷ 0x0A ∷ 0x3F ∷ 0x78 ∷ 0x4C ∷ 0x09 ∷ 0x0A ∷ 0x08 ∷ 0x16
        ∷ 0x1A ∷ 0x0F ∷ [])
    ∷ write_reg 0xE1 (
        0x00 ∷ 0x16 ∷ 0x19 ∷ 0x03 ∷ 0x0F ∷ 0x05 ∷ 0x32 ∷ 0x45 ∷ 0x46 ∷ 0x04 ∷ 0x0E ∷ 0x0D ∷ 0x35
        ∷ 0x37 ∷ 0x0F ∷ [])
    ∷ write_reg 0xC0 (0x17 ∷ 0x15 ∷ [])
    ∷ write_reg 0xC1 (0x41 ∷ [])
    ∷ write_reg 0xC5 (0x00 ∷ 0x12 ∷ 0x80 ∷ [])
    ∷ write_reg 0x36 (0x48 ∷ [])
    ∷ write_reg 0x3A ((if p_3bit_mode then 0x22 else 0x55) ∷ [])
    ∷ write_reg 0xB0 (0x00 ∷ [])
    ∷ write_reg 0xB1 (0xD0 ∷ 0x11 ∷ [])
    ∷ write_reg 0x21 []
    ∷ write_reg 0xB4 (0x02 ∷ [])
    ∷ write_reg 0xB6 (0x02 ∷ 0x02 ∷ 0x3B ∷ [])
    ∷ write_reg 0xB7 (0xC6 ∷ [])
    ∷ write_reg 0xE9 (0x00 ∷ [])
    ∷ write_reg 0xF7 (0xA9 ∷ 0x51 ∷ 0x2C ∷ 0x82 ∷ [])
    ∷ write_reg 0x11 []
    ∷ (delay 120 ∷ [])
    ∷ write_reg 0x29 []
    ∷ (delay 120 ∷ gpio cs 1 ∷ [])
    ∷ [])

-- MIPI_DCS_SET_DISPLAY_OFF is 0x28 and MIPI_DCS_SET_DISPLAY_ON 0x29.
unfoldable pub blank : Bool → List Out
unfolding write_reg
blank on = gpio cs 0 ∷ (write_reg (if on then 0x28 else 0x29) [] ++ (gpio cs 1 ∷ []))

unfoldable pub set_addr_win : ℕ → ℕ → ℕ → ℕ → List Out
unfolding write_reg
set_addr_win xs ys xe ye =
    write_reg 0x2A (xs / 256 ∷ xs % 256 ∷ xe / 256 ∷ xe % 256 ∷ [])
    ++ (write_reg 0x2B (ys / 256 ∷ ys % 256 ∷ ye / 256 ∷ ye % 256 ∷ []) ++ write_reg 0x2C [])

-- `n` SPI transfers of the same bytes
abbrev repeat_spi : ℕ → List ℕ → List Out
repeat_spi zero bs = []
repeat_spi (suc n) bs = spi bs ∷ repeat_spi n bs

-- `ili9488_clear`: one byte for two pixels in 3-bit mode, else two for one
unfoldable pub clear : Bool → ℕ → ℕ → List Out
unfolding set_addr_win
clear p_3bit_mode xres yres = concat (
    (gpio cs 0 ∷ [])
    ∷ set_addr_win 0 0 xres yres
    ∷ (gpio dc 1 ∷ [])
    ∷ (if p_3bit_mode
        then repeat_spi (xres / 2 * yres) (0 ∷ [])
        else repeat_spi (xres * yres) (0 ∷ 0 ∷ []))
    ∷ (gpio cs 1 ∷ [])
    ∷ [])

-- a column or page address parameter: two bytes, high byte first, with the pin high
abbrev pub address : ℕ → List (ℕ × ℕ)
address a = (1, a / 256) ∷ (1, a % 256) ∷ []

-- For coordinates below 65536 the panel receives column address set with start and end column, page
-- address set with start and end line, then memory write, whatever the pin's level before.
pub wire-set_addr_win :
    (d xs ys xe ye : ℕ)
    → xs < 2 ^ 16
    → ys < 2 ^ 16
    → xe < 2 ^ 16
    → ye < 2 ^ 16
    → wire d (set_addr_win xs ys xe ye)
      ≡ (0, 0x2A)
        ∷ (address xs
            ++ (address xe ++ ((0, 0x2B) ∷ (address ys ++ (address ye ++ ((0, 0x2C) ∷ []))))))
unfolding set_addr_win
wire-set_addr_win d xs ys xe ye a b c e = ground arith

-- Any register write reaches the panel as the command byte with the pin low, then the parameter
-- bytes in order with the pin high.
pub wire-write_reg :
    (d cmd : ℕ) (ps : List ℕ) → wire d (write_reg cmd ps) ≡ (0, u8 cmd) ∷ tag 1 (map u8 ps)
unfolding write_reg
wire-write_reg d cmd [] = refl
wire-write_reg d cmd (p ∷ ps) =
    ap (λ t. (0, u8 cmd) ∷ (1, u8 p) ∷ t) (append-nil (tag 1 (map u8 ps)))
