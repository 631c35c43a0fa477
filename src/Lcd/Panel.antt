-- ===== src/Lcd/Panel.antt =====
-- The fields of `struct ili9488_par` and `struct fb_info` that the driver's run-time paths use, and
-- what the driver sends to the panel.
use meta_picocalc.Prelude.{
  ℕ, Bool, Option, List, [], ◌∷◌, ◌++◌, ◌≡◌, refl, ◌∙◌, ap, append_assoc, sym,
}

pub data Pin : Type 0 where
  rst dc cs : Pin

-- `gpiod_set_raw_value`, `spi_write`, `mdelay`
pub data Out : Type 0 where
  gpio : Pin → ℕ → Out
  spi : List ℕ → Out
  delay : ℕ → Out

-- `vmem` is `screen_buffer` as its 16-bit pixels; `txbuf` is none where `txbuf.buf` is NULL.
-- `p_3bit_mode` and `p_dither` are the module's parameters.
pub record Par : Type 0 where
  pub vmem : List ℕ
  pub txbuf : Option (List ℕ)
  pub txbuf_len : ℕ
  pub xres : ℕ
  pub yres : ℕ
  pub line_length : ℕ
  pub p_3bit_mode : Bool
  pub p_dither : Bool
  pub dirty_lines_start : ℕ
  pub dirty_lines_end : ℕ

-- the bytes that a list of outputs puts on the bus
abbrev pub payload : List Out → List ℕ
payload [] = []
payload (spi bs ∷ os) = bs ++ payload os
payload (gpio p v ∷ os) = payload os
payload (delay t ∷ os) = payload os

pub payload-append : (xs ys : List Out) → payload (xs ++ ys) ≡ payload xs ++ payload ys
payload-append [] ys = refl
payload-append (spi bs ∷ xs) ys =
    ap (λ t. bs ++ t) (payload-append xs ys) ∙ sym (append_assoc bs (payload xs) (payload ys))
payload-append (gpio p v ∷ xs) ys = payload-append xs ys
payload-append (delay t ∷ xs) ys = payload-append xs ys

-- What the panel sees: each byte with the level of the data/command pin at which it came; `d` is the
-- level before.
abbrev pub tag : ℕ → List ℕ → List (ℕ × ℕ)
tag d [] = []
tag d (b ∷ bs) = (d, b) ∷ tag d bs

abbrev pub wire : ℕ → List Out → List (ℕ × ℕ)
wire d [] = []
wire d (spi bs ∷ os) = tag d bs ++ wire d os
wire d (gpio dc v ∷ os) = wire v os
wire d (gpio _ v ∷ os) = wire d os
wire d (delay t ∷ os) = wire d os
