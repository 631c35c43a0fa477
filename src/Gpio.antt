-- ===== src/Gpio.antt =====
-- Requesting one pin by name: `picocalc_request_one_gpio` of
-- picocalc_snd-softpwm/picocalc_snd_softpwm.c and `ili9488_request_one_gpio` of
-- picocalc_lcd/ili9488_fb.c, which are the same code but for a debug message.
use meta_picocalc.Prelude.{ℕ, Bool, ◌==◌, if◌then◌else◌, Option, none, some, Result, ok, err}

-- what the device tree and the GPIO core answer for the name
pub record Wiring : Type 0 where
  pub property : Bool
  pub named : Result ℕ
  pub active_low : Bool
  pub request : Result (Unit {0})

abbrev pub enoent : ℕ
enoent = 2

-- a pin that the driver owns, with the level that it was requested at
pub record Line : Type 0 where
  pub number : ℕ
  pub level : ℕ

abbrev requested : ℕ → Bool → Result (Unit {0}) → Result (Option Line)
requested n low (err e) = err e
requested n low (ok _) = ok (some (record { number = n; level = if low then 0 else 1 }))

abbrev found : Wiring → Result ℕ → Result (Option Line)
found w (err e) = if e == enoent then ok none else err e
found w (ok n) = requested n w.active_low w.request

-- The descriptor that `*gpiop` gets, none where it is left as it is, or the error.
unfoldable pub request_one_gpio : Wiring → Result (Option Line)
request_one_gpio w = if w.property then found w w.named else ok none
