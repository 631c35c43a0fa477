-- ===== src/Mfd/Led.antt =====
-- The keyboard's backlight, picocalc_mfd_led.c.
use meta_picocalc.Prelude.{ℕ, suc, arith, ◌≡◌, refl, false, ◌==◌, if◌then◌else◌, Result, ok, err}
use meta_picocalc.Prelude.Bits.{bit_or}
use meta_picocalc.Regmap.{Regmap}

pub nonzero : (n : ℕ) → (suc n == 0) ≡ false
nonzero n = ground arith

-- `led_dev.brightness`, the software's copy
abbrev pub cached : Result (ℕ × ℕ) → ℕ → ℕ
cached (ok (_, b)) old = b
cached (err e) old = old

pub data Event : Type 0 where
  blank_event : ℕ → Event
  other_event : Event

abbrev answer : Result (ℕ × ℕ) → Result ℕ
answer (ok (_, b)) = ok b
answer (err e) = err e

module _ (R : Regmap) (reg : ℕ) where
  unfoldable pub led_get_brightness : ℕ → R.Bus → (ℕ × R.Bus) × Result ℕ
  led_get_brightness brightness bus =
      let (bus, r) = R.bulk_read bus reg in ((cached r brightness, bus), answer r)

  -- The notifier always returns NOTIFY_OK.
  unfoldable pub fb_notifier : Event → ℕ → R.Bus → ℕ × R.Bus
  fb_notifier other_event brightness bus = (brightness, bus)
  fb_notifier (blank_event blank) brightness bus =
      if blank == 0
      then (brightness, bus)
      else (let (bus, r) = R.bulk_read bus reg in (cached r brightness, bus))

  unfoldable pub brightness_set : ℕ → R.Bus → R.Bus
  brightness_set brightness bus = (R.write bus (bit_or reg 128) brightness).0

-- Blanking refreshes the copy just as asking for the brightness does; unblanking, and any other
-- event of the frame buffer, touches neither the copy nor the bus.
pub fb_notifier_lem :
    (R : Regmap) (reg blank brightness : ℕ) (bus : R.Bus)
    → (fb_notifier R reg (blank_event (suc blank)) brightness bus
        ≡ (led_get_brightness R reg brightness bus).0)
      × (fb_notifier R reg (blank_event 0) brightness bus ≡ (brightness, bus))
      × (fb_notifier R reg other_event brightness bus ≡ (brightness, bus))
unfolding fb_notifier led_get_brightness
fb_notifier_lem R reg blank brightness bus = (rw (nonzero blank) refl, refl, refl)
