-- ===== src/Mfd/Backlight.antt =====
-- The screen's backlight, picocalc_mfd_bkl.c.
use meta_picocalc.Prelude.{
  ℕ, ◌%◌, ◌≡◌, refl, Bool, true, ltb, ◌==◌, if◌then◌else◌, Result, ok, err, ◌||◌, not,
}
use meta_picocalc.Prelude.Bits.{bit_or}
use meta_picocalc.Regmap.{Regmap}

-- the parts of `struct backlight_properties` that the driver uses
pub record Props : Type 0 where
  pub brightness : ℕ
  pub power : ℕ
  pub fb_blank : ℕ
  pub state : ℕ

abbrev fb_blank_unblank : ℕ
fb_blank_unblank = 0

abbrev fb_blank_powerdown : ℕ
fb_blank_powerdown = 4

-- `props.fb_blank != FB_BLANK_UNBLANK || props.state & (BL_CORE_FBBLANK | BL_CORE_SUSPENDED)`: the
-- two flags are bits 1 and 0.
abbrev pub is_blank : Props → Bool
is_blank p = not (p.fb_blank == fb_blank_unblank) || ltb 0 (p.state % 4)

-- the brightness kept after a reading of the two bytes
abbrev pub polled : Result (ℕ × ℕ) → Props → Props
polled (ok (_, b)) p = record p { brightness = b }
polled (err e) p = p

module _ (R : Regmap) (reg : ℕ) where
  unfoldable pub update_status : Props → R.Bus → (Props × R.Bus) × Result (Unit {0})
  update_status p bus =
      if is_blank p
      then (let (bus, r) = R.bulk_read bus reg in
          let (bus, w) = R.write bus (bit_or reg 128) 0 in ((polled r p, bus), w))
      else (let (bus, w) = R.write bus (bit_or reg 128) p.brightness in ((p, bus), w))

  abbrev shown : Props → R.Bus × Result (ℕ × ℕ) → (Props × R.Bus) × Result ℕ
  shown p (bus, err e) = ((p, bus), err e)
  shown p (bus, ok (_, b)) =
      ((record p { brightness = b }, bus), ok (if p.power == fb_blank_powerdown then 0 else b))

  unfoldable pub get_brightness : Props → R.Bus → (Props × R.Bus) × Result ℕ
  get_brightness p bus = shown p (R.bulk_read bus reg)

-- the backlight core's change of the blanking that `update_status` looks at
abbrev pub with_blank : ℕ → ℕ → Props → Props
with_blank fb_blank state p = record p { fb_blank = fb_blank; state = state }

-- When the reading before blanking fails, the light still goes off, and the brightness kept is the
-- one known before.
pub blank_without_reading :
    (R : Regmap) (reg error : ℕ) (p : Props) (bus bus' : R.Bus)
    → is_blank p ≡ true
    → R.bulk_read bus reg ≡ (bus', err error)
    → let w = R.write bus' (bit_or reg 128) 0 in update_status R reg p bus ≡ ((p, w.0), w.1)
unfolding update_status
blank_without_reading R reg error p bus bus' h e = rw (h, e) refl
