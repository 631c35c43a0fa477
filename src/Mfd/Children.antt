-- ===== src/Mfd/Children.antt =====
-- The probes of the three children that are named by a register: picocalc_mfd_bms_probe,
-- picocalc_mfd_bkl_probe and picocalc_mfd_led_probe, and picocalc_mfd_led_remove.
use meta_picocalc.Prelude.{
  ℕ, ◌/◌, ◌≡◌, arith, Bool, true, false, Option, none, some, Result, ok, err, enomem, einval,
}
use meta_picocalc.Prelude.Bits.{bit_or}
use meta_picocalc.Kernel.{M, ◌>>=◌, ◌>>◌, change, ask, ask_pointer, is_ok}
use meta_picocalc.Regmap.{Regmap}
use meta_picocalc.Mfd.Backlight.{Props, update_status}
use meta_picocalc.Mfd.Led.{led_get_brightness}

-- what the kernel answers to a child: the memory, the `reg` property, whether the parent has a map
pub record Node : Type 0 where
  pub kzalloc : Bool
  pub reg : Option ℕ
  pub regmap : Bool

abbrev pub or_error : Option ℕ → ℕ → Result ℕ
or_error (some n) e = ok n
or_error none e = err e

-- the part that the three probes begin with: it gives the register
unfoldable pub attach : {S : Type 0} → Node → M S ℕ
attach n = do
  ask_pointer n.kzalloc enomem
  reg ← ask (or_error n.reg einval)
  ask_pointer n.regmap einval
  ask (ok reg)

-- The driver data of the battery is the register that it reads.
unfoldable pub bms_probe : Node → Result (Unit {0}) → M (Option ℕ) (Unit {0})
unfolding attach
bms_probe n register = do reg ← attach n; ask register; change (λ _. some reg)

module _ (R : Regmap) where
  -- the screen's light: the properties of the backlight device, once it is registered, and the bus
  pub record Screen : Type 0 where
    pub bldev : Option Props
    pub drvdata : Option ℕ
    pub bus : R.Bus

  abbrev pub initial : Option ℕ → Props
  initial preset = record {
    brightness = elim preset [ some b ↦ b | none ↦ 255 / 2 ];
    power = 0;
    fb_blank = 0;
    state = 0;
  }

  abbrev pub refreshed : ℕ → Props → Screen → Screen
  refreshed reg p s =
      let r = update_status R reg p s.bus in record s { bldev = some r.0.0; bus = r.0.1 }

  -- `preset` is the property `default-brightness`.
  unfoldable pub bkl_probe : Node → Option ℕ → Result (Unit {0}) → M Screen (Unit {0})
  unfolding attach
  bkl_probe n preset register = do
    reg ← attach n
    ask register
    change (refreshed reg (initial preset))
    change (λ s. record s { drvdata = some reg })

  -- the keyboard's light: the software's copy of the brightness, whether the notifier and the class
  -- device are registered, and the bus
  pub record Keys : Type 0 where
    pub brightness : ℕ
    pub drvdata : Option ℕ
    pub notifier : Bool
    pub registered : Bool
    pub bus : R.Bus

  abbrev pub read_back : ℕ → Keys → Keys
  read_back reg s =
      let r = led_get_brightness R reg s.brightness s.bus in
      record s { brightness = r.0.0; bus = r.0.1 }

  unfoldable pub led_probe : Node → Result (Unit {0}) → M Keys (Unit {0})
  unfolding attach
  led_probe n register = do
    reg ← attach n
    change (read_back reg)
    change (λ s. record s { drvdata = some reg; notifier = true })
    ask register
    change (λ s. record s { registered = true })

  unfoldable pub led_remove : Keys → Keys
  led_remove s = record s { notifier = false }

  abbrev pub dark_screen : R.Bus → Screen
  dark_screen bus = record { bldev = none; drvdata = none; bus = bus }

  -- A probe of the screen's light that returns 0 has written the registered brightness to the
  -- register with bit 7 set, as its only transfer: the one of the device tree, else 127. One that
  -- returns an error has left the bus alone and registered nothing.
  pub bkl_probe_lem :
      (n : Node) (preset : Option ℕ) (register : Result (Unit {0})) (bus : R.Bus)
      → let (s, r) = bkl_probe n preset register (dark_screen bus) in
        (is_ok r ≡ true
          → (reg : ℕ) × (n.reg ≡ some reg)
            × (s ≡ record {
              bldev = some (initial preset);
              drvdata = some reg;
              bus = (R.write bus (bit_or reg 128) (initial preset).brightness).0;
            }))
        × (is_ok r ≡ false → s ≡ dark_screen bus)
  unfolding bkl_probe update_status
  bkl_probe_lem n preset register bus = ground arith

  -- When the class device of the keyboard's light cannot be registered, the probe returns that error
  -- with the notifier registered, in memory that the driver core then frees. When it can, the copy of
  -- the brightness is what the hardware answers, and a remove takes the notifier away.
  pub led_probe_lem :
      (n : Node) (reg : ℕ) (register : Result (Unit {0})) (s : Keys)
      → n.kzalloc ≡ true
      → n.reg ≡ some reg
      → n.regmap ≡ true
      → let (s', r) = led_probe n register s in
        (r ≡ register)
        × (s'.notifier ≡ true)
        × ((led_remove s').notifier ≡ false)
        × ((s'.brightness, s'.bus) ≡ (led_get_brightness R reg s.brightness s.bus).0)
        × (is_ok r ≡ true → s'.registered ≡ true)
  unfolding led_probe led_remove
  led_probe_lem n reg register s k e m = ground (arith, k, e, m)
