-- ===== src/Kbd/Legacy/Sysfs.antt =====
-- The sysfs entries and the restart handler of picocalc_kbd.c. The kernel's `kstrtoint` and the
-- answer to a time in milliseconds (`sprintf`) are parameters.
use meta_picocalc.Prelude.{
  ℕ, ◌+◌, ◌-◌, ◌*◌, ◌/◌, ◌%◌, ◌<◌, ◌≤◌, ◌≡◌, refl, arith, Bool, true, false, ltb, if◌then◌else◌,
  Option, none, some, Result, ok, err, einval,
}
use meta_picocalc.Prelude.Int.{ℤ, pos, negsuc}
use meta_picocalc.Kbd.Legacy.Defs.{Kbd, Smbus, kbd_read_i2c_2u8, kbd_write_i2c_u8}

-- `parse_u8`, of what `kstrtoint` makes of the text
unfoldable pub parse_u8 : Result ℤ → Result ℕ
parse_u8 (err e) = err einval
parse_u8 (ok (negsuc n)) = err einval
parse_u8 (ok (pos n)) = if ltb 0xff n then err einval else ok n

abbrev second_byte : Result (ℕ × ℕ) → Result ℕ
second_byte (ok (_, b)) = ok b
second_byte (err e) = err e

module _ (m : Smbus) where
  open m use {Bus}

  -- REG_ID_BAT is 0x0b; `g_ctx` is none before the probe and after the shutdown.
  unfoldable pub read_battery_percent : Option Kbd → Bus → Bus × Result ℕ
  read_battery_percent none b = (b, err einval)
  read_battery_percent (some c) b = let (b', r) = kbd_read_i2c_2u8 m 0x0b b in (b', second_byte r)

  abbrev written : Option Kbd → ℕ → ℕ → Bus → Bus
  written none reg v b = b
  written (some c) reg v b = (kbd_write_i2c_u8 m b reg v).0

  abbrev stored : Result ℕ → ℕ → Option Kbd → ℕ → Bus → Bus × Result ℕ
  stored (err e) count g reg b = (b, err einval)
  stored (ok v) count g reg b = (written g reg v b, ok count)

  unfoldable pub parse_and_write_i2c_u8 : Result ℤ → ℕ → Option Kbd → ℕ → Bus → Bus × Result ℕ
  unfolding parse_u8
  parse_and_write_i2c_u8 text count g reg b = stored (parse_u8 text) count g reg b

  -- REG_ID_BK2 and REG_ID_BKL
  unfoldable pub keyboard_backlight_store : Result ℤ → ℕ → Option Kbd → Bus → Bus × Result ℕ
  unfolding parse_and_write_i2c_u8
  keyboard_backlight_store text count g b = parse_and_write_i2c_u8 text count g 0x0A b

  unfoldable pub screen_backlight_store : Result ℤ → ℕ → Option Kbd → Bus → Bus × Result ℕ
  unfolding parse_and_write_i2c_u8
  screen_backlight_store text count g b = parse_and_write_i2c_u8 text count g 0x05 b

-- the milliseconds since the last key press, or none for the answer -1
unfoldable pub last_keypress_show : Option Kbd → ℕ → Option ℕ
last_keypress_show none now = none
last_keypress_show (some c) now =
    if ltb c.ctx.last_keypress_at now then some ((now - c.ctx.last_keypress_at) / 1000000) else none

-- The text of a number, `sprintf(buf, "%d\\n", n)`, is the kernel's.
abbrev formatted : {Bus Text : Type 0} → (ℕ → Text) → Bus × Result ℕ → Bus × Result Text
formatted text (b, ok n) = (b, ok (text n))
formatted text (b, err e) = (b, err e)

unfoldable pub battery_percent_show :
    (m : Smbus) {Text : Type 0} (sprintf : ℕ → Text) → Option Kbd → m.Bus → m.Bus × Result Text
unfolding read_battery_percent
battery_percent_show m sprintf g b = formatted sprintf (read_battery_percent m g b)

-- the group id of the files, which nothing changes
abbrev pub sysfs_gid_setting : ℕ
sysfs_gid_setting = 0

abbrev pub params_get_sysfs_gid : ℕ
params_get_sysfs_gid = sysfs_gid_setting

-- It is written through `gid` where that is a pointer.
unfoldable pub get_ownership : Option ℕ → Option ℕ
get_ownership none = none
get_ownership (some gid) = some params_get_sysfs_gid

-- A level below 128 that the firmware gives with bit 7 while charging: the stand-alone driver's
-- battery percentage is that level only when the bit is clear, else 128 more.
pub read_battery_percent_lem :
    (m : Smbus) (c : Kbd) (b b' : m.Bus) (level first : ℕ) (charge : Bool)
    → level < 128
    → first < 256
    → m.read_word_data b 0x0b ≡ (b', ok ((if charge then 128 + level else level) * 256 + first))
    → read_battery_percent m (some c) b ≡ (b', ok (if charge then 128 + level else level))
unfolding read_battery_percent kbd_read_i2c_2u8
read_battery_percent_lem m c b b' level first true h k e =
    let v : ((128 + level) * 256 + first) / 256 % 256 ≡ 128 + level = omega arith in rw (e, v) refl
read_battery_percent_lem m c b b' level first false h k e =
    let v : (level * 256 + first) / 256 % 256 ≡ level = omega arith in rw (e, v) refl

-- What the file shows is that byte as a text; without a device it is EINVAL, and a failed read shows
-- its error.
battery_percent_show_lem :
    (m : Smbus) {Text : Type 0} (sprintf : ℕ → Text) (c : Kbd) (b b' : m.Bus) (level first e : ℕ)
    → level < 256
    → first < 256
    → (m.read_word_data b 0x0b ≡ (b', ok (level * 256 + first))
        → battery_percent_show m sprintf (some c) b ≡ (b', ok (sprintf level)))
      × (m.read_word_data b 0x0b ≡ (b', err e)
          → battery_percent_show m sprintf (some c) b ≡ (b', err e))
      × (battery_percent_show m sprintf none b ≡ (b, err einval))
unfolding battery_percent_show kbd_read_i2c_2u8
battery_percent_show_lem m sprintf c b b' level first e h k = (
  λ q. let v : (level * 256 + first) / 256 % 256 ≡ level = omega arith in rw (q, v) refl,
  λ q. rw q refl,
  refl,
)

-- Writing a light: a text that `kstrtoint` refuses, and a number outside 0 to 255, is refused with
-- EINVAL and without a transfer; any other number goes, as it is, to the register by kbd_write_i2c_u8.
parse_and_write_lem :
    (m : Smbus) (c : Kbd) (b : m.Bus) (n count reg e : ℕ)
    → (n < 256
        → parse_and_write_i2c_u8 m (ok (pos n)) count (some c) reg b
          ≡ ((kbd_write_i2c_u8 m b reg n).0, ok count))
      × (256 ≤ n → parse_and_write_i2c_u8 m (ok (pos n)) count (some c) reg b ≡ (b, err einval))
      × (parse_and_write_i2c_u8 m (ok (negsuc n)) count (some c) reg b ≡ (b, err einval))
      × (parse_and_write_i2c_u8 m (err e) count (some c) reg b ≡ (b, err einval))
unfolding parse_and_write_i2c_u8
parse_and_write_lem m c b n count reg e = (
  λ h. let t : ltb 0xff n ≡ false = ground arith in rw t refl,
  λ h. let t : ltb 0xff n ≡ true = ground arith in rw t refl,
  refl,
  refl,
)

-- SYS_RESTART, SYS_HALT and SYS_POWER_OFF
pub data Action : Type 0 where
  sys_restart sys_halt sys_power_off : Action

-- `picocalc_kbd_reboot_notifier`, with KBD_POWEROFF_SEC of 1
unfoldable pub reboot_notifier : (m : Smbus) → Action → m.Bus → m.Bus
reboot_notifier m sys_restart b = b
reboot_notifier m sys_halt b = (kbd_write_i2c_u8 m b 0x0e 1).0
reboot_notifier m sys_power_off b = (kbd_write_i2c_u8 m b 0x0e 1).0
