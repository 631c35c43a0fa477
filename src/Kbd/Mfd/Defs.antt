-- ===== src/Kbd/Mfd/Defs.antt =====
-- `key_report_event`, `input_workqueue_handler` and the helpers that they call.
use meta_picocalc.Prelude.{
  ℕ, ◌%◌, Bool, List, [], ◌∷◌, ◌++◌, ◌==◌, ◌||◌, not, if◌then◌else◌, Option, none, some, Result, ok,
  err,
}
use Prim.Native.Nat.{bit_or}
use meta_picocalc.Regmap.{Regmap}
use meta_picocalc.Kbd.Dirs.{left, right, up, down}
use meta_picocalc.Kbd.Fifo.{
  Item, Ctx, key_state_pressed, key_state_hold, key_state_released, read_fifo,
}
use meta_picocalc.Kbd.Batch.{for_items}
use meta_picocalc.Kbd.Pointer.{Report, msc_scan, key, sync, arrow, is_pressed, move_pointer}

-- codes of the input core's ABI that the functions name
abbrev pub key_unknown : ℕ
key_unknown = 240

abbrev pub btn_left : ℕ
btn_left = 272

abbrev pub btn_right : ℕ
btn_right = 273

-- the helpers over regmap
module _ (m : Regmap) where
  open m use {Bus}

  -- `*dst = val` cuts the value to a byte
  unfoldable pub kbd_read_i2c_u8 : Bus → ℕ → Bus × Result ℕ
  kbd_read_i2c_u8 b reg =
      let (b', r) = m.read b reg in (b', elim r [ ok v ↦ ok (v % 256) | err e ↦ err e ])

  -- PICOCALC_WRITE_MASK is bit 7
  unfoldable pub kbd_write_i2c_u8 : Bus → ℕ → ℕ → Bus × Result (Unit {0})
  kbd_write_i2c_u8 b reg src = m.write b (bit_or reg 128) src

  unfoldable pub kbd_read_i2c_2u8 : ℕ → Bus → Bus × Result (ℕ × ℕ)
  kbd_read_i2c_2u8 reg b = m.bulk_read b reg

-- The switch of mouse mode; `none` is its default, after which the event is handled as a key.
unfoldable pub mouse_key : ℕ → Item → Ctx → Option (Ctx × List Report)
mouse_key now ev c =
    if ev.scancode == 0xb7
    then some (arrow right now ev c, [])
    else if ev.scancode == 0xb4
    then some (arrow left now ev c, [])
    else if ev.scancode == 0xb6
    then some (arrow down now ev c, [])
    else if ev.scancode == 0xb5
    then some (arrow up now ev c, [])
    else if ev.scancode == b']'
    then some (c, key btn_left (is_pressed ev) ∷ [])
    else if ev.scancode == b'['
    then some (c, key btn_right (is_pressed ev) ∷ [])
    else none

-- From `input_event` on. `keycodes` is the scancode table, which user space may change through the
-- input core; an entry is an `unsigned short`, and the variable that takes it a byte.
unfoldable pub post_key : (ℕ → ℕ) → ℕ → Item → Ctx → Ctx × List Report
post_key keycodes now ev c =
    let keycode = keycodes ev.scancode % 256 in
    let scan = msc_scan ev.scancode in
    let c' = record c { last_keypress_at = now } in
    if keycode == 0
    then (c, scan ∷ [])
    else if keycode == key_unknown
    then (c, scan ∷ [])
    else if ev.state == key_state_hold
    then (c', scan ∷ [])
    else (c', scan ∷ key keycode (is_pressed ev) ∷ [])

abbrev pub is_handled : Item → Bool
is_handled ev =
    ev.state == key_state_pressed || (ev.state == key_state_released || ev.state == key_state_hold)

unfoldable pub key_report_event : (ℕ → ℕ) → ℕ → Item → Ctx → Ctx × List Report
unfolding mouse_key post_key
key_report_event keycodes now ev c =
    if not (is_handled ev)
    then (c, [])
    else if ev.scancode == 0xA3
    then (if is_pressed ev then record c { mouse_mode = not c.mouse_mode } else c, [])
    else if c.mouse_mode
    then elim (mouse_key now ev c) [ some r ↦ r | none ↦ post_key keycodes now ev c ]
    else post_key keycodes now ev c

-- The loop over `key_fifo_data`, with `n` rounds left at index `idx`. `clock` gives the boot time
-- that each event would read.
unfoldable pub process : (ℕ → ℕ) → (ℕ → ℕ) → ℕ → ℕ → Ctx → Ctx × List Report
process keycodes clock = for_items (λ i. key_report_event keycodes (clock i)) (λ c. c.key_fifo_data)

-- REG_ID_FIF
abbrev pub fifo_reg : ℕ
fifo_reg = 0x09

module _ (m : Regmap) where
  open m use {Bus}

  unfoldable pub input_fw_read_fifo : Bus → Ctx → Bus × Ctx
  unfolding kbd_read_i2c_2u8
  input_fw_read_fifo = read_fifo (kbd_read_i2c_2u8 m fifo_reg)

  unfoldable pub input_workqueue_handler : (ℕ → ℕ) → (ℕ → ℕ) → Bus → Ctx → Bus × Ctx × List Report
  input_workqueue_handler keycodes clock b c =
      let (b', c1) = input_fw_read_fifo b c in
      let (c2, events) = process keycodes clock c1.key_fifo_count 0 c1 in
      let (c3, motion) = move_pointer (clock c1.key_fifo_count) c2 in
      (b', record c3 { key_fifo_count = 0 }, events ++ (motion ++ (sync ∷ [])))
