-- ===== src/Kbd/Legacy/Defs.antt =====
-- The events and the work handler of picocalc_kbd.c, which talks to the controller over plain I2C.
use meta_picocalc.Prelude.{
  ℕ, ◌%◌, ◌/◌, Bool, false, ◌&&◌, ◌||◌, not, List, [], ◌∷◌, ◌++◌, ◌==◌, if◌then◌else◌, Option, none,
  some, Result, ok, err,
}
use meta_picocalc.Prelude.Bits.{bit_or}
use meta_picocalc.Kbd.Dirs.{left, right, up, down}
use meta_picocalc.Kbd.Fifo.{Ctx, Item, key_state_released, key_state_hold, read_fifo}
use meta_picocalc.Kbd.Batch.{for_items}
use meta_picocalc.Kbd.Pointer.{Report, key, sync, is_pressed, arrow, move_pointer}
use meta_picocalc.Kbd.Codes.{key_pageup, key_pagedown, key_insert, key_leftshift, key_rightshift}
use meta_picocalc.Kbd.Mfd.{key_unknown, btn_left, btn_right, is_handled}

-- A row of `second_key_maps` with the flag of the context that its offset names.
pub record Second : Type 0 where
  pub scancode : ℕ
  pub flag : Bool

-- The context: what it shares with the other driver, the shift keys, and the second keys' flags in
-- the order of `second_key_maps`.
pub record Kbd : Type 0 where
  pub ctx : Ctx
  pub left_shift_pressed : Bool
  pub right_shift_pressed : Bool
  pub second_keys : List Second

abbrev pub up_key : ℕ → Second
up_key s = record { scancode = s; flag = false }

-- `second_key_maps`, all flags clear
abbrev pub second_key_maps : List Second
second_key_maps =
    up_key 0x86
    ∷ up_key 0x87
    ∷ up_key 0x88
    ∷ up_key 0x89
    ∷ up_key 0x90
    ∷ up_key 0xD0
    ∷ up_key 0xD2
    ∷ up_key 0xD5
    ∷ up_key 0xD6
    ∷ up_key 0xD7
    ∷ up_key 0xD8
    ∷ []

-- the loop on the release of a shift key: clear what is set, and report it
unfoldable pub release_second : (ℕ → ℕ) → List Second → List Second × List Report
release_second keycodes [] = ([], [])
release_second keycodes (k ∷ ks) =
    let (ks', out) = release_second keycodes ks in
    (up_key k.scancode ∷ ks', if k.flag then key (keycodes k.scancode % 256) false ∷ out else out)

-- the loop that tracks a second key: `none` where no row has the scan code
unfoldable pub track_second : ℕ → Bool → List Second → Option (List Second)
track_second s b [] = none
track_second s b (k ∷ ks) =
    let rest = track_second s b ks in
    if k.scancode == s
    then some (record k { flag = b } ∷ ks)
    else elim rest [ some ks' ↦ some (k ∷ ks') | none ↦ none ]

abbrev pub is_shift : Item → Bool
is_shift ev = ev.scancode == 0xA2 || ev.scancode == 0xA3

-- the flags of the two shift keys
unfoldable pub track_shift : Item → Kbd → Kbd
track_shift ev c =
    let held = is_pressed ev || ev.state == key_state_hold in
    record c {
      left_shift_pressed = if ev.scancode == 0xA2 then held else c.left_shift_pressed;
      right_shift_pressed = if ev.scancode == 0xA3 then held else c.right_shift_pressed;
    }

-- mouse mode by both shift keys, and the release of second keys that outlive them
unfoldable pub shift_logic : (ℕ → ℕ) → Item → Kbd → Kbd × List Report
unfolding release_second
shift_logic keycodes ev c =
    if is_pressed ev && is_shift ev
    then (
      if c.left_shift_pressed && c.right_shift_pressed
          then record c { ctx = record c.ctx { mouse_mode = not c.ctx.mouse_mode } }
          else c,
      [],
    )
    else if ev.state == key_state_released && is_shift ev
    then (if not c.left_shift_pressed && not c.right_shift_pressed
        then (let (ks, out) = release_second keycodes c.second_keys in
            (record c { second_keys = ks }, out))
        else (c, []))
    else (c, [])

-- the switch of mouse mode; `none` is its default
unfoldable pub mouse_key : ℕ → Item → Kbd → Option (Kbd × List Report)
mouse_key now ev c =
    if ev.scancode == 0xb7
    then some (record c { ctx = arrow right now ev c.ctx }, [])
    else if ev.scancode == 0xb4
    then some (record c { ctx = arrow left now ev c.ctx }, [])
    else if ev.scancode == 0xb6
    then some (record c { ctx = arrow down now ev c.ctx }, [])
    else if ev.scancode == 0xb5
    then some (record c { ctx = arrow up now ev c.ctx }, [])
    else if ev.scancode == b']'
    then some (c, key btn_right (is_pressed ev) ∷ [])
    else if ev.scancode == b'['
    then some (c, key btn_left (is_pressed ev) ∷ [])
    else if ev.scancode == 0x84 || ev.scancode == 0x89
    then some (c, key key_pageup (is_pressed ev) ∷ [])
    else if ev.scancode == 0x85 || ev.scancode == 0x90
    then some (c, key key_pagedown (is_pressed ev) ∷ [])
    else none

-- from the end of the hold test on: Insert alone, the second keys, any other key
unfoldable pub press_key : ℕ → Item → Kbd → Kbd × List Report
unfolding track_second
press_key keycode ev c =
    let b = is_pressed ev in
    let alone = not c.left_shift_pressed && not c.right_shift_pressed in
    if ev.scancode == 0xd1 && alone
    then (c, key key_insert b ∷ [])
    else elim (track_second ev.scancode b c.second_keys) [
      | none ↦ (c, key keycode b ∷ [])
      | some ks ↦ (
        record c { second_keys = ks },
        (if b then key key_leftshift false ∷ key key_rightshift false ∷ [] else [])
            ++ (key keycode b ∷ []),
      )
    ]

-- from the keycode table on
unfoldable pub post_key : (ℕ → ℕ) → ℕ → Item → Kbd → Kbd × List Report
unfolding press_key
post_key keycodes now ev c =
    let keycode = keycodes ev.scancode % 256 in
    let c' = record c { ctx = record c.ctx { last_keypress_at = now } } in
    if keycode == 0
    then (c, [])
    else if keycode == key_unknown
    then (c, [])
    else if ev.state == key_state_hold
    then (c', [])
    else press_key keycode ev c'

abbrev pub after : List Report → Kbd × List Report → Kbd × List Report
after out r = (r.0, out ++ r.1)

unfoldable pub key_report_event : (ℕ → ℕ) → ℕ → Item → Kbd → Kbd × List Report
unfolding track_shift shift_logic mouse_key post_key
key_report_event keycodes now ev c =
    if not (is_handled ev)
    then (c, [])
    else (let (c1, out) = shift_logic keycodes ev (track_shift ev c) in
        if c1.ctx.mouse_mode
        then elim (mouse_key now ev c1) [
          | some r ↦ after out r
          | none ↦ after out (post_key keycodes now ev c1)
        ]
        else after out (post_key keycodes now ev c1))

-- the loop over the FIFO's items, with `n` rounds left at index `idx`
unfoldable pub process : (ℕ → ℕ) → (ℕ → ℕ) → ℕ → ℕ → Kbd → Kbd × List Report
process keycodes clock =
    for_items (λ i. key_report_event keycodes (clock i)) (λ c. c.ctx.key_fifo_data)

-- The kernel's SMBus calls on the controller, which is not part of the repository.
pub record Smbus : Type 1 where
  pub Bus : Type 0
  pub read_byte_data : Bus → ℕ → Bus × Result ℕ
  pub write_byte_data : Bus → ℕ → ℕ → Bus × Result (Unit {0})
  pub read_word_data : Bus → ℕ → Bus × Result ℕ

abbrev of_word : Result ℕ → Result (ℕ × ℕ)
of_word (ok w) = ok (w % 256, w / 256 % 256)
of_word (err e) = err e

abbrev of_byte : Result ℕ → Result ℕ
of_byte (ok v) = ok (v % 256)
of_byte (err e) = err e

module _ (m : Smbus) where
  open m use {Bus}

  unfoldable pub kbd_read_i2c_u8 : Bus → ℕ → Bus × Result ℕ
  kbd_read_i2c_u8 b reg = let (b', r) = m.read_byte_data b reg in (b', of_byte r)

  unfoldable pub kbd_write_i2c_u8 : Bus → ℕ → ℕ → Bus × Result (Unit {0})
  kbd_write_i2c_u8 b reg src = m.write_byte_data b (bit_or reg 128) src

  unfoldable pub kbd_read_i2c_2u8 : ℕ → Bus → Bus × Result (ℕ × ℕ)
  kbd_read_i2c_2u8 reg b = let (b', r) = m.read_word_data b reg in (b', of_word r)

  unfoldable pub input_fw_read_fifo : Bus → Kbd → Bus × Kbd
  unfolding kbd_read_i2c_2u8
  input_fw_read_fifo b c =
      let (b', x) = read_fifo (kbd_read_i2c_2u8 0x09) b c.ctx in (b', record c { ctx = x })

  unfoldable pub input_workqueue_handler : (ℕ → ℕ) → (ℕ → ℕ) → Bus → Kbd → Bus × Kbd × List Report
  input_workqueue_handler keycodes clock b c =
      let (b', c1) = input_fw_read_fifo b c in
      let (c2, events) = process keycodes clock c1.ctx.key_fifo_count 0 c1 in
      let (x, motion) = move_pointer (clock c1.ctx.key_fifo_count) c2.ctx in
      (b', record c2 { ctx = record x { key_fifo_count = 0 } }, events ++ (motion ++ (sync ∷ [])))
