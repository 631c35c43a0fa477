-- ===== src/Kbd/Mfd/Handler.antt =====
-- `input_workqueue_handler` handles what the firmware hands over, in order, and nothing else.
use meta_picocalc.Prelude.{ℕ, ◌<◌, ◌≡◌, refl, arith, ap, ◌∙◌, List, [], ◌∷◌, ◌++◌, length, take}
use meta_picocalc.Regmap.{Regmap}
use meta_picocalc.Kbd.Dirs.{left, right, up, down}
use meta_picocalc.Kbd.Fifo.{Item, Ctx, fifo_size, drain, length-drain, read_fifo_lem}
use meta_picocalc.Kbd.Pointer.{Report, move_pointer, sync}
use meta_picocalc.Kbd.Batch.{report_items, for_items-take, report_items-keeps}
use meta_picocalc.Kbd.Valid.{IsValid, arrow-dir, arrow-data, move_pointer-IsValid}
use meta_picocalc.Kbd.Mfd.Defs.{
  key_report_event, process, input_workqueue_handler, input_fw_read_fifo, kbd_read_i2c_2u8,
  fifo_reg,
}

pub fw_read_fifo_lem :
    (m : Regmap) (b : m.Bus) (c : Ctx)
    → length c.key_fifo_data ≡ fifo_size
    → let (b', c') = input_fw_read_fifo m b c in
      let (b'', items) = drain (kbd_read_i2c_2u8 m fifo_reg) fifo_size b in
      (b' ≡ b'')
      × (c'.key_fifo_count ≡ length items)
      × (take (length items) c'.key_fifo_data ≡ items)
      × (length c'.key_fifo_data ≡ fifo_size)
      × (c' ≡ record c { key_fifo_data = c'.key_fifo_data; key_fifo_count = c'.key_fifo_count })
unfolding input_fw_read_fifo
fw_read_fifo_lem m = read_fifo_lem (kbd_read_i2c_2u8 m fifo_reg)

module _ (keycodes : ℕ → ℕ) where
  -- No event touches the FIFO store.
  pub event-data :
      (now : ℕ) (ev : Item) (c : Ctx)
      → (key_report_event keycodes now ev c).0.key_fifo_data ≡ c.key_fifo_data
  unfolding key_report_event
  event-data now ev c = ground (
    arith,
    arrow-data left now ev c,
    arrow-data right now ev c,
    arrow-data up now ev c,
    arrow-data down now ev c,
  )

  event-dir :
      (now : ℕ) (ev : Item) (c : Ctx)
      → c.mouse_move_dir < 256
      → (key_report_event keycodes now ev c).0.mouse_move_dir < 256
  unfolding key_report_event
  event-dir now ev c h = ground (
    arith,
    arrow-dir left now ev c h,
    arrow-dir right now ev c h,
    arrow-dir up now ev c h,
    arrow-dir down now ev c h,
  )

  pub event-IsValid :
      (now : ℕ) (ev : Item) (c : Ctx) → IsValid c → IsValid (key_report_event keycodes now ev c).0
  event-IsValid now ev c v = record {
    room = ap length (event-data now ev c) ∙ v.room;
    dir_byte = event-dir now ev c v.dir_byte;
  }

  module _ (clock : ℕ → ℕ) where
    -- The events of a list, one after the other; the first is the `i`th of its batch.
    unfoldable pub report_all : ℕ → List Item → Ctx → Ctx × List Report
    report_all = report_items (λ i. key_report_event keycodes (clock i))

    process_items :
        (m : Regmap) (b : m.Bus) (c : Ctx)
        → length c.key_fifo_data ≡ fifo_size
        → let items = (drain (kbd_read_i2c_2u8 m fifo_reg) fifo_size b).1 in
          let c1 = (input_fw_read_fifo m b c).1 in
          process keycodes clock (length items) 0 c1 ≡ report_all 0 items c1
    unfolding process report_all
    process_items m b c h =
        let (_, _, stored, room, _) = fw_read_fifo_lem m b c h in
        for_items-take (λ i. key_report_event keycodes (clock i)) (λ c. c.key_fifo_data)
          (λ i. event-data (clock i)) _ _
          (omega (arith, room, length-drain (kbd_read_i2c_2u8 m fifo_reg) fifo_size b)) stored

    pub report_all-IsValid :
        (i : ℕ) (evs : List Item) (c : Ctx) → IsValid c → IsValid (report_all i evs c).0
    unfolding report_all
    report_all-IsValid =
        report_items-keeps (λ i. key_report_event keycodes (clock i)) IsValid
          (λ i. event-IsValid (clock i))

    module _ (m : Regmap) where
      -- The work handler handles exactly the items that the firmware hands over, each once and in
      -- order, then moves the pointer, ends with a sync, and leaves the FIFO empty: no stale item of
      -- the store is seen, and none that was read is dropped, also if the bus then fails.
      pub handler_lem :
          (b : m.Bus) (c : Ctx)
          → IsValid c
          → let (b', items) = drain (kbd_read_i2c_2u8 m fifo_reg) fifo_size b in
            let (c2, events) = report_all 0 items (input_fw_read_fifo m b c).1 in
            let (c3, motion) = move_pointer (clock (length items)) c2 in
            input_workqueue_handler m keycodes clock b c
            ≡ (b', record c3 { key_fifo_count = 0 }, events ++ (motion ++ sync ∷ []))
      unfolding input_workqueue_handler
      handler_lem b c v =
          let f = fw_read_fifo_lem m b c v.room in rw (f.0, f.1, process_items m b c v.room)

      -- The handler keeps the context valid and leaves no pending item.
      pub handler-IsValid :
          (b : m.Bus) (c : Ctx)
          → IsValid c
          → let c' = (input_workqueue_handler m keycodes clock b c).1 in
            IsValid c' × (c'.key_fifo_count ≡ 0)
      handler-IsValid b c v =
          let f = fw_read_fifo_lem m b c v.room in
          let items = (drain (kbd_read_i2c_2u8 m fifo_reg) fifo_size b).1 in
          let c1 = (input_fw_read_fifo m b c).1 in
          let v1 : IsValid c1 = record { room = f.3; dir_byte = rw (f.4) v.dir_byte } in
          rw (handler_lem b c v) (
            move_pointer-IsValid (clock (length items)) (report_all 0 items c1).0
                (report_all-IsValid 0 items c1 v1),
            refl,
          )
