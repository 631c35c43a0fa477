-- ===== src/Kbd/Legacy/Handler.antt =====
-- The work handler of the stand-alone driver: what the firmware hands over, in order.
use meta_picocalc.Prelude.{
  ℕ, ◌≡◌, refl, arith, ap, sym, subst, ◌∙◌, List, [], ◌∷◌, ◌++◌, length, ◌<◌,
}
use meta_picocalc.Kbd.Fifo.{Item, fifo_size, drain, length-drain, read_fifo_lem}
use meta_picocalc.Kbd.Pointer.{Report, move_pointer, sync}
use meta_picocalc.Kbd.Batch.{report_items, report_items-keeps, for_items-take}
use meta_picocalc.Kbd.Valid.{IsValid, arrow-dir, arrow-data, move_pointer-IsValid}
use meta_picocalc.Kbd.Legacy.Keeps.{event-Kept}
use meta_picocalc.Kbd.Legacy.Defs.{
  Kbd, Smbus, key_report_event, process, input_workqueue_handler, input_fw_read_fifo,
  kbd_read_i2c_2u8,
}

module _ (keycodes : ℕ → ℕ) where
  -- No event touches the FIFO store.
  event-data :
      (now : ℕ) (ev : Item) (c : Kbd)
      → (key_report_event keycodes now ev c).0.ctx.key_fifo_data ≡ c.ctx.key_fifo_data
  event-data now ev c =
      event-Kept keycodes (λ x. x.key_fifo_data ≡ c.ctx.key_fifo_data)
        (record {
          arrows = λ d now ev x p. arrow-data d now ev x ∙ p;
          mode = λ b x p. p;
          time = λ now x p. p;
        })
        now ev c refl

  event-dir :
      (now : ℕ) (ev : Item) (c : Kbd)
      → c.ctx.mouse_move_dir < 256
      → (key_report_event keycodes now ev c).0.ctx.mouse_move_dir < 256
  event-dir =
      event-Kept keycodes (λ x. x.mouse_move_dir < 256)
        (record { arrows = arrow-dir; mode = λ b x p. p; time = λ now x p. p })

  event-IsValid :
      (now : ℕ) (ev : Item) (c : Kbd)
      → IsValid c.ctx
      → IsValid (key_report_event keycodes now ev c).0.ctx
  event-IsValid now ev c v = record {
    room = ap length (event-data now ev c) ∙ v.room;
    dir_byte = event-dir now ev c v.dir_byte;
  }

  module _ (clock : ℕ → ℕ) where
    -- the events of a list, one after the other; the first is the `i`th of its batch
    unfoldable pub report_all : ℕ → List Item → Kbd → Kbd × List Report
    report_all = report_items (λ i. key_report_event keycodes (clock i))

    report_all-IsValid :
        (i : ℕ) (evs : List Item) (c : Kbd) → IsValid c.ctx → IsValid (report_all i evs c).0.ctx
    unfolding report_all
    report_all-IsValid =
        report_items-keeps (λ i. key_report_event keycodes (clock i)) (λ c. IsValid c.ctx)
          (λ i. event-IsValid (clock i))

    module _ (m : Smbus) where
      -- the items that the firmware hands over
      abbrev pub fetched : m.Bus → m.Bus × List Item
      fetched = drain (kbd_read_i2c_2u8 m 0x09) fifo_size

      fw_read_fifo_lem :
          (b : m.Bus) (c : Kbd)
          → IsValid c.ctx
          → let (b', c') = input_fw_read_fifo m b c in
            let (b'', items) = fetched b in
            (b' ≡ b'')
            × (c'.ctx.key_fifo_count ≡ length items)
            × (process keycodes clock (length items) 0 c' ≡ report_all 0 items c')
            × IsValid c'.ctx
      unfolding input_fw_read_fifo process report_all
      fw_read_fifo_lem b c v =
          let (bus, count, stored, room, same) =
            read_fifo_lem (kbd_read_i2c_2u8 m 0x09) b c.ctx v.room in
          (
            bus,
            count,
            for_items-take (λ i. key_report_event keycodes (clock i)) (λ c. c.ctx.key_fifo_data)
                (λ i. event-data (clock i)) _ _
                (omega (arith, room, length-drain (kbd_read_i2c_2u8 m 0x09) fifo_size b)) stored,
            record { room = room; dir_byte = rw same v.dir_byte },
          )

      -- The work handler of the stand-alone driver handles exactly the items that the firmware hands
      -- over, each once and in order, then moves the pointer, ends with a sync, and leaves the FIFO
      -- empty and the context valid, also if the bus then fails.
      pub legacy_handler_lem :
          (b : m.Bus) (c : Kbd)
          → IsValid c.ctx
          → let (b', items) = fetched b in
            let (c2, events) = report_all 0 items (input_fw_read_fifo m b c).1 in
            let (x, motion) = move_pointer (clock (length items)) c2.ctx in
            let c3 = record c2 { ctx = record x { key_fifo_count = 0 } } in
            (input_workqueue_handler m keycodes clock b c
              ≡ (b', c3, events ++ (motion ++ sync ∷ [])))
            × IsValid c3.ctx
      unfolding input_workqueue_handler
      legacy_handler_lem b c v =
          let (bus, count, same, v1) = fw_read_fifo_lem b c v in
          let items = (fetched b).1 in
          (
            rw (bus, count, same) refl,
            move_pointer-IsValid (clock (length items))
                (report_all 0 items (input_fw_read_fifo m b c).1).0.ctx
                (report_all-IsValid 0 items (input_fw_read_fifo m b c).1 v1),
          )

      pub legacy_handler-IsValid :
          (b : m.Bus) (c : Kbd)
          → IsValid c.ctx
          → IsValid (input_workqueue_handler m keycodes clock b c).1.ctx
      legacy_handler-IsValid b c v =
          let (same, valid) = legacy_handler_lem b c v in
          subst (λ t. IsValid t.1.ctx) (sym same) valid
