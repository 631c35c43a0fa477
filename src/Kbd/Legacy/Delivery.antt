-- ===== src/Kbd/Legacy/Delivery.antt =====
-- What was typed is what picocalc_kbd/picocalc_kbd.c handles.
use meta_picocalc.Prelude.{ℕ, ◌*◌, ◌≤◌, ◌≡◌, ap, ◌∙◌, List, [], ◌++◌, ◌∷◌, subst, length}
use meta_picocalc.Kbd.Fifo.{Item, fifo_size, drain, read_fifo_lem}
use meta_picocalc.Kbd.Pointer.{move_pointer, sync}
use meta_picocalc.Kbd.Valid.{IsValid}
use meta_picocalc.Kbd.Queue.{items, IsQueue}
use meta_picocalc.Kbd.Delivery.{Run, HaveHandled, Typing, Consumer, polls, Reach, delivery_lem}
use meta_picocalc.Kbd.Legacy.Defs.{
  Kbd, Smbus, input_workqueue_handler, input_fw_read_fifo, kbd_read_i2c_2u8,
}
use meta_picocalc.Kbd.Legacy.Handler.{legacy_handler-IsValid, legacy_handler_lem, report_all}

-- What a run does to the state and what it reports, of the given items: their events, each once and in
-- order, then the pointer's movement and a sync. `data_left` is what the FIFO store holds besides.
abbrev pub Handles : (ℕ → ℕ) → List Item → Run Kbd → Type 0
Handles keycodes items r =
    (data_left : List Item) × (let loaded : Kbd = record r.before {
      ctx = record r.before.ctx { key_fifo_data = data_left; key_fifo_count = length items };
    } in
      let (c2, events) = report_all keycodes r.clock 0 items loaded in
      let (x, motion) = move_pointer (r.clock (length items)) c2.ctx in
      (r.after ≡ record c2 { ctx = record x { key_fifo_count = 0 } })
      × (r.reports ≡ events ++ (motion ++ sync ∷ [])))

module _ (m : Smbus) (keycodes : ℕ → ℕ) where
  loaded_lem :
      (b : m.Bus) (c : Kbd)
      → IsValid c.ctx
      → let c1 = (input_fw_read_fifo m b c).1 in
        c1 ≡ record c {
          ctx = record c.ctx {
            key_fifo_data = c1.ctx.key_fifo_data;
            key_fifo_count = length (drain (kbd_read_i2c_2u8 m 0x09) fifo_size b).1;
          };
        }
  unfolding input_fw_read_fifo
  loaded_lem b c v =
      let (_, count, _, _, same) = read_fifo_lem (kbd_read_i2c_2u8 m 0x09) b c.ctx v.room in
      ap (λ x. record c { ctx = x })
        (same
          ∙ ap
              (λ n. record c.ctx {
                key_fifo_data = (input_fw_read_fifo m b c).1.ctx.key_fifo_data;
                key_fifo_count = n;
              })
              count)

  pub handler-Handles :
      (clock : ℕ → ℕ) (b : m.Bus) (c : Kbd)
      → IsValid c.ctx
      → let (_, c', reports) = input_workqueue_handler m keycodes clock b c in
        Handles keycodes
          (drain (kbd_read_i2c_2u8 m 0x09) fifo_size b).1
          (record { clock = clock; before = c; after = c'; reports = reports })
  handler-Handles clock b c v =
      let xs = (drain (kbd_read_i2c_2u8 m 0x09) fifo_size b).1 in
      let does = (legacy_handler_lem keycodes clock m b c v).0 in
      (
        (input_fw_read_fifo m b c).1.ctx.key_fifo_data,
        subst
            (λ (x : Kbd).
              let (c2, events) = report_all keycodes clock 0 xs x in
              let (y, motion) = move_pointer (clock (length xs)) c2.ctx in
              ((input_workqueue_handler m keycodes clock b c).1
                ≡ record c2 { ctx = record y { key_fifo_count = 0 } })
              × ((input_workqueue_handler m keycodes clock b c).2
                  ≡ events ++ (motion ++ sync ∷ [])))
            (loaded_lem b c v) (ap (λ t. t.1) does, ap (λ t. t.2) does),
      )

  abbrev pub consumer : Consumer (kbd_read_i2c_2u8 m 0x09) Kbd
  consumer = record {
    run = input_workqueue_handler m keycodes;
    Handles = Handles keycodes;
    IsOk = λ c. IsValid c.ctx;
    drains = λ clock b c v. (
      ap (λ x. x.0) (legacy_handler_lem keycodes clock m b c v).0,
      handler-Handles clock b c v,
      legacy_handler-IsValid keycodes clock m b c v,
    );
  }

-- In the stand-alone driver, on an SMBus whose FIFO register works as documented, from a state `c` with
-- a valid context and an empty queue, after keys typed and runs of the handler in any order: the
-- entries typed are the items handled so far and then those still queued. That items are handled says
-- that the runs so far, each from the state that the one before it has left, have made of their states
-- and reported to the input core just the events of those items, in order and each once, with the
-- pointer's movement and a sync after each batch. After `n` more runs, where 31 * `n` is not below what
-- is still queued, every entry typed is handled.
pub legacy_delivers :
    (m : Smbus) (queue : m.Bus → List (ℕ × ℕ)) (fw : IsQueue (kbd_read_i2c_2u8 m 0x09) queue)
    (keycodes : ℕ → ℕ) (b : m.Bus) (c : Kbd) (t : Typing m.Bus Kbd) (clock : ℕ → ℕ) (n : ℕ)
    → queue b ≡ []
    → IsValid c.ctx
    → Reach (consumer m keycodes) queue fw (record { bus = b; ctx = c; typed = []; log = [] }) t
    → length (queue t.bus) ≤ n * fifo_size
    → let e = polls (consumer m keycodes) clock n t in
      ((handled : List Item) × HaveHandled (consumer m keycodes) c t.log handled t.ctx
        × (handled ++ items (queue t.bus) ≡ items t.typed))
      × HaveHandled (consumer m keycodes) c e.log (items t.typed) e.ctx
legacy_delivers m queue fw keycodes = delivery_lem (consumer m keycodes) queue fw
