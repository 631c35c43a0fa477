-- ===== src/Kbd/Mfd/Delivery.antt =====
-- What was typed is what picocalc_mfd_kbd/picocalc_mfd_kbd.c handles.
use meta_picocalc.Prelude.{ℕ, ◌*◌, ◌≤◌, ◌≡◌, ap, ◌∙◌, List, [], ◌++◌, ◌∷◌, subst, length}
use meta_picocalc.Regmap.{Regmap}
use meta_picocalc.Kbd.Fifo.{Item, Ctx, fifo_size, drain}
use meta_picocalc.Kbd.Pointer.{move_pointer, sync}
use meta_picocalc.Kbd.Valid.{IsValid}
use meta_picocalc.Kbd.Queue.{items, IsQueue}
use meta_picocalc.Kbd.Delivery.{Run, HaveHandled, Typing, Consumer, polls, Reach, delivery_lem}
use meta_picocalc.Kbd.Mfd.Defs.{
  input_workqueue_handler, input_fw_read_fifo, kbd_read_i2c_2u8, fifo_reg,
}
use meta_picocalc.Kbd.Mfd.Handler.{fw_read_fifo_lem, handler-IsValid, handler_lem, report_all}

-- What a run does to the context and what it reports, of the given items: their events, each once and in
-- order, then the pointer's movement and a sync. `data_left` is what the FIFO store holds besides.
abbrev pub Handles : (ℕ → ℕ) → List Item → Run Ctx → Type 0
Handles keycodes items r =
    (data_left : List Item) × (let loaded : Ctx = record r.before {
      key_fifo_data = data_left;
      key_fifo_count = length items;
    } in
      let (c2, events) = report_all keycodes r.clock 0 items loaded in
      let (c3, motion) = move_pointer (r.clock (length items)) c2 in
      (r.after ≡ record c3 { key_fifo_count = 0 }) × (r.reports ≡ events ++ (motion ++ sync ∷ [])))

module _ (m : Regmap) (keycodes : ℕ → ℕ) where
  pub handler-Handles :
      (clock : ℕ → ℕ) (b : m.Bus) (c : Ctx)
      → IsValid c
      → let (_, c', reports) = input_workqueue_handler m keycodes clock b c in
        Handles keycodes
          (drain (kbd_read_i2c_2u8 m fifo_reg) fifo_size b).1
          (record { clock = clock; before = c; after = c'; reports = reports })
  handler-Handles clock b c v =
      let f = fw_read_fifo_lem m b c v.room in
      let xs = (drain (kbd_read_i2c_2u8 m fifo_reg) fifo_size b).1 in
      let c1 = (input_fw_read_fifo m b c).1 in
      let loaded : c1 ≡ record c { key_fifo_data = c1.key_fifo_data; key_fifo_count = length xs } =
        f.4 ∙ ap (λ n. record c { key_fifo_data = c1.key_fifo_data; key_fifo_count = n }) f.1 in
      let does = handler_lem keycodes clock m b c v in
      (
        c1.key_fifo_data,
        subst
            (λ (x : Ctx).
              let (c2, events) = report_all keycodes clock 0 xs x in
              let (c3, motion) = move_pointer (clock (length xs)) c2 in
              ((input_workqueue_handler m keycodes clock b c).1 ≡ record c3 { key_fifo_count = 0 })
              × ((input_workqueue_handler m keycodes clock b c).2
                  ≡ events ++ (motion ++ sync ∷ [])))
            loaded (ap (λ t. t.1) does, ap (λ t. t.2) does),
      )

  abbrev pub consumer : Consumer (kbd_read_i2c_2u8 m fifo_reg) Ctx
  consumer = record {
    run = input_workqueue_handler m keycodes;
    Handles = Handles keycodes;
    IsOk = IsValid;
    drains = λ clock b c v. (
      ap (λ x. x.0) (handler_lem keycodes clock m b c v),
      handler-Handles clock b c v,
      (handler-IsValid keycodes clock m b c v).0,
    );
  }

-- On a bus whose FIFO register works as documented, from a valid context `c` and an empty queue, after
-- keys typed and runs of the handler in any order: the entries typed are the items handled so far and
-- then those still queued. That items are handled says that the runs so far, each from the context that
-- the one before it has left, have made of their contexts and reported to the input core just the
-- events of those items, in order and each once, with the pointer's movement and a sync after each
-- batch. After `n` more runs, where 31 * `n` is not below what is still queued, every entry typed is
-- handled.
pub delivers :
    (m : Regmap) (queue : m.Bus → List (ℕ × ℕ)) (fw : IsQueue (kbd_read_i2c_2u8 m fifo_reg) queue)
    (keycodes : ℕ → ℕ) (b : m.Bus) (c : Ctx) (t : Typing m.Bus Ctx) (clock : ℕ → ℕ) (n : ℕ)
    → queue b ≡ []
    → IsValid c
    → Reach (consumer m keycodes) queue fw (record { bus = b; ctx = c; typed = []; log = [] }) t
    → length (queue t.bus) ≤ n * fifo_size
    → let e = polls (consumer m keycodes) clock n t in
      ((handled : List Item) × HaveHandled (consumer m keycodes) c t.log handled t.ctx
        × (handled ++ items (queue t.bus) ≡ items t.typed))
      × HaveHandled (consumer m keycodes) c e.log (items t.typed) e.ctx
delivers m queue fw keycodes = delivery_lem (consumer m keycodes) queue fw
