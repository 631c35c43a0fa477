-- ===== src/Kbd/Legacy/LifeTests.antt =====
-- The stand-alone keyboard driver: its handler on a bus, its probe, and its table.
use meta_picocalc.Prelude.{ℕ, ◌≡◌, refl, arith, true, false, [], ◌∷◌, ◌++◌, length, ok, err, enomem}
use meta_picocalc.Kernel.{is_ok}
use meta_picocalc.Kbd.Pointer.{sync, move_pointer}
use meta_picocalc.Kbd.Valid.{IsValid}
use meta_picocalc.Kbd.Poll.Defs.{InputCore, polling, input_probe, release}
use meta_picocalc.Kbd.Poll.Races.{MayFault}
use meta_picocalc.Kbd.Legacy.Codes.{keycodes}
use meta_picocalc.Kbd.Legacy.Defs.{input_workqueue_handler, input_fw_read_fifo}
use meta_picocalc.Kbd.Legacy.Handler.{report_all, fetched, legacy_handler_lem}
use meta_picocalc.Kbd.Legacy.Life.{
  SysfsCore, Handles, fresh, unbound, probe, live_sysfs, legacy_probe_lem,
}
use meta_picocalc.Kbd.Legacy.Tests.{scripted, table, typing}

typing-IsValid : IsValid typing.ctx
typing-IsValid = record { room = refl; dir_byte = omega arith }

abbrev clock : ℕ → ℕ
clock i = 100

legacy_handler_lem_example :
    let (b', items) = fetched table clock scripted [] in
    let (c2, events) = report_all table clock 0 items (input_fw_read_fifo scripted [] typing).1 in
    let (x, motion) = move_pointer (clock (length items)) c2.ctx in
    let c3 = record c2 { ctx = record x { key_fifo_count = 0 } } in
    (input_workqueue_handler scripted table clock [] typing
      ≡ (b', c3, events ++ (motion ++ sync ∷ [])))
    × IsValid c3.ctx
legacy_handler_lem_example = legacy_handler_lem table clock scripted [] typing typing-IsValid

abbrev willing : InputCore
willing = record { kzalloc = true; kmemdup = true; allocate_device = true; register_device = ok tt }

-- the attributes cannot be created
abbrev no_group : SysfsCore
no_group = record { kzalloc = true; init_and_add = ok tt; create_group = err 17 }

legacy_probe_lem_example :
    let (b, r) = probe willing no_group 5 (unbound typing) in
    (r ≡ err enomem)
    × (b.driver ≡ polling keycodes (fresh 5))
    × (b.notifier ≡ is_ok r)
    × (is_ok r ≡ true → b.sysfs ≡ live_sysfs)
    × (is_ok r ≡ false → (b.sysfs.added ≡ false) × MayFault (Handles scripted) (release b.driver))
unfolding input_probe
legacy_probe_lem_example = legacy_probe_lem willing no_group 5 typing scripted refl
