-- ===== src/Kbd/Legacy/Life.antt =====
-- Probe and shutdown of the stand-alone driver, with its sysfs directory and its restart notifier.
use meta_picocalc.Prelude.{
  ℕ, ◌-◌, ◌≡◌, refl, arith, ap, sym, subst, Bool, true, false, ◌==◌, replicate, Result, ok, err,
  enomem, if◌then◌else◌, ap,
}
use meta_picocalc.Kernel.{M, ◌>>◌, change, ask, ask_pointer, guarded, is_ok}
use meta_picocalc.Kbd.Fifo.{blank_item}
use meta_picocalc.Kbd.Poll.Defs.{
  InputCore, Driver, absent, polling, input_probe, input_shutdown, release, Reach,
}
use meta_picocalc.Kbd.Poll.Bound.{IsPolling, input_probe_lem, polling-IsPolling, Reach-IsPolling}
use meta_picocalc.Kbd.Poll.Races.{MayFault, armed_faults}
use meta_picocalc.Kbd.Valid.{IsValid}
use meta_picocalc.Kbd.Legacy.Codes.{keycodes}
use meta_picocalc.Kbd.Legacy.Defs.{Kbd, Smbus, second_key_maps, input_workqueue_handler}
use meta_picocalc.Kbd.Legacy.Handler.{legacy_handler-IsValid}

-- what the kernel answers for the sysfs directory
pub record SysfsCore : Type 0 where
  pub kzalloc : Bool
  pub init_and_add : Result (Unit {0})
  pub create_group : Result (Unit {0})

-- The directory: whether `picocalc_kobj` is not NULL, the references to the object, and whether the
-- object and its attributes are in sysfs.
pub record Sysfs : Type 0 where
  pub picocalc_kobj : Bool
  pub references : ℕ
  pub added : Bool
  pub group : Bool

abbrev pub no_sysfs : Sysfs
no_sysfs = record { picocalc_kobj = false; references = 0; added = false; group = false }

-- The last reference takes the object out of sysfs.
abbrev pub kobject_put : Sysfs → Sysfs
kobject_put s =
    if s.references == 1
    then record s { references = 0; added = false; group = false }
    else record s { references = s.references - 1 }

unfoldable pub sysfs_probe : SysfsCore → M Sysfs (Unit {0})
sysfs_probe k = do
  change (λ s. record s { picocalc_kobj = k.kzalloc })
  ask_pointer k.kzalloc enomem
  change (λ s. record s { references = 1 })
  guarded kobject_put (ask k.init_and_add)
  change (λ s. record s { added = true })
  guarded kobject_put (ask_pointer (is_ok k.create_group) enomem)
  change (λ s. record s { group = true })

unfoldable pub sysfs_shutdown : Sysfs → Sysfs
sysfs_shutdown s = if s.picocalc_kobj then record (kobject_put s) { picocalc_kobj = false } else s

-- the driver with its directory and whether its restart notifier is registered
pub record Bound : Type 0 where
  pub driver : Driver Kbd
  pub sysfs : Sysfs
  pub notifier : Bool

-- the zeroed context, with the boot time of the probe
abbrev pub fresh : ℕ → Kbd
fresh boot = record {
  ctx = record {
    key_fifo_count = 0;
    key_fifo_data = replicate 31 blank_item;
    last_keypress_at = boot;
    mouse_mode = false;
    mouse_move_dir = 0;
    mouse_move_step = 0;
  };
  left_shift_pressed = false;
  right_shift_pressed = false;
  second_keys = second_key_maps;
}

abbrev with_driver : Bound → Driver Kbd × Result (Unit {0}) → Bound × Result (Unit {0})
with_driver b (d, r) = (record b { driver = d }, r)

abbrev with_sysfs : Bound → Sysfs × Result (Unit {0}) → Bound × Result (Unit {0})
with_sysfs b (s, r) = (record b { sysfs = s }, r)

abbrev on_driver : M (Driver Kbd) (Unit {0}) → M Bound (Unit {0})
on_driver m b = with_driver b (m b.driver)

abbrev on_sysfs : M Sysfs (Unit {0}) → M Bound (Unit {0})
on_sysfs m b = with_sysfs b (m b.sysfs)

-- its `input_probe`
abbrev pub start_input : InputCore → ℕ → M (Driver Kbd) (Unit {0})
start_input k boot = input_probe k keycodes (fresh boot)

-- `picocalc_kbd_probe`
unfoldable pub probe : InputCore → SysfsCore → ℕ → M Bound (Unit {0})
probe k s boot = do
  on_driver (start_input k boot)
  on_sysfs (sysfs_probe s)
  change (λ b. record b { notifier = true })

-- `picocalc_kbd_shutdown`, which `picocalc_kbd_remove` also calls; the notifier is a part of the
-- context that `g_ctx` names
unfoldable pub shutdown : Bound → Bound
unfolding sysfs_shutdown input_shutdown
shutdown b =
    let d = if b.driver.g_ctx then b.driver else record b.driver { fault = true } in
    record { driver = input_shutdown d; sysfs = sysfs_shutdown b.sysfs; notifier = false }

abbrev pub unbound : Kbd → Bound
unbound c = record { driver = absent c; sysfs = no_sysfs; notifier = false }

abbrev pub live_sysfs : Sysfs
live_sysfs = record { picocalc_kobj = true; references = 1; added = true; group = true }

-- the first of the three answers that is an error; a failed group counts as lack of memory
abbrev pub sysfs_error : SysfsCore → Result (Unit {0})
sysfs_error k =
    if k.kzalloc
    then elim k.init_and_add [
      | err e ↦ err e
      | ok _ ↦ if is_ok k.create_group then ok tt else err enomem
    ]
    else err enomem

sysfs_probe_lem :
    (k : SysfsCore)
    → let (s, r) = sysfs_probe k no_sysfs in
      (r ≡ sysfs_error k)
      × (is_ok r ≡ true → s ≡ live_sysfs)
      × (is_ok r ≡ false → (s.added ≡ false) × (s.group ≡ false) × (s.references ≡ 0))
unfolding sysfs_probe
sysfs_probe_lem k = ground arith

-- The context after a run of the work handler on this bus, with any table and any clock.
abbrev pub handled : (m : Smbus) → (ℕ → ℕ) → (ℕ → ℕ) → m.Bus → Kbd → Kbd
handled m table clock b c = (input_workqueue_handler m table clock b c).1

abbrev pub Handles : Smbus → (Kbd → Kbd) → Type 0
Handles m run = (table : ℕ → ℕ) × (clock : ℕ → ℕ) × (b : m.Bus) × (run ≡ handled m table clock b)

abbrev pub Good : Kbd → Type 0
Good c = IsValid c.ctx

fresh-Good : (boot : ℕ) → Good (fresh boot)
fresh-Good boot = record { room = refl; dir_byte = omega arith }

Handles-Good : (m : Smbus) (run : Kbd → Kbd) → Handles m run → (c : Kbd) → Good c → Good (run c)
Handles-Good m run (table, clock, b, e) c v =
    subst (λ f. Good (f c)) (sym e) (legacy_handler-IsValid table clock m b c v)

module _ (k : InputCore) (s : SysfsCore) (boot : ℕ) (c : Kbd) where
  probe_cases :
      (i : Driver Kbd × Result (Unit {0})) (y : Sysfs × Result (Unit {0}))
      → input_probe k keycodes (fresh boot) (absent c) ≡ i
      → sysfs_probe s no_sysfs ≡ y
      → is_ok i.1 ≡ true
      → probe k s boot (unbound c)
        ≡ (record { driver = i.0; sysfs = y.0; notifier = is_ok y.1 }, y.1)
  unfolding probe
  probe_cases (d, err e) y p q h = cc
  probe_cases (d, ok _) (z, err e) p q h = rw (p, q) refl
  probe_cases (d, ok _) (z, ok _) p q h = rw (p, q) refl

  -- When the input part works, the probe returns the first error of the sysfs part, or 0. With 0
  -- the directory is there and the notifier is registered. With an error both are gone, but the
  -- timer that the input part has armed may then fire on the memory that the driver core has freed.
  pub legacy_probe_lem :
      (m : Smbus)
      → is_ok (input_probe k keycodes (fresh boot) (absent c)).1 ≡ true
      → let (b, r) = probe k s boot (unbound c) in
        (r ≡ sysfs_error s)
        × (b.driver ≡ polling keycodes (fresh boot))
        × (b.notifier ≡ is_ok r)
        × (is_ok r ≡ true → b.sysfs ≡ live_sysfs)
        × (is_ok r ≡ false → (b.sysfs.added ≡ false) × MayFault (Handles m) (release b.driver))
  legacy_probe_lem m h =
      let i = input_probe k keycodes (fresh boot) (absent c) in
      let y = sysfs_probe s no_sysfs in
      let (e, live, gone) = sysfs_probe_lem s in
      let d : i.0 ≡ polling keycodes (fresh boot) = input_probe_lem keycodes (fresh boot) c k h in
      rw (probe_cases i y refl refl h)
        (e, d, refl, live, λ f. ((gone f).0, armed_faults (Handles m) i.0 (ap (λ t. t.timer) d)))

  both_work :
      (i : Driver Kbd × Result (Unit {0})) (y : Sysfs × Result (Unit {0}))
      → input_probe k keycodes (fresh boot) (absent c) ≡ i
      → sysfs_probe s no_sysfs ≡ y
      → is_ok (probe k s boot (unbound c)).1 ≡ true
      → (is_ok i.1 ≡ true) × (is_ok y.1 ≡ true)
  unfolding probe
  both_work (d, err e) y p q h = cc (rw p at h)
  both_work (d, ok _) (z, err e) p q h = cc (rw (p, q) at h)
  both_work (d, ok _) (z, ok _) p q h = (refl, refl)

  probe_live :
      is_ok (probe k s boot (unbound c)).1 ≡ true
      → (probe k s boot (unbound c)).0
        ≡ record { driver = polling keycodes (fresh boot); sysfs = live_sysfs; notifier = true }
  probe_live h =
      let i = input_probe k keycodes (fresh boot) (absent c) in
      let y = sysfs_probe s no_sysfs in
      let (good, there) = both_work i y refl refl h in
      rw
        (
          probe_cases i y refl refl good,
          input_probe_lem keycodes (fresh boot) c k good,
          (sysfs_probe_lem s).1 there,
          there,
        )
        refl

  -- After a probe that returned 0, whatever the timer, the work, the bus and user space do, the
  -- driver polls and its context is valid; a shutdown then stops the timer, and takes the directory
  -- and the notifier away.
  pub legacy_probe-shutdown :
      (m : Smbus) (d : Driver Kbd)
      → is_ok (probe k s boot (unbound c)).1 ≡ true
      → let b = (probe k s boot (unbound c)).0 in
        Reach (Handles m) b.driver d
        → let gone = shutdown (record b { driver = d }) in
          IsPolling Good d
          × (gone.driver ≡ record d { timer = false; g_ctx = false })
          × (gone.sysfs ≡ no_sysfs)
          × (gone.notifier ≡ false)
  unfolding shutdown
  legacy_probe-shutdown m d h r =
      let live = probe_live h in
      let from : Reach (Handles m) (polling keycodes (fresh boot)) d =
        subst (λ b. Reach (Handles m) b.driver d) live r in
      let p =
        Reach-IsPolling Good (Handles m) (Handles-Good m) from
          (polling-IsPolling Good keycodes (fresh boot) (fresh-Good boot)) in
      (p, rw (p.g_ctx) refl, rw live refl, refl)
