-- ===== src/Kbd/Mfd/Life.antt =====
-- `picocalc_mfd_kbd_probe` and `picocalc_mfd_kbd_remove`, and the polling between them.
use meta_picocalc.Prelude.{ℕ, ◌≡◌, refl, arith, Bool, true, false, replicate, einval}
use meta_picocalc.Regmap.{Regmap}
use meta_picocalc.Kernel.{M, ◌>>◌, ask_pointer, is_ok}
use meta_picocalc.Kbd.Fifo.{Ctx, blank_item}
use meta_picocalc.Kbd.Poll.Defs.{
  InputCore, Driver, absent, polling, input_probe, input_shutdown, Reach,
}
use meta_picocalc.Kbd.Poll.Bound.{
  IsPolling, input_probe_lem, polling-IsPolling, Reach-IsPolling, poll_again,
}
use meta_picocalc.Kbd.Mfd.Codes.{keycodes}
use meta_picocalc.Kbd.Mfd.Defs.{input_workqueue_handler}
use meta_picocalc.Kbd.Mfd.Handler.{handler-IsValid}
use meta_picocalc.Kbd.Valid.{IsValid}

-- the zeroed context, with the boot time of the probe
abbrev pub fresh : ℕ → Ctx
fresh boot = record {
  key_fifo_count = 0;
  key_fifo_data = replicate 31 blank_item;
  last_keypress_at = boot;
  mouse_mode = false;
  mouse_move_dir = 0;
  mouse_move_step = 0;
}

-- `regmap` tells whether the parent has a register map.
unfoldable pub probe : Bool → InputCore → ℕ → M (Driver Ctx) (Unit {0})
probe regmap k boot = do ask_pointer regmap einval; input_probe k keycodes (fresh boot)

-- the context that the driver data names is not used by the shutdown
unfoldable pub remove : Driver Ctx → Driver Ctx
unfolding input_shutdown
remove d = input_shutdown d

fresh-IsValid : (boot : ℕ) → IsValid (fresh boot)
fresh-IsValid boot = record { room = refl; dir_byte = omega arith }

-- The context after a run of the work handler on this bus, with any table and any clock.
abbrev pub handled : (m : Regmap) → (ℕ → ℕ) → (ℕ → ℕ) → m.Bus → Ctx → Ctx
handled m table clock b c = (input_workqueue_handler m table clock b c).1

abbrev pub Handles : Regmap → (Ctx → Ctx) → Type 0
Handles m run = (table : ℕ → ℕ) × (clock : ℕ → ℕ) × (b : m.Bus) × (run ≡ handled m table clock b)

Handles-IsValid :
    (m : Regmap) (run : Ctx → Ctx) → Handles m run → (c : Ctx) → IsValid c → IsValid (run c)
Handles-IsValid m run (table, clock, b, e) c v = rw e (handler-IsValid table clock m b c v).0

probe_polls :
    (regmap : Bool) (k : InputCore) (boot : ℕ) (c : Ctx)
    → is_ok (probe regmap k boot (absent c)).1 ≡ true
    → (probe regmap k boot (absent c)).0 ≡ polling keycodes (fresh boot)
unfolding probe
probe_polls false k boot c h = cc
probe_polls true k boot c h = input_probe_lem keycodes (fresh boot) c k h

module _ (m : Regmap) where
  -- After a probe that returned 0, whatever the timer, the work, the bus and user space's changes of
  -- the table do: the context stays valid, the timer stays armed, and nothing is used that is gone.
  pub probe-IsPolling :
      (regmap : Bool) (k : InputCore) (boot : ℕ) (c : Ctx) (d : Driver Ctx)
      → is_ok (probe regmap k boot (absent c)).1 ≡ true
      → Reach (Handles m) (probe regmap k boot (absent c)).0 d
      → IsPolling IsValid d
  probe-IsPolling regmap k boot c d h r =
      Reach-IsPolling IsValid (Handles m) (Handles-IsValid m) r (
        rw (probe_polls regmap k boot c h)
          (polling-IsPolling IsValid keycodes (fresh boot) (fresh-IsValid boot)))

  -- From each state of a driver that polls, the timer can fire and the work can run, on the bus as it
  -- is then: the context becomes what the work handler makes of it, and the driver still polls.
  pub IsPolling-goes_on :
      (d : Driver Ctx) (table clock : ℕ → ℕ) (b : m.Bus)
      → IsPolling IsValid d
      → (e : Driver Ctx) × Reach (Handles m) d e
        × (e.ctx ≡ handled m table clock b d.ctx)
        × IsPolling IsValid e
  IsPolling-goes_on d table clock b p =
      poll_again IsValid (Handles m) (Handles-IsValid m) d (handled m table clock b)
        (table, clock, b, refl) p
