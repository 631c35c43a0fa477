-- ===== src/Kbd/Mfd/LifeTests.antt =====
-- The MFD keyboard driver from its probe on.
use meta_picocalc.Prelude.{◌≡◌, refl, true, false, [], ◌∷◌, ok}
use meta_picocalc.Kbd.Fifo.{Ctx}
use meta_picocalc.Kbd.Valid.{IsValid}
use meta_picocalc.Kbd.Poll.Defs.{
  InputCore, Driver, absent, polling, capabilities, input_probe, kbd_timer_function, Reach, here,
  next, fires,
}
use meta_picocalc.Kbd.Poll.Bound.{IsPolling, polling-IsPolling}
use meta_picocalc.Kbd.Poll.Keybits.{lookup}
use meta_picocalc.Kbd.Mfd.Codes.{keycodes}
use meta_picocalc.Kbd.Mfd.Declared.{IsDeclared, batch-IsDeclared}
use meta_picocalc.Kbd.Mfd.Handler.{report_all}
use meta_picocalc.Kbd.Mfd.Mouse.{press}
use meta_picocalc.Prelude.{All}
use meta_picocalc.Kbd.Mfd.Life.{probe, handled, Handles, probe-IsPolling, IsPolling-goes_on}
use meta_picocalc.Kbd.Mfd.Tests.{scripted, fresh, fresh-IsValid, table, clock, typing}

abbrev willing : InputCore
willing = record { kzalloc = true; kmemdup = true; allocate_device = true; register_device = ok tt }

abbrev started : Driver Ctx
started = (probe true willing 5 (absent fresh)).0

abbrev ticked : Driver Ctx
ticked = kbd_timer_function (record started { timer = false })

probe-IsPolling_example : IsPolling IsValid ticked
unfolding probe input_probe
probe-IsPolling_example =
    probe-IsPolling scripted true willing 5 fresh ticked refl (next here (fires refl))

abbrev live : Driver Ctx
live = polling keycodes fresh

live-IsPolling : IsPolling IsValid live
live-IsPolling = polling-IsPolling IsValid keycodes fresh fresh-IsValid

IsPolling-goes_on_example :
    (e : Driver Ctx) × Reach (Handles scripted) live e
    × (e.ctx ≡ handled scripted table clock typing fresh)
    × IsPolling IsValid e
IsPolling-goes_on_example = IsPolling-goes_on scripted live table clock typing live-IsPolling

-- the same with the work queued
abbrev queued : Driver Ctx
queued = record live { work = true }

queued-IsPolling : IsPolling IsValid queued
queued-IsPolling = record {
  good = fresh-IsValid;
  memory = refl;
  g_ctx = refl;
  timer = refl;
  fault = refl;
}

batch-IsDeclared_example :
    All
      (IsDeclared (capabilities keycodes))
      (report_all (lookup keycodes) clock 0 (press b'a' ∷ press 0xD1 ∷ []) fresh).1
batch-IsDeclared_example = batch-IsDeclared clock 0 (press b'a' ∷ press 0xD1 ∷ []) fresh
