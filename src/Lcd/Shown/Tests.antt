-- ===== src/Lcd/Shown/Tests.antt =====
-- A 3-bit screen that dithers, painted black, written through a mapping, and refreshed.
use meta_picocalc.Prelude.{ℕ, ◌<◌, ◌≡◌, refl, true, List, [], some, Result, ok, replicate}
use meta_picocalc.Lcd.Shown.Defs.{
  Screen, IsLine, refresh, here, next, writes, maps, written, mapped,
}
use meta_picocalc.Lcd.Probe.{unbound, probe, IsProbed, probe_lem}
use meta_picocalc.Lcd.ProbeTests.{full}
use meta_picocalc.Lcd.Shown.Boot.{booted, probe-refresh_shows}
use meta_picocalc.Lcd.Shown.Sent.{frame}

abbrev black : List ℕ → List ℕ × Result ℕ
black vmem = (replicate 102400 0, ok 204800)

-- the probe of a display whose frame buffer is registered
abbrev bound : IsProbed true true full (probe true true full unbound)
bound = probe_lem true true full refl refl

abbrev bound_screen : Screen
bound_screen = booted bound.0 (frame 0 319 bound.1) (λ l. [])

-- a write of black, then a mapped write that happens to change nothing
abbrev touched : Screen
touched = mapped (λ vmem. vmem) 8192 (written black bound_screen)

probe-refresh_shows_example :
    (u : Screen) × (refresh touched ≡ some u)
    × (u.fb.par.vmem ≡ touched.fb.par.vmem)
    × ((l : ℕ) → l < 320 → IsLine true true touched.fb.par.vmem l (u.shown l))
probe-refresh_shows_example =
    probe-refresh_shows true true full bound.0 (frame 0 319 bound.1) (λ l. []) touched refl refl
      bound.3 bound.7
      (next (next here (writes black)) (maps (λ vmem. vmem) 8192 (λ vmem l h. refl)))
