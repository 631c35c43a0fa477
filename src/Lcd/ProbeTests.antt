-- ===== src/Lcd/ProbeTests.antt =====
-- The probe of the display with a core that registers it, and with one that lacks memory.
use meta_picocalc.Prelude.{ℕ, ◌≡◌, refl, true, false, none, ok, err}
use meta_picocalc.Gpio.{Wiring}
use meta_picocalc.Lcd.Probe.{FbCore, unbound, probe, remove, IsProbed, probe_lem, early_failure_lem}

abbrev absent_pin : Wiring
absent_pin = record { property = false; named = err 2; active_low = false; request = ok tt }

abbrev pin : ℕ → Wiring
pin n = record { property = true; named = ok n; active_low = true; request = ok tt }

abbrev pub full : FbCore
full = record {
  hz = 300;
  vzalloc = true;
  fb_ops = true;
  fb_defio = true;
  framebuffer_alloc = true;
  buf = true;
  txbuf = true;
  rst = pin 4;
  dc = pin 5;
  cs = absent_pin;
  register_framebuffer = ok tt;
}

probe_lem_example : IsProbed true false full (probe true false full unbound)
probe_lem_example = probe_lem true false full refl refl

early_failure_lem_example :
    let (b, r) = probe false false (record full { fb_ops = false }) unbound in
    (r ≡ ok tt) × (b.vmem ≡ false) × (b.drvdata ≡ none) × ((remove b).fault ≡ true)
early_failure_lem_example = early_failure_lem false false (record full { fb_ops = false }) refl
