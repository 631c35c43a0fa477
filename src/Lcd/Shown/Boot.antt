-- ===== src/Lcd/Shown/Boot.antt =====
-- From the probe on: the first update has sent every line.
use meta_picocalc.Prelude.{
  refl, ℕ, ◌<◌, ◌≡◌, arith, sym, subst, ◌∙◌, Bool, true, false, List, [], ◌++◌, some,
}
use mathlib.Core.Option.{some-injective}
use mathlib.Core.List.{append_cancel_left}
use meta_picocalc.Lcd.Panel.{Par, Out, payload}
use meta_picocalc.Lcd.Command.{init_display}
use meta_picocalc.Lcd.Update.{IsReady, picture}
use meta_picocalc.Lcd.Probe.{FbCore, unbound, probe, probe_lem, early, late}
use meta_picocalc.Lcd.Shown.Defs.{Screen, IsLine, received, refresh, Reach}
use meta_picocalc.Lcd.Shown.Encode.{width}
use meta_picocalc.Lcd.Shown.Sent.{IsFaithful, frame, received_lem, sent_line, shown_line}
use meta_picocalc.Lcd.Shown.Faithful.{refresh_shows}

-- the screen after an update that put `outs` on the bus; `before` is what was sent before it
abbrev pub booted : Par → List Out → (ℕ → List ℕ) → Screen
booted par outs before = record {
  fb = record { par = par; deferred_work = false };
  pages = [];
  shown = received (width par.p_3bit_mode) (payload outs) before;
}

booted-IsFaithful :
    (par : Par) (outs : List Out) (before : ℕ → List ℕ)
    → IsReady par
    → payload outs ≡ picture par 0 320
    → IsFaithful par.p_3bit_mode par.p_dither (booted par (frame 0 319 outs) before)
booted-IsFaithful par outs before r h = record {
  ready = r;
  three = refl;
  dither = refl;
  same = λ l k _ _.
      let P = IsLine par.p_3bit_mode par.p_dither par.vmem l in
      subst P
        (sym (received_lem (width par.p_3bit_mode) 0 319 l outs before (omega arith) (omega arith)))
        (shown_line P 0 319 l _ _ (sent_line par 0 319 l (payload outs) r h)
          (λ w. absurd (w (omega arith, omega (arith, k)))));
}

-- After a probe with all its allocations, in each mode of the panel, where `par` is what the driver
-- data leads to and `outs` what was put on the bus after the start-up sequence: whatever was drawn,
-- written or mapped and however often it was refreshed since, a refresh ends, keeps the memory, and
-- then the bytes last sent for each line of the display are those of the memory, in the mode that
-- the probe was told; where it dithers, with the thresholds of an update that starts at that line
-- or above.
pub probe-refresh_shows :
    (three dither : Bool) (k : FbCore) (par : Par) (outs : List Out) (before : ℕ → List ℕ)
    (t : Screen)
    → early three dither k ≡ true
    → late three dither k ≡ true
    → (probe three dither k unbound).0.drvdata ≡ some par
    → (probe three dither k unbound).0.outs ≡ init_display three ++ outs
    → Reach (booted par outs before) t
    → (u : Screen) × (refresh t ≡ some u)
      × (u.fb.par.vmem ≡ t.fb.par.vmem)
      × ((l : ℕ) → l < 320 → IsLine three dither t.fb.par.vmem l (u.shown l))
probe-refresh_shows three dither k par outs before t e l d o r =
    let (p, pixels, _, d', ready, _, _, o', sent, _, bits, dithers, _, _) =
      probe_lem three dither k e l in
    let same_par : p ≡ par = some-injective p par (sym d' ∙ d) in
    let same_outs : frame 0 319 pixels ≡ outs =
      append_cancel_left (init_display three) (frame 0 319 pixels) outs (sym o' ∙ o) in
    let own : IsFaithful p.p_3bit_mode p.p_dither (booted p (frame 0 319 pixels) before) =
      booted-IsFaithful p pixels before ready sent in
    let faithful : IsFaithful three dither (booted p (frame 0 319 pixels) before) = record {
      ready = own.ready;
      three = bits;
      dither = dithers;
      same = own.same;
    } in
    refresh_shows (booted par outs before) t
      (subst (λ x. IsFaithful three dither (booted x outs before)) same_par
        (subst (λ x. IsFaithful three dither (booted p x before)) same_outs faithful))
      r
