-- ===== src/Lcd/Probe/Outcome.antt =====
-- What a probe of the display leaves, for every way in which it can fail.
use meta_picocalc.Prelude.{
  ℕ, ◌/◌, ◌≡◌, refl, arith, ap₂, sym, subst, ◌∙◌, ◌-◌, ◌+◌, Bool, true, false, ◌&&◌, if◌then◌else◌,
  List, [], ◌∷◌, ◌++◌, none, some, Result, ok, err, enomem, length-replicate, replicate,
}
use meta_picocalc.Kernel.{is_ok}
use meta_picocalc.Lcd.Panel.{Par, Out, gpio, cs, dc, payload}
use meta_picocalc.Lcd.Command.{init_display, set_addr_win}
use meta_picocalc.Lcd.Update.{IsReady, update_display, update_display_lem, picture, dec}
use meta_picocalc.Lcd.Vmem.Stream.{refilled}
use meta_picocalc.Lcd.Probe.Defs.{
  Display, FbCore, Bound, unbound, display, display_3bit, extent, par_of, info_565, of_config,
  first_update, hw_init, probe, remove,
}

module _ (three dither : Bool) (k : FbCore) where
  -- the allocations whose failure goes to `alloc_fail`, and those whose failure returns -ENOMEM
  abbrev pub early : Bool
  early = k.vzalloc && (k.fb_ops && k.fb_defio)

  abbrev pub late : Bool
  late = k.framebuffer_alloc && (k.buf && k.txbuf)

  -- When the memory of the screen, the operations or the deferred work cannot be allocated, the probe
  -- returns 0 with no memory and no driver data, and the remove that follows uses the null pointer.
  pub early_failure_lem :
      early ≡ false
      → let (b, r) = probe three dither k unbound in
        (r ≡ ok tt) × (b.vmem ≡ false) × (b.drvdata ≡ none) × ((remove b).fault ≡ true)
  unfolding probe remove
  early_failure_lem h = ground (arith, h)

  -- When one of the later allocations fails, the probe returns ENOMEM; nobody frees the memory of the
  -- screen, and no driver data leads to it.
  pub late_failure_lem :
      early ≡ true
      → late ≡ false
      → let (b, r) = probe three dither k unbound in
        (r ≡ err enomem) × (b.vmem ≡ true) × (b.drvdata ≡ none)
  unfolding probe
  late_failure_lem e l = ground (arith, e, l)

  abbrev pub shape : Display
  shape = if three then display_3bit else display

  abbrev pub blank_par : Par
  blank_par = par_of shape three dither

  -- where the pins are asked for
  abbrev pub described : Bound
  described = record unbound {
    vmem = true;
    info = some info_565;
    delay = some (k.hz / shape.fps);
    drvdata = some blank_par;
  }

  abbrev pub updated : Bound
  updated = first_update blank_par (hw_init three (of_config k described).0)

  last_call :
      early ≡ true
      → late ≡ true
      → probe three dither k unbound ≡ (
        record updated {
          vmem = if is_ok k.register_framebuffer then updated.vmem else false;
          registered = if is_ok k.register_framebuffer then true else updated.registered;
          unblanked = if is_ok k.register_framebuffer then true else updated.unblanked;
        },
        ok tt,
      )
  unfolding probe
  last_call e l = ground (arith, e, l)

-- Asking for the pins changes the pins only.
of_config_keeps :
    (k : FbCore) (b : Bound)
    → let b' = (of_config k b).0 in b' ≡ record b { rst = b'.rst; dc = b'.dc; cs = b'.cs }
unfolding of_config
of_config_keeps k b = ground arith

first_update_lem :
    (par par' : Par) (o : List Out) (b : Bound)
    → IsReady par
    → update_display par 0 319 ≡ some (par', o)
    → first_update par b ≡ record b { drvdata = some par'; outs = b.outs ++ o }
unfolding first_update
first_update_lem par par' o b h q =
    let n : dec par.yres ≡ 319 = rw (h.height) refl in rw (n, q) refl

updated_lem :
    (three : Bool) (k : FbCore) (b : Bound) (par par' : Par) (o : List Out)
    → IsReady par
    → update_display par 0 319 ≡ some (par', o)
    → b.outs ≡ []
    → let u = first_update par (hw_init three (of_config k b).0) in
      (u.drvdata ≡ some par')
      × (u.outs ≡ init_display three ++ o)
      × (u.info ≡ b.info)
      × (u.hung ≡ b.hung)
      × (u.vmem ≡ b.vmem)
      × (u.registered ≡ b.registered)
unfolding hw_init
updated_lem three k b par par' o h q n =
    rw (first_update_lem par par' o (hw_init three (of_config k b).0) h q, of_config_keeps k b, n)
      (refl, refl, refl, refl, refl, refl)

if_allocated : (c v : Bool) → v ≡ true → (if c then v else false) ≡ c
if_allocated true v h = h
if_allocated false v h = refl

if_registered : (c v : Bool) → v ≡ false → (if c then true else v) ≡ c
if_registered true v h = refl
if_registered false v h = h

module _ (dither : Bool) where
  par_of-IsReady :
      (d : Display) (three : Bool)
      → extent d ≡ (320, 320)
      → d.bpp ≡ 16
      → IsReady (par_of d three dither)
  par_of-IsReady d three e p =
      rw (e, p)
        (record {
          width = refl;
          height = refl;
          line = refl;
          size = refl;
          buffered = record {
            buf = replicate 307200 0;
            there = refl;
            size = length-replicate {A = ℕ} 307200 0;
            room = omega arith;
          };
        })

  blank_par-IsReady : (three : Bool) (k : FbCore) → IsReady (blank_par three dither k)
  unfolding extent
  blank_par-IsReady true k = par_of-IsReady display_3bit true refl refl
  blank_par-IsReady false k = par_of-IsReady display false refl refl

module _ (three dither : Bool) (k : FbCore) where
  -- What a probe with all its allocations comes to. It returns 0, also where it gets no pin, and also
  -- where the frame buffer cannot be registered: the memory of the screen is freed then, while the
  -- driver data still leads to it.
  abbrev pub IsProbed : Bound × Result (Unit {0}) → Type 0
  IsProbed (b, r) =
      (par : Par) × (outs : List Out) × (r ≡ ok tt)
      × (b.drvdata ≡ some par)
      × IsReady par
      × (b.info ≡ some info_565)
      × (b.hung ≡ false)
      × (b.outs
          ≡ init_display three
            ++ (gpio cs 0 ∷ (set_addr_win 0 0 319 319 ++ (gpio dc 1 ∷ (outs ++ (gpio cs 1 ∷ []))))))
      × (payload outs ≡ picture par 0 320)
      × (par.vmem ≡ (blank_par three dither k).vmem)
      × (par.p_3bit_mode ≡ three)
      × (par.p_dither ≡ dither)
      × (b.vmem ≡ is_ok k.register_framebuffer)
      × (b.registered ≡ is_ok k.register_framebuffer)

  -- When every allocation succeeds, the probe ends and returns 0. It has put the start-up sequence
  -- and one whole picture of black memory on the bus, and the display is set up as the updates need
  -- it, for 16-bit colours. The memory of the screen is kept, and the frame buffer registered, just
  -- when the registration succeeds; the driver data is there in both cases.
  pub probe_lem :
      early three dither k ≡ true
      → late three dither k ≡ true
      → IsProbed (probe three dither k unbound)
  probe_lem e l =
      let p = blank_par three dither k in
      let (s, x, buf, outs, q, sent, ready, _, _, keep, _) =
        update_display_lem p 0 319 (blank_par-IsReady dither three k) in
      let (from, upto) = keep (omega arith) (omega arith) in
      let (d, o, i, hung, v, r) =
        updated_lem three k (described three dither k) p (refilled p buf) _
          (blank_par-IsReady dither three k) q refl in
      subst IsProbed (sym (last_call three dither k e l)) (
        refilled p buf,
        outs,
        refl,
        d,
        ready,
        i,
        hung,
        o
            ∙ ap₂
                (λ s x.
                  init_display three
                  ++ (gpio cs 0
                      ∷ (set_addr_win 0 s 319 x ++ (gpio dc 1 ∷ (outs ++ (gpio cs 1 ∷ []))))))
                from upto,
        sent ∙ ap₂ (λ s x. picture p s (x - s + 1)) from upto,
        refl,
        refl,
        refl,
        if_allocated (is_ok k.register_framebuffer) _ v,
        if_registered (is_ok k.register_framebuffer) _ r,
      )
