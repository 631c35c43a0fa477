-- ===== src/Lcd/Shown/Faithful.antt =====
-- After a refresh every line of the display is the one that was last sent.
use meta_picocalc.Prelude.{
  ℕ, ◌+◌, ◌≤◌, ◌<◌, ◌≡◌, ap, sym, subst, ◌∙◌, List, inl, inr, some, Result, Bool,
}
use mathlib.Core.Option.{some-injective}
use meta_picocalc.Lcd.Dirty.Draw.{draw_marks, draw-IsReady, drawn-vmem}
use meta_picocalc.Lcd.Dirty.Defs.{Area, mkdirty, fb_draw, fb_write, minus_one}
use meta_picocalc.Lcd.Dirty.Covers.{mkdirty_all, IsReady-marked}
use meta_picocalc.Lcd.Shown.Defs.{
  Screen, IsLine, IsLine-row, row, refresh, drawn, written, mapped, Touches, Step, draws, writes,
  maps, refreshes, Reach, here, next,
}
use meta_picocalc.Lcd.Shown.Sent.{IsFaithful, refresh_lem}

module _ {m d : Bool} where
  drawn-IsFaithful :
      (s : Screen) (sys : List ℕ → List ℕ) (area : Area)
      → area.dy + area.height ≤ 320
      → ((vmem : List ℕ) (l : ℕ)
          → ¬ ((area.dy ≤ l) × l < area.dy + area.height)
          → row (sys vmem) l ≡ row vmem l)
      → IsFaithful m d s
      → IsFaithful m d (drawn sys area s)
  unfolding fb_draw mkdirty
  drawn-IsFaithful s sys area h local f =
      let (adds, keeps) = draw_marks sys area s.fb h in
      record {
        ready = draw-IsReady sys area s.fb f.ready;
        three = f.three;
        dither = f.dither;
        same = λ l k m p.
            IsLine-row s.fb.par.vmem (drawn sys area s).fb.par.vmem
              (ap (λ v. row v l) (drawn-vmem sys area s.fb)
                ∙ local s.fb.par.vmem l (λ w. m (adds l w.0 w.1)))
              (f.same l k (λ w. m (keeps l w)) p);
      }

  written-IsFaithful :
      (s : Screen) (sys : List ℕ → List ℕ × Result ℕ)
      → IsFaithful m d s
      → IsFaithful m d (written sys s)
  unfolding fb_write mkdirty
  written-IsFaithful s sys f =
      let fb = record s.fb { par = record s.fb.par { vmem = (sys s.fb.par.vmem).0 } } in
      let p = (mkdirty minus_one 0 fb).par in
      record {
        ready = IsReady-marked s.fb.par p.vmem p.dirty_lines_start p.dirty_lines_end f.ready;
        three = f.three;
        dither = f.dither;
        same = λ l k m _. absurd (m (mkdirty_all fb 0 l f.ready.height k));
      }

  mapped-IsFaithful :
      (s : Screen) (g : List ℕ → List ℕ) (page : ℕ)
      → ((vmem : List ℕ) (l : ℕ) → ¬ Touches page l → row (g vmem) l ≡ row vmem l)
      → IsFaithful m d s
      → IsFaithful m d (mapped g page s)
  mapped-IsFaithful s g page local f = record {
    ready =
        IsReady-marked s.fb.par (g s.fb.par.vmem) s.fb.par.dirty_lines_start
          s.fb.par.dirty_lines_end f.ready;
    three = f.three;
    dither = f.dither;
    same = λ l k m p.
        IsLine-row s.fb.par.vmem (g s.fb.par.vmem) (local s.fb.par.vmem l (λ w. p (inl w)))
          (f.same l k m (λ w. p (inr w)));
  }

  refreshed-IsFaithful : (s t : Screen) → refresh s ≡ some t → IsFaithful m d s → IsFaithful m d t
  refreshed-IsFaithful s t h f =
      let (u, e, g, _, _) = refresh_lem s f in
      subst (IsFaithful m d) (some-injective u t (sym e ∙ h)) g

  Step-IsFaithful : {s t : Screen} → Step s t → IsFaithful m d s → IsFaithful m d t
  Step-IsFaithful {s} (draws sys area h local) f = drawn-IsFaithful s sys area h local f
  Step-IsFaithful {s} (writes sys) f = written-IsFaithful s sys f
  Step-IsFaithful {s} (maps g page local) f = mapped-IsFaithful s g page local f
  Step-IsFaithful {s} {t} (refreshes h) f = refreshed-IsFaithful s t h f

  Reach-IsFaithful : {s t : Screen} → Reach s t → IsFaithful m d s → IsFaithful m d t
  Reach-IsFaithful here f = f
  Reach-IsFaithful (next r h) f = Step-IsFaithful h (Reach-IsFaithful r f)

  -- From a faithful screen, after any drawing calls on areas of the screen, writes, mapped writes
  -- and refreshes, in any order, a refresh ends, keeps the memory, and then the bytes last sent for
  -- each line of the display are those of the memory, in the mode of the panel.
  pub refresh_shows :
      (s t : Screen)
      → IsFaithful m d s
      → Reach s t
      → (u : Screen) × (refresh t ≡ some u)
        × (u.fb.par.vmem ≡ t.fb.par.vmem)
        × ((l : ℕ) → l < 320 → IsLine m d t.fb.par.vmem l (u.shown l))
  refresh_shows s t f r =
      let (u, e, g, kept, all) = refresh_lem t (Reach-IsFaithful r f) in
      (
        u,
        e,
        kept,
        λ l k. IsLine-row u.fb.par.vmem t.fb.par.vmem (ap (λ v. row v l) (sym kept)) (
            subst (λ x. IsLine m x u.fb.par.vmem l (u.shown l)) g.dither
              (subst (λ x. IsLine x u.fb.par.p_dither u.fb.par.vmem l (u.shown l)) g.three
                (all l k))),
      )
