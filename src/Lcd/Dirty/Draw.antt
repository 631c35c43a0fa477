-- ===== src/Lcd/Dirty/Draw.antt =====
-- Drawing and refreshing together: fillrect, copyarea and imageblit calls, then the deferred work.
use meta_picocalc.Prelude.{
  ℕ, ◌+◌, ◌-◌, ◌≤◌, ◌<◌, ◌≡◌, refl, arith, false, List, [], ◌∷◌, ◌++◌, some, ap, ◌∙◌, ◌⊎◌, inl, inr,
}
use meta_picocalc.Lcd.Panel.{Out, gpio, cs, dc, payload}
use meta_picocalc.Lcd.Command.{set_addr_win}
use meta_picocalc.Lcd.Update.{IsReady, picture}
use meta_picocalc.Lcd.Vmem.Stream.{refilled}
use meta_picocalc.Lcd.Dirty.Defs.{Fb, Area, mkdirty, fb_draw, deferred_io}
use meta_picocalc.Lcd.Dirty.Covers.{
  IsMarked, IsWithin, IsReady-marked, mkdirty_marks, deferred_io_lem, whole_screen,
}

-- one call: what it does to the memory, and its area
abbrev pub Draw : Type 0
Draw = (List ℕ → List ℕ) × Area

abbrev pub draw_all : List Draw → Fb → Fb
draw_all [] fb = fb
draw_all ((sys, area) ∷ ds) fb = draw_all ds (fb_draw sys area fb)

-- the memory after the calls
abbrev pub painted : List Draw → List ℕ → List ℕ
painted [] vmem = vmem
painted ((sys, area) ∷ ds) vmem = painted ds (sys vmem)

abbrev pub IsOnScreen : List Draw → Type 0
IsOnScreen [] = Unit {0}
IsOnScreen ((sys, area) ∷ ds) = (area.dy + area.height ≤ 320) × IsOnScreen ds

-- Line `l` belongs to the area of one of the calls.
abbrev pub IsDrawn : ℕ → List Draw → Type 0
IsDrawn l [] = ⊥
IsDrawn l ((sys, area) ∷ ds) = ((area.dy ≤ l) × l < area.dy + area.height) ⊎ IsDrawn l ds

module _ (sys : List ℕ → List ℕ) (area : Area) (fb : Fb) where
  abbrev painted_once : Fb
  painted_once = record fb { par = record fb.par { vmem = sys fb.par.vmem } }

  pub draw_marks :
      area.dy + area.height ≤ 320
      → ((l : ℕ) → area.dy ≤ l → l < area.dy + area.height → IsMarked l (fb_draw sys area fb).par)
        × ((l : ℕ) → IsMarked l fb.par → IsMarked l (fb_draw sys area fb).par)
  unfolding fb_draw
  draw_marks h = mkdirty_marks area.dy area.height painted_once h

  pub draw-IsReady : IsReady fb.par → IsReady (fb_draw sys area fb).par
  unfolding fb_draw mkdirty
  draw-IsReady h =
      let p = (fb_draw sys area fb).par in
      IsReady-marked fb.par p.vmem p.dirty_lines_start p.dirty_lines_end h

  pub drawn-vmem : (fb_draw sys area fb).par.vmem ≡ sys fb.par.vmem
  unfolding fb_draw mkdirty
  drawn-vmem = refl

draws_keep :
    (ds : List Draw) (fb : Fb) (l : ℕ)
    → IsOnScreen ds
    → IsMarked l fb.par
    → IsMarked l (draw_all ds fb).par
draws_keep [] fb l h w = w
draws_keep ((sys, area) ∷ ds) fb l h w =
    draws_keep ds (fb_draw sys area fb) l h.1 ((draw_marks sys area fb h.0).1 l w)

draws_add :
    (ds : List Draw) (fb : Fb) (l : ℕ)
    → IsOnScreen ds
    → IsDrawn l ds
    → IsMarked l (draw_all ds fb).par
draws_add [] fb l h w = elim w [ ]
draws_add ((sys, area) ∷ ds) fb l h (inl w) =
    draws_keep ds (fb_draw sys area fb) l h.1 ((draw_marks sys area fb h.0).0 l w.0 w.1)
draws_add ((sys, area) ∷ ds) fb l h (inr w) = draws_add ds (fb_draw sys area fb) l h.1 w

draws-IsReady : (ds : List Draw) (fb : Fb) → IsReady fb.par → IsReady (draw_all ds fb).par
draws-IsReady [] fb h = h
draws-IsReady ((sys, area) ∷ ds) fb h =
    draws-IsReady ds (fb_draw sys area fb) (draw-IsReady sys area fb h)

draws-vmem : (ds : List Draw) (fb : Fb) → (draw_all ds fb).par.vmem ≡ painted ds fb.par.vmem
draws-vmem [] fb = refl
draws-vmem ((sys, area) ∷ ds) fb =
    draws-vmem ds (fb_draw sys area fb) ∙ ap (painted ds) (drawn-vmem sys area fb)

on_screen : (ds : List Draw) (l : ℕ) → IsOnScreen ds → IsDrawn l ds → l < 320
on_screen [] l h w = elim w [ ]
on_screen ((sys, area) ∷ ds) l h (inl w) = omega (arith, h.0, w.1)
on_screen ((sys, area) ∷ ds) l h (inr w) = on_screen ds l h.1 w

-- Fill, copy and blit calls on areas of the screen, in any number, then the deferred work, on a
-- display as the probe sets it up and whatever the kernel's own drawing routines do to the memory:
-- the work ends and sends a range of lines, among them every line of every call's area, with the
-- contents of the memory after the last call.
draw-refresh :
    (ds : List Draw) (pagelist : List ℕ) (fb : Fb)
    → IsReady fb.par
    → IsOnScreen ds
    → (s : ℕ) × (e : ℕ) × (fb' : Fb) × (outs : List Out) × (deferred_io pagelist (draw_all ds fb)
        ≡ some
            (fb', gpio cs 0 ∷ (set_addr_win 0 s 319 e ++ (gpio dc 1 ∷ (outs ++ (gpio cs 1 ∷ []))))))
      × (payload outs ≡ picture (draw_all ds fb).par s (e - s + 1))
      × ((draw_all ds fb).par.vmem ≡ painted ds fb.par.vmem)
      × ((l : ℕ) → IsDrawn l ds → IsWithin l (s, e))
      × IsReady fb'.par
draw-refresh ds pagelist fb h on =
    let after = draw_all ds fb in
    let (s, e, buf, outs, eq, sent, ready, marks, pages, _, _) =
      deferred_io_lem pagelist after (draws-IsReady ds fb h) in
    (
      s,
      e,
      record { par = refilled (whole_screen after.par) buf; deferred_work = false },
      outs,
      eq,
      sent,
      draws-vmem ds fb,
      λ l w. marks l (on_screen ds l on w) (draws_add ds fb l on w),
      ready,
    )
