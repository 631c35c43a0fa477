-- ===== src/Lcd/Race/Tests.antt =====
-- A fill draws while a refresh runs that a mapped write has scheduled.
use meta_picocalc.Prelude.{ℕ, refl, inr, arith, ◌≡◌, ◌<◌, ap, ◌∙◌}
use meta_picocalc.Lcd.Grey.{grey, grey-IsReady}
use meta_picocalc.Lcd.Update.{clamp}
use meta_picocalc.Lcd.Dirty.Defs.{merge_pages, merge_page}
use meta_picocalc.Lcd.Race.Defs.{
  Call, outside, drawing, marked, System, update, pixel, first, begins, draws, marks, schedules,
  faults, stores, starts, reads, Reach, here, next,
}
use meta_picocalc.Lcd.Race.Quiet.{resting, quiet_shows, work_shows, IsDone, Reach-work}

abbrev fill : Call
fill = record { y = 10; height = 2 }

unfoldable reached : (t : System) × Reach (resting grey) t
unfolding clamp merge_pages merge_page
reached = (
  _,
  next
      (next
        (next
          (next
            (next
              (next (next (next here (begins 0 fill refl (inr (omega arith)))) (faults 0))
                (stores 0 5 9 first (omega arith, omega arith)))
              (starts refl refl))
            (draws 0 fill 3200 7 refl (inr (omega arith, omega arith))))
          (reads (record { cur = 0; end = 2240 }) refl (omega arith)))
        (marks 0 fill refl))
      (schedules 0 fill refl),
)

restored :
    (i : ℕ)
    → update (update (update (λ i. outside) 0 (drawing fill)) 0 (marked fill)) 0 outside i ≡ outside
restored i = ground arith

-- the fill has returned
out : (i : ℕ) → reached.0.stage i ≡ outside
unfolding reached
out i = restored i

work_shows_example :
    (u : System) × IsDone reached.0 u × ((p : ℕ) → p < 102400 → u.read p ≡ pixel reached.0 p)
work_shows_example = work_shows grey reached.0 grey-IsReady reached.1 out

abbrev done : System
done = work_shows_example.0

quiet_shows_example : done.read 3200 ≡ pixel done 3200
quiet_shows_example =
    let d = work_shows_example.1 in
    quiet_shows grey done grey-IsReady (Reach-work reached.1 d.work)
      (λ i. ap (λ f. f i) d.same_stage ∙ out i) d.idle d.unscheduled 3200 (omega arith)
