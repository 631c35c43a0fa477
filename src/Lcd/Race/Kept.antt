-- ===== src/Lcd/Race/Kept.antt =====
-- What every step keeps: each pixel was last read as it is in the memory, or is still to be read.
use meta_picocalc.Prelude.{ℕ, ◌≤◌, ◌<◌, ◌≡◌, ◌⊎◌, ◌/◌, some, true}
use meta_picocalc.Lcd.Update.{IsReady}
use meta_picocalc.Lcd.Dirty.Covers.{IsMarked}
use meta_picocalc.Lcd.Race.Defs.{
  Call, IsOnScreen, Draws, drawing, marked, Flight, System, pixel, InPage, Holds,
}

-- why pixel `p` may differ from what was last read of it
pub data Excused (s : System) (p : ℕ) : Type 0 where
  drawn : (i : ℕ) (c : Call) → s.stage i ≡ drawing c → Draws c (p / 320) → Excused s p
  unscheduled :
      (i : ℕ) (c : Call) → s.stage i ≡ marked c → IsMarked (p / 320) s.fb.par → Excused s p
  pending : IsMarked (p / 320) s.fb.par → s.fb.deferred_work ≡ true → Excused s p
  paged : (o : ℕ) → Holds s.pages o → InPage o p → s.fb.deferred_work ≡ true → Excused s p
  flying : (f : Flight) → s.flight ≡ some f → f.cur ≤ p → p < f.end → Excused s p

pub record IsKept (s : System) : Type 0 where
  pub ready : IsReady s.fb.par
  pub on : (i : ℕ) (c : Call) → s.stage i ≡ drawing c → IsOnScreen c
  pub held : (o : ℕ) → Holds s.pages o → s.fb.deferred_work ≡ true
  pub settled : (p : ℕ) → p < 102400 → (s.read p ≡ pixel s p) ⊎ Excused s p
