-- ===== src/Lcd/Race/Quiet.antt =====
-- When nothing is left to do, every pixel was last read as it is in the memory, and the deferred work
-- by itself comes to that.
use meta_picocalc.Prelude.{
  zero, suc, ℕ, refl, Option, inl, ◌∙◌, false, ◌≡◌, Bool, [], ap, none, ◌<◌, some, ◌≤◌, arith,
  get_or, inr, ◌+◌, suc, true,
}
use native.Mathlib.Decide.{dec_le}
use meta_picocalc.Lcd.Panel.{Par}
use meta_picocalc.Lcd.Update.{IsReady}
use meta_picocalc.Lcd.Race.Defs.{
  outside, Flight, System, pixel, taken, Step, begins, draws, marks, schedules, faults, stores,
  starts, reads, ends, Reach, next, update,
}
use meta_picocalc.Lcd.Race.Kept.{Excused, drawn, unscheduled, pending, paged, flying, IsKept}
use meta_picocalc.Lcd.Race.Takes.{Step-IsKept, Reach-IsKept}

-- every pixel of the memory has been read, and nobody draws
abbrev pub resting : Par → System
resting par = record {
  fb = record { par = par; deferred_work = false };
  stage = λ i. outside;
  pages = [];
  flight = none;
  read = λ p. get_or par.vmem p 0;
}

resting-IsKept : (par : Par) → IsReady par → IsKept (resting par)
resting-IsKept par h = record {
  ready = h;
  on = λ i c e. absurd cc;
  held = λ o m. elim m [ ];
  settled = λ p k. inl refl;
}

module _ (s : System) (out : (i : ℕ) → s.stage i ≡ outside) (idle : s.flight ≡ none) where
  unexcused : (p : ℕ) → s.fb.deferred_work ≡ false → ¬ Excused s p
  unexcused p n (drawn i c e l) = let o = out i in cc
  unexcused p n (unscheduled i c e m) = let o = out i in cc
  unexcused p n (pending m d) = cc
  unexcused p n (paged o h b d) = cc
  unexcused p n (flying f e x y) = cc

  kept_shows : IsKept s → s.fb.deferred_work ≡ false → (p : ℕ) → p < 102400 → s.read p ≡ pixel s p
  kept_shows k n p h = elim (k.settled p h) [ inl e ↦ e | inr x ↦ absurd (unexcused p n x) ]

-- From a screen whose pixels were all read, after drawing calls on areas of the screen, writes and
-- mapped writes by any number of threads and refreshes, in any order of the steps that the locks
-- leave apart: when no call is under way, no refresh runs and none is scheduled, each pixel of the
-- memory was last read, for the transmit buffer, as it is.
pub quiet_shows :
    (par : Par) (t : System)
    → IsReady par
    → Reach (resting par) t
    → ((i : ℕ) → t.stage i ≡ outside)
    → t.flight ≡ none
    → t.fb.deferred_work ≡ false
    → (p : ℕ) → p < 102400
    → t.read p ≡ pixel t p
quiet_shows par t h r out idle d = kept_shows t out idle (Reach-IsKept r (resting-IsKept par h)) d

-- a step of the deferred work
abbrev pub is_work : {s t : System} → Step s t → Bool
is_work (starts n d) = true
is_work (reads f e lt) = true
is_work (ends f e le) = true
is_work (begins i c o on) = false
is_work (draws i c p v a d) = false
is_work (marks i c a) = false
is_work (schedules i c a) = false
is_work (faults o) = false
is_work (stores o p v h b) = false

-- steps of the deferred work alone
pub data Work : System → System → Type 0 where
  rests : {s : System} → Work s s
  works : {s t u : System} (h : Step s t) → is_work h ≡ true → Work t u → Work s u

Work-IsKept : {s t : System} → Work s t → IsKept s → IsKept t
Work-IsKept rests k = k
Work-IsKept (works h _ w) k = Work-IsKept w (Step-IsKept h k)

Work-append : {s t u : System} → Work s t → Work t u → Work s u
Work-append rests v = v
Work-append (works h i w) v = works h i (Work-append w v)

pub Reach-work : {s t u : System} → Reach s t → Work t u → Reach s u
Reach-work r rests = r
Reach-work r (works h _ w) = Reach-work (next r h) w

-- the work comes from `s` to the end of its refresh
record IsDrained (s u : System) : Type 0 where
  work : Work s u
  same_fb : u.fb ≡ s.fb
  same_stage : u.stage ≡ s.stage
  idle : u.flight ≡ none

stop : (s : System) (f : Flight) → s.flight ≡ some f → f.end ≤ f.cur → (u : System) × IsDrained s u
stop s f e h = (
  record s { flight = none },
  record { work = works (ends f e h) refl rests; same_fb = refl; same_stage = refl; idle = refl },
)

drain :
    (n : ℕ) (s : System) (f : Flight)
    → s.flight ≡ some f
    → f.end ≤ f.cur + n
    → (u : System) × IsDrained s u
drain zero s f e h = stop s f e (omega arith)
drain (suc n) s f e h = elim (dec_le f.end f.cur) [
  | yes le ↦ stop s f e le
  | no gt ↦
      let lt : f.cur < f.end = omega (arith, gt) in
      let t = record s {
        flight = some (record f { cur = f.cur + 1 });
        read = update s.read f.cur (pixel s f.cur);
      } in
      let (u, d) = drain n t (record f { cur = f.cur + 1 }) refl (omega (arith, h)) in
      (
        u,
        record {
          work = works (reads f e lt) refl d.work;
          same_fb = d.same_fb;
          same_stage = d.same_stage;
          idle = d.idle;
        },
      )
]

idle_of : (s : System) (o : Option Flight) → s.flight ≡ o → (u : System) × IsDrained s u
idle_of s none e = (s, record { work = rests; same_fb = refl; same_stage = refl; idle = e })
idle_of s (some f) e = drain f.end s f e (omega arith)

-- the work runs once more when it is scheduled
pub record IsDone (s u : System) : Type 0 where
  pub work : Work s u
  pub same_vmem : u.fb.par.vmem ≡ s.fb.par.vmem
  pub same_stage : u.stage ≡ s.stage
  pub idle : u.flight ≡ none
  pub unscheduled : u.fb.deferred_work ≡ false

once :
    (s : System) (b : Bool) → s.fb.deferred_work ≡ b → s.flight ≡ none → (u : System) × IsDone s u
once s false e n =
    (s, record { work = rests; same_vmem = refl; same_stage = refl; idle = n; unscheduled = e })
once s true e n =
    let (u, d) = idle_of (taken s) (taken s).flight refl in
    (
      u,
      record {
        work = works (starts n e) refl d.work;
        same_vmem = ap (λ f. f.par.vmem) d.same_fb;
        same_stage = d.same_stage;
        idle = d.idle;
        unscheduled = ap (λ f. f.deferred_work) d.same_fb;
      },
    )

finish : (s : System) → (u : System) × IsDone s u
finish s =
    let (t, d) = idle_of s s.flight refl in
    let (u, o) = once t t.fb.deferred_work refl d.idle in
    (
      u,
      record {
        work = Work-append d.work o.work;
        same_vmem = o.same_vmem ∙ ap (λ f. f.par.vmem) d.same_fb;
        same_stage = o.same_stage ∙ d.same_stage;
        idle = o.idle;
        unscheduled = o.unscheduled;
      },
    )

-- From a screen whose pixels were all read, after drawing calls on areas of the screen, writes and
-- mapped writes by any number of threads and refreshes, in any order of the steps that the locks
-- leave apart: when no call is under way, steps of the deferred work alone come to a state with the
-- same memory in which no refresh runs, none is scheduled, and each pixel of the memory was last
-- read as it is.
pub work_shows :
    (par : Par) (t : System)
    → IsReady par
    → Reach (resting par) t
    → ((i : ℕ) → t.stage i ≡ outside)
    → (u : System) × IsDone t u × ((p : ℕ) → p < 102400 → u.read p ≡ pixel t p)
work_shows par t h r out =
    let (u, d) = finish t in
    let kept : IsKept u = Work-IsKept d.work (Reach-IsKept r (resting-IsKept par h)) in
    let quiet : (i : ℕ) → u.stage i ≡ outside = λ i. ap (λ f. f i) d.same_stage ∙ out i in
    (
      u,
      d,
      λ p k. kept_shows u quiet d.idle kept d.unscheduled p k ∙ ap (λ v. get_or v p 0) d.same_vmem,
    )
