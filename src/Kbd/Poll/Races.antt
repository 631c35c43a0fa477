-- ===== src/Kbd/Poll/Races.antt =====
-- Around probe and remove: when the polling touches what is gone.
use meta_picocalc.Prelude.{ℕ, ◌≡◌, refl, arith, Bool, true, false, List, err}
use meta_picocalc.Kbd.Poll.Defs.{
  InputCore, Driver, absent, input_probe, input_shutdown, release, kbd_timer_function, run_work,
  Step, fires, works, Reach, here, next,
}
use meta_picocalc.Kbd.Poll.Bound.{IsPolling}

no_bit : {b : Bool} → b ≡ true → b ≡ false → ⊥
no_bit t f = cc

-- Every call answers but the last.
abbrev pub refused : ℕ → InputCore
refused e = record {
  kzalloc = true;
  kmemdup = true;
  allocate_device = true;
  register_device = err e;
}

module _ {C : Type 0} (Runs : (C → C) → Type 0) where
  -- A run of the timer and the work ends in a use of the null pointer or of freed memory.
  abbrev pub MayFault : Driver C → Type 0
  MayFault d = (e : Driver C) × Reach Runs d e × (e.fault ≡ true)

  abbrev pub NeverFaults : Driver C → Type 0
  NeverFaults d = (e : Driver C) → Reach Runs d e → e.fault ≡ false

  -- An armed timer may fire after the driver core has released the memory.
  pub armed_faults : (d : Driver C) → d.timer ≡ true → MayFault (release d)
  unfolding kbd_timer_function
  armed_faults d t =
      let stale = kbd_timer_function (record (release d) { timer = false }) in
      (stale, next here (fires t), ground arith)

  -- When only the registration of the input device fails, the probe returns that error with the timer
  -- armed, and once the driver core has released the memory the timer may fire on it.
  pub probe_failure_faults :
      (keycodes : List ℕ) (init c : C) (e : ℕ)
      → let (d, r) = input_probe (refused e) keycodes init (absent c) in
        (r ≡ err e) × (d.timer ≡ true) × MayFault (release d)
  unfolding input_probe
  probe_failure_faults keycodes init c e =
      (refl, refl, armed_faults (input_probe (refused e) keycodes init (absent c)).0 refl)

  -- A driver after shutdown and release, with no work pending: nothing can run any more.
  record IsStopped (d : Driver C) : Type 0 where
    timer : d.timer ≡ false
    work : d.work ≡ false
    fault : d.fault ≡ false

  Step-IsStopped : {d e : Driver C} → Step Runs d e → IsStopped d → IsStopped e
  Step-IsStopped (fires t) s = absurd (no_bit t s.timer)
  Step-IsStopped (works run stores h w) s = absurd (no_bit w s.work)

  Reach-IsStopped : {d e : Driver C} → Reach Runs d e → IsStopped d → IsStopped e
  Reach-IsStopped here s = s
  Reach-IsStopped (next r t) s = Step-IsStopped t (Reach-IsStopped r s)

  -- A shutdown of a polling driver, and the release of its memory after it, may end in a use of freed
  -- memory when a work is pending: the shutdown does not wait for it. With none pending, and as long as
  -- no timer function is under way at the shutdown (here it is one step), nothing can fault.
  shutdown_race :
      (Good : C → Type 0) (d : Driver C) (run : C → C)
      → Runs run
      → IsPolling Good d
      → (d.work ≡ false → NeverFaults (release (input_shutdown d)))
        × (d.work ≡ true → MayFault (release (input_shutdown d)))
  unfolding input_shutdown run_work
  shutdown_race Good d run r p = (
    λ w e reach. (Reach-IsStopped reach (record { timer = refl; work = w; fault = p.fault })).fault,
    λ w. (run_work run true (release (input_shutdown d)), next here (works run true r w), refl),
  )
