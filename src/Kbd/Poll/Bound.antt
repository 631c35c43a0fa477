-- ===== src/Kbd/Poll/Bound.antt =====
-- Between probe and remove: the polling goes on, and touches nothing that is gone.
use meta_picocalc.Prelude.{ℕ, ◌≡◌, refl, arith, ap, ◌∙◌, Bool, true, false, List, Result, ok, err}
use meta_picocalc.Kernel.{is_ok}
use meta_picocalc.Kbd.Poll.Defs.{
  InputCore, Driver, absent, polling, input_probe, kbd_timer_function, run_work, Step, fires, works,
  Reach, here, next,
}

abbrev answers : Bool → Bool → Bool → Result (Unit {0}) → InputCore
answers a b c r = record { kzalloc = a; kmemdup = b; allocate_device = c; register_device = r }

module _ {C : Type 0} (keycodes : List ℕ) (init c : C) where
  probe_cases :
      (x y z : Bool) (r : Result (Unit {0}))
      → is_ok (input_probe (answers x y z r) keycodes init (absent c)).1 ≡ true
      → (input_probe (answers x y z r) keycodes init (absent c)).0 ≡ polling keycodes init
  unfolding input_probe
  probe_cases false y z r h = cc
  probe_cases true false z r h = cc
  probe_cases true true false r h = cc
  probe_cases true true true (err e) h = cc
  probe_cases true true true (ok _) h = refl

  -- A probe that returns 0 has registered the device and started the polling.
  pub input_probe_lem :
      (k : InputCore)
      → is_ok (input_probe k keycodes init (absent c)).1 ≡ true
      → (input_probe k keycodes init (absent c)).0 ≡ polling keycodes init
  input_probe_lem k h = probe_cases k.kzalloc k.kmemdup k.allocate_device k.register_device h

module _ {C : Type 0} (Good : C → Type 0) where
  -- A driver that polls: its context is allocated and good, `g_ctx` points to it, the timer is armed,
  -- and nothing has gone wrong.
  pub record IsPolling (d : Driver C) : Type 0 where
    pub good : Good d.ctx
    pub memory : d.memory ≡ true
    pub g_ctx : d.g_ctx ≡ true
    pub timer : d.timer ≡ true
    pub fault : d.fault ≡ false

  pub polling-IsPolling : (keycodes : List ℕ) (c : C) → Good c → IsPolling (polling keycodes c)
  polling-IsPolling keycodes c g = record {
    good = g;
    memory = refl;
    g_ctx = refl;
    timer = refl;
    fault = refl;
  }

  module _ (Runs : (C → C) → Type 0)
      (keeps : (run : C → C) → Runs run → (c : C) → Good c → Good (run c)) where
    Step-IsPolling : {d e : Driver C} → Step Runs d e → IsPolling d → IsPolling e
    unfolding kbd_timer_function run_work
    Step-IsPolling (fires t) p = ground (arith, p)
    Step-IsPolling {d} (works run stores r w) p = ground (arith, p, keeps run r d.ctx)

    pub Reach-IsPolling : {d e : Driver C} → Reach Runs d e → IsPolling d → IsPolling e
    Reach-IsPolling here p = p
    Reach-IsPolling (next r s) p = Step-IsPolling s (Reach-IsPolling r p)

    fire_queues :
        (d : Driver C)
        → IsPolling d
        → let e = kbd_timer_function (record d { timer = false }) in
          (e.work ≡ true) × (e.ctx ≡ d.ctx)
    unfolding kbd_timer_function
    fire_queues d p = ground (arith, p)

    run_reads :
        (d : Driver C) (run : C → C) (stores : Bool)
        → d.memory ≡ true
        → d.g_ctx ≡ true
        → (run_work run stores d).ctx ≡ run d.ctx
    unfolding run_work
    run_reads d run stores h g = rw (h, g) refl

    -- A driver that polls can poll again, whatever the handler that then runs.
    pub poll_again :
        (d : Driver C) (run : C → C)
        → Runs run
        → IsPolling d
        → (e : Driver C) × Reach Runs d e × (e.ctx ≡ run d.ctx) × IsPolling e
    poll_again d run r p =
        let e = kbd_timer_function (record d { timer = false }) in
        let (w, same) = fire_queues d p in
        let polls = Reach-IsPolling (next here (fires p.timer)) p in
        let reach : Reach Runs d (run_work run true e) =
          next (next here (fires p.timer)) (works run true r w) in
        (
          run_work run true e,
          reach,
          run_reads e run true polls.memory polls.g_ctx ∙ ap run same,
          Reach-IsPolling reach p,
        )
