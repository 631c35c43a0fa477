-- ===== src/Snd/Pcm/Suspend.antt =====
-- A suspend of the system while a stream runs. The sound core calls the trigger with SUSPEND and goes
-- to SUSPENDED whatever the answer; it comes from there to SETUP without a further call of the driver.
use meta_picocalc.Prelude.{◌≡◌, refl, ap, none, ◌∙◌}
use meta_picocalc.Snd.Cursor.{Runtime, other}
use meta_picocalc.Snd.Pcm.Session.{Session, Pages, setup, opened, running, runtime}
use meta_picocalc.Snd.Pcm.Driver.{Driver, IsLawful}
use meta_picocalc.Snd.Pcm.Steps.{Step, frees}

module _ {Dev : Type 0} (d : Driver Dev) (pages : Pages) where
  -- The state SUSPENDED, in which the core calls no operation, is passed over.
  pub data Call (s : Session Dev) : Session Dev → Type 0 where
    steps : {t : Session Dev} → Step d pages s t → Call s t
    suspends :
        s.state ≡ running
        → Call s (record s { dev = (d.pcm_trigger (runtime s) s.dev other).0; state = setup })

  pub data Calls (s : Session Dev) : Session Dev → Type 0 where
    here : Calls s s
    next : {t u : Session Dev} → Calls s t → Call t u → Calls s u

  -- When the driver ignores the trigger, a suspend of a stream that runs, and a close after it, leave the
  -- device on, and its timers as they were, with the buffer freed.
  pub suspend_loses :
      (s : Session Dev)
      → IsLawful d
      → ((rt : Runtime) (dev : Dev) → (d.pcm_trigger rt dev other).0 ≡ dev)
      → s.state ≡ running
      → (t : Session Dev) × Calls s t × (t.dma_area ≡ none) × (t.dev ≡ s.dev)
  suspend_loses s laws ignored r =
      let slept = record s { dev = (d.pcm_trigger (runtime s) s.dev other).0; state = setup } in
      (
        record (d.pcm_hw_free slept).0 { state = opened },
        next (next here (suspends r)) (steps (frees refl refl)),
        ap (λ x. x.0.dma_area) (laws.hw_free_lem slept),
        ap (λ x. x.0.dev) (laws.hw_free_lem slept) ∙ ignored (runtime s) s.dev,
      )
