-- ===== src/Snd/Pcm/Driver.antt =====
-- What the sound core relies on in a driver: its PCM operations, its timers, and their laws.
use meta_picocalc.Prelude.{ℕ, ◌≡◌, Result, Bool, some, true, ok, List, err, none, false}
use meta_picocalc.Snd.Cursor.{Runtime, IsPrepared, Cmd, start, stop}
use meta_picocalc.Snd.Pcm.Hardware.{Hardware, IsSmall}
use meta_picocalc.Snd.Pcm.Session.{Session, Pages}

-- `IsPlaying` is what holds of the device while it plays from a runtime; `Tick` is a firing of an
-- armed timer.
pub record Driver (Dev : Type 0) : Type 1 where
  pub hw : Hardware
  pub pcm_open : Session Dev → Session Dev × Result (Unit {0})
  pub pcm_close : Session Dev → Session Dev × Result (Unit {0})
  pub pcm_hw_params : Pages → ℕ → Session Dev → Session Dev × Result (Unit {0})
  pub pcm_hw_free : Session Dev → Session Dev × Result (Unit {0})
  pub pcm_prepare : Session Dev → Session Dev × Result (Unit {0})
  pub pcm_trigger : Runtime → Dev → Cmd → Dev × Result (Unit {0})
  pub is_on : Dev → Bool
  pub Tick : Runtime → Dev → Dev → Type 0
  pub IsSteady : Dev → Type 0
  pub IsPlaying : Runtime → Dev → Type 0

-- The laws: an operation but the trigger leaves the device alone; an open stores the substream and
-- announces the hardware; hw_params stores the buffer that it gets, or nothing.
pub record IsLawful {Dev : Type 0} (d : Driver Dev) : Type 0 where
  pub small : IsSmall d.hw
  pub open_lem : (s : Session Dev) → d.pcm_open s ≡ (record s { hw = some d.hw; ss = true }, ok tt)
  pub close_lem : (s : Session Dev) → d.pcm_close s ≡ (s, ok tt)
  pub hw_params_lem :
      (pages : Pages) (n : ℕ) (area : List ℕ) (s : Session Dev)
      → pages n ≡ ok area
      → d.pcm_hw_params pages n s ≡ (record s { dma_area = some area }, ok tt)
  pub hw_params_fails :
      (pages : Pages) (n e : ℕ) (s : Session Dev)
      → pages n ≡ err e
      → d.pcm_hw_params pages n s ≡ (s, err e)
  pub hw_free_lem : (s : Session Dev) → d.pcm_hw_free s ≡ (record s { dma_area = none }, ok tt)
  pub prepare_lem : (s : Session Dev) → d.pcm_prepare s ≡ (s, ok tt)
  pub starts :
      (rt : Runtime) (dev : Dev)
      → IsPrepared rt
      → d.IsSteady dev
      → let (e, r) = d.pcm_trigger rt dev start in
        (r ≡ ok tt) × (d.is_on e ≡ true) × d.IsPlaying rt e
  pub stops :
      (rt : Runtime) (dev : Dev)
      → d.IsSteady dev
      → d.IsSteady (d.pcm_trigger rt dev stop).0 × (d.is_on (d.pcm_trigger rt dev stop).0 ≡ false)
  pub plays :
      (rt : Runtime) (dev e : Dev)
      → IsPrepared rt
      → d.IsPlaying rt dev
      → d.is_on dev ≡ true
      → d.Tick rt dev e
      → d.IsPlaying rt e × (d.is_on e ≡ true)
  pub rests :
      (rt : Runtime) (dev e : Dev)
      → d.IsSteady dev
      → d.is_on dev ≡ false
      → d.Tick rt dev e
      → d.IsSteady e × (d.is_on e ≡ false)
  pub steady : (rt : Runtime) (dev : Dev) → d.IsPlaying rt dev → d.IsSteady dev
  -- what user space writes into the buffer does not matter
  pub refills :
      (rt : Runtime) (dev : Dev) (area : List ℕ)
      → d.IsPlaying rt dev
      → d.IsPlaying (record rt { dma_area = area }) dev
