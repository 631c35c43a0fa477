-- ===== src/Snd/Pcm/Overlap.antt =====
-- The timer callbacks of both sound drivers take no lock: between the test of `is_on` and the use
-- of the buffer, another processor may stop the stream and free the buffer.
use meta_picocalc.Prelude.{◌≡◌, refl, ap, Bool, true, false, none}
use meta_picocalc.Snd.Cursor.{stop}
use meta_picocalc.Snd.Pcm.Session.{Session, Pages, setup, opened, running, runtime}
use meta_picocalc.Snd.Pcm.Driver.{Driver, IsLawful}
use meta_picocalc.Snd.Pcm.Steps.{Step, stops, frees}

-- `entered` says whether a callback is past its test and has still to use the buffer
pub record Overlap (Dev : Type 0) : Type 0 where
  pub session : Session Dev
  pub entered : Bool

-- the callback would use a buffer that is not there
abbrev pub IsLost : {Dev : Type 0} → Overlap Dev → Type 0
IsLost o = (o.entered ≡ true) × (o.session.dma_area ≡ none)

module _ {Dev : Type 0} (d : Driver Dev) (pages : Pages) where
  pub data Move (o : Overlap Dev) : Overlap Dev → Type 0 where
    calls : {t : Session Dev} → Step d pages o.session t → Move o (record o { session = t })
    enters :
        (e : Dev)
        → d.Tick (runtime o.session) o.session.dev e
        → d.is_on o.session.dev ≡ true
        → Move o (record o { entered = true })
    uses :
        (e : Dev)
        → o.entered ≡ true
        → d.Tick (runtime o.session) o.session.dev e
        → Move o (record { session = record o.session { dev = e }; entered = false })

  pub data Moves (o : Overlap Dev) : Overlap Dev → Type 0 where
    here : Moves o o
    next : {p q : Overlap Dev} → Moves o p → Move p q → Moves o q

  -- From any state in which the stream runs, the device is on and a timer may fire, the callback
  -- can get past its test and find the buffer freed.
  pub stop_race :
      (o : Overlap Dev) (e : Dev)
      → IsLawful d
      → o.session.state ≡ running
      → d.is_on o.session.dev ≡ true
      → d.Tick (runtime o.session) o.session.dev e
      → (p : Overlap Dev) × Moves o p × IsLost p
  stop_race o e laws r on t =
      let s = o.session in
      let stopped = record s { dev = (d.pcm_trigger (runtime s) s.dev stop).0; state = setup } in
      let freed = record (d.pcm_hw_free stopped).0 { state = opened } in
      (
        record { session = freed; entered = true },
        next (next (next here (enters e t on)) (calls (stops r))) (calls (frees refl refl)),
        (refl, ap (λ x. x.0.dma_area) (laws.hw_free_lem stopped)),
      )
