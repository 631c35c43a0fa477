-- ===== src/Snd/Pcm/Steps.antt =====
-- How the sound core calls a driver on one substream, with its timers and user space in between. A
-- timer's callback is one step here. A suspend of the system is in Snd/Pcm/Suspend.
use meta_picocalc.Prelude.{ℕ, ◌≡◌, false, none, List, some, ok, err, true, length}
use meta_picocalc.Snd.Cursor.{IsBytes, start, stop}
use meta_picocalc.Snd.Pcm.Hardware.{Hardware, Params, IsAllowed, buffer_bytes}
use meta_picocalc.Snd.Pcm.Session.{
  Session, Pages, closed, opened, setup, prepared, running, has_buffer, is_running, is_closed,
  runtime, sized,
}
use meta_picocalc.Snd.Pcm.Driver.{Driver}

module _ {Dev : Type 0} (d : Driver Dev) (pages : Pages) where
  pub data Step (s : Session Dev) : Session Dev → Type 0 where
    opens : s.state ≡ closed → Step s (record (d.pcm_open s).0 { state = opened })
    configures :
        (hw : Hardware) (p : Params) (area : List ℕ)
        → is_closed s.state ≡ false
        → is_running s.state ≡ false
        → s.hw ≡ some hw
        → IsAllowed hw p
        → pages (buffer_bytes p) ≡ ok area
        → Step s (sized p (d.pcm_hw_params pages (buffer_bytes p) s).0)
    -- the core frees the buffer after a hw_params that fails
    fails :
        (p : Params) (e : ℕ)
        → is_closed s.state ≡ false
        → is_running s.state ≡ false
        → pages (buffer_bytes p) ≡ err e
        → Step s (record (d.pcm_hw_free (d.pcm_hw_params pages (buffer_bytes p) s).0).0 {
          state = opened;
        })
    prepares : s.state ≡ setup → Step s (record (d.pcm_prepare s).0 { state = prepared })
    starts :
        s.state ≡ prepared
        → (d.pcm_trigger (runtime s) s.dev start).1 ≡ ok tt
        → Step s (record s { dev = (d.pcm_trigger (runtime s) s.dev start).0; state = running })
    -- at the end, on an underrun, or when user space asks
    stops :
        s.state ≡ running
        → Step s (record s { dev = (d.pcm_trigger (runtime s) s.dev stop).0; state = setup })
    frees :
        has_buffer s.state ≡ true
        → is_running s.state ≡ false
        → Step s (record (d.pcm_hw_free s).0 { state = opened })
    closes : s.state ≡ opened → Step s (record (d.pcm_close s).0 { state = closed; hw = none })
    writes :
        (old new : List ℕ)
        → s.dma_area ≡ some old
        → length new ≡ length old
        → IsBytes new
        → Step s (record s { dma_area = some new })
    ticks : (e : Dev) → d.Tick (runtime s) s.dev e → Step s (record s { dev = e })

  pub data Reach (s : Session Dev) : Session Dev → Type 0 where
    here : Reach s s
    next : {t u : Session Dev} → Reach s t → Step t u → Reach s u

-- a device after its probe: no substream is open
abbrev pub fresh : {Dev : Type 0} → Dev → Session Dev
fresh dev = record {
  dev = dev;
  ss = false;
  state = closed;
  hw = none;
  dma_area = none;
  buffer_size = 0;
  period_size = 0;
}
