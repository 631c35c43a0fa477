-- ===== src/Snd/Soft/PcmTests.antt =====
-- A session of picocalc_snd_softpwm.c with silence.
use meta_picocalc.Prelude.{ℕ, refl, replicate, ◌≡◌, arith, true, List, some, ◌<◌, length, ◌≤◌, none}
use meta_picocalc.Snd.Pcm.Steps.{
  Reach, here, next, fresh, opens, configures, prepares, starts, ticks,
}
use meta_picocalc.Snd.Pcm.Suspend.{Calls}
use meta_picocalc.Snd.Pcm.Session.{Session, running}
use meta_picocalc.Snd.Pcm.Silence.{silence, silence_enough, params}
use meta_picocalc.Snd.Soft.Pcm.{
  picocalc_pcm_ops, picocalc_playback_hw, pcm_open, session_in_bounds, suspend_leaves_on,
}
use meta_picocalc.Snd.Soft.Defs.{Dev, duty_of, probed, fire1, pcm_trigger, cb1}

-- opened, set up with four periods of four frames, started, and the first timer fired
unfoldable session : (s : Session Dev) × Reach picocalc_pcm_ops silence (fresh (probed 1)) s
unfolding pcm_open pcm_trigger probed cb1
session = (
  _,
  next
      (next
        (next
          (next (next here (opens refl)) (
            configures picocalc_playback_hw params (replicate 16 128) refl refl refl (omega arith)
              refl))
          (prepares refl))
        (starts refl refl))
      (ticks _ (fire1 125000 refl)),
)

session_in_bounds_example :
    (session.0.state ≡ running)
    × (session.0.ss ≡ true)
    × ((area : List ℕ) × (session.0.dma_area ≡ some area) × session.0.dev.data_ptr < length area)
    × session.0.dev.period_ptr < session.0.period_size
    × (session.0.dev.duty_cycle_ns ≤ session.0.dev.period_ns)
unfolding session pcm_open pcm_trigger probed cb1 duty_of
session_in_bounds_example = session_in_bounds silence 1 session.0 silence_enough session.1 refl

suspend_leaves_on_example :
    (t : Session Dev) × Calls picocalc_pcm_ops silence session.0 t
    × (t.dma_area ≡ none)
    × (t.dev ≡ session.0.dev)
    × (t.dev.is_on ≡ true)
unfolding session pcm_open pcm_trigger probed cb1 duty_of
suspend_leaves_on_example = suspend_leaves_on silence session.0 refl refl
