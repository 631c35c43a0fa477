-- ===== src/Snd/Hard/PcmTests.antt =====
-- A session of picocalc_snd_pwm.c with silence.
use meta_picocalc.Prelude.{ℕ, refl, replicate, ◌≡◌, arith, true, List, some, ◌<◌, length}
use meta_picocalc.Snd.Pcm.Steps.{
  Reach, here, next, fresh, opens, configures, prepares, starts, ticks,
}
use meta_picocalc.Snd.Pcm.Session.{Session, running}
use meta_picocalc.Snd.Pcm.Silence.{silence, silence_enough, params}
use meta_picocalc.Snd.Hard.Pcm.{
  picocalc_pcm_ops, picocalc_playback_hw, pcm_open, session_in_range, IsWithin, fires,
}
use meta_picocalc.Snd.Hard.Defs.{Dev, pcm_trigger, cb1}
use meta_picocalc.Snd.Hard.Life.{started}

-- opened, set up with four periods of four frames, started, and the first timer fired
unfoldable session : (s : Session Dev) × Reach picocalc_pcm_ops silence (fresh started) s
unfolding pcm_open pcm_trigger cb1
session = (
  _,
  next
      (next
        (next
          (next (next here (opens refl)) (
            configures picocalc_playback_hw params (replicate 16 128) refl refl refl (omega arith)
              refl))
          (prepares refl))
        (starts refl refl))
      (ticks _ (fires 125000 refl)),
)

session_in_range_example :
    (session.0.state ≡ running)
    × (session.0.ss ≡ true)
    × ((area : List ℕ) × (session.0.dma_area ≡ some area) × session.0.dev.data_ptr < length area)
    × session.0.dev.period_ptr < session.0.period_size
    × IsWithin session.0.dev.configs
unfolding session pcm_open pcm_trigger cb1
session_in_range_example = session_in_range silence session.0 silence_enough session.1 refl
