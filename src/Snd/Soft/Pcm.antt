-- ===== src/Snd/Soft/Pcm.antt =====
-- The PCM operations of picocalc_snd_softpwm.c, and what they keep in any session of the sound core.
use meta_picocalc.Prelude.{
  ℕ, refl, List, Result, ◌≡◌, ◌∷◌, arith, false, true, ok, [], some, ◌*◌, get_or, ◌≤◌, ◌∙◌,
}
use meta_picocalc.Snd.Cursor.{Runtime, start, stop, IsPrepared, IsBytes, IsBytes-get_or}
use meta_picocalc.Snd.Pcm.Hardware.{Hardware, mmap, mmap_valid, interleaved, half_duplex, fmtbit_u8}
use meta_picocalc.Snd.Pcm.Session.{Session, Pages, running, malloc_pages, free_pages}
use meta_picocalc.Snd.Pcm.Driver.{Driver, IsLawful}
use meta_picocalc.Snd.Pcm.Steps.{Reach, fresh}
use meta_picocalc.Snd.Pcm.Suspend.{Calls, suspend_loses}
use meta_picocalc.Snd.Pcm.Safety.{session_lem}
use meta_picocalc.Snd.Soft.Defs.{
  Dev, cb1, cb2, pcm_trigger, probed, default_period, Tick, fire1, fire2,
}
use meta_picocalc.Snd.Soft.Invariant.{IsValid, cb1-IsValid, cb2-IsValid, duty_of-le}
use meta_picocalc.Prelude.{length, ◌<◌, ap, none}

abbrev pub picocalc_playback_hw : Hardware
picocalc_playback_hw = record {
  info = mmap ∷ mmap_valid ∷ interleaved ∷ half_duplex ∷ [];
  formats = fmtbit_u8 ∷ [];
  rates = 8000 ∷ [];
  rate_min = 8000;
  rate_max = 8000;
  channels_min = 1;
  channels_max = 1;
  buffer_bytes_max = 8 * 1024;
  period_bytes_min = 4;
  period_bytes_max = 4 * 1024;
  periods_min = 4;
  periods_max = 1024;
}

unfoldable pub pcm_open : Session Dev → Session Dev × Result (Unit {0})
pcm_open s = (record s { hw = some picocalc_playback_hw; ss = true }, ok tt)

abbrev pub pcm_close : Session Dev → Session Dev × Result (Unit {0})
pcm_close s = (s, ok tt)

abbrev pub pcm_prepare : Session Dev → Session Dev × Result (Unit {0})
pcm_prepare s = (s, ok tt)

abbrev pub pcm_hw_params : Pages → ℕ → Session Dev → Session Dev × Result (Unit {0})
pcm_hw_params pages bytes s = malloc_pages s (pages bytes)

abbrev pub pcm_hw_free : Session Dev → Session Dev × Result (Unit {0})
pcm_hw_free s = free_pages s

abbrev pub IsSteady : Dev → Type 0
IsSteady dev = (dev.period_ns ≡ default_period) × (dev.cnt ≡ 0)

-- `snd_pcm_ops`, with the timers
abbrev pub picocalc_pcm_ops : Driver Dev
picocalc_pcm_ops = record {
  hw = picocalc_playback_hw;
  pcm_open = pcm_open;
  pcm_close = pcm_close;
  pcm_hw_params = pcm_hw_params;
  pcm_hw_free = pcm_hw_free;
  pcm_prepare = pcm_prepare;
  pcm_trigger = pcm_trigger;
  is_on = λ d. d.is_on;
  Tick = Tick;
  IsSteady = IsSteady;
  IsPlaying = IsValid;
}

cb1-is_on : (d : Dev) → (cb1 d).is_on ≡ d.is_on
unfolding cb1
cb1-is_on d = ground arith

cb2-is_on : (rt : Runtime) (d : Dev) → (cb2 rt d).is_on ≡ d.is_on
unfolding cb2
cb2-is_on rt d = ground arith

plays :
    (rt : Runtime) (dev e : Dev)
    → IsPrepared rt
    → IsValid rt dev
    → dev.is_on ≡ true
    → Tick rt dev e
    → IsValid rt e × (e.is_on ≡ true)
plays rt dev e p v on (fire1 x q) = (cb1-IsValid p v, cb1-is_on dev ∙ on)
plays rt dev e p v on (fire2 x q) = (cb2-IsValid p v, cb2-is_on rt dev ∙ on)

rests :
    (rt : Runtime) (dev e : Dev)
    → IsSteady dev
    → dev.is_on ≡ false
    → Tick rt dev e
    → IsSteady e × (e.is_on ≡ false)
unfolding cb1 cb2
rests rt dev e v off (fire1 x q) = (ground (arith, v, off), ground (arith, off))
rests rt dev e v off (fire2 x q) = (ground (arith, v, off), ground (arith, off))

starts :
    (rt : Runtime) (dev : Dev)
    → IsPrepared rt
    → IsSteady dev
    → let (e, r) = pcm_trigger rt dev start in (r ≡ ok tt) × (e.is_on ≡ true) × IsValid rt e
unfolding pcm_trigger
starts rt dev p v = (
  refl,
  refl,
  record {
    data_in = p.some_buffer;
    period_in = p.some_period;
    duty_in =
        ground
          (arith, v, duty_of-le (get_or rt.dma_area 0 0) (IsBytes-get_or rt.dma_area 0 p.bytes));
    fixed = v.0;
    no_count = refl;
  },
)

stops :
    (rt : Runtime) (dev : Dev)
    → IsSteady dev
    → IsSteady (pcm_trigger rt dev stop).0 × ((pcm_trigger rt dev stop).0.is_on ≡ false)
unfolding pcm_trigger
stops rt dev v = (ground (arith, v), ground arith)

picocalc_pcm_ops-IsLawful : IsLawful picocalc_pcm_ops
unfolding pcm_open
picocalc_pcm_ops-IsLawful = record {
  small = omega arith;
  open_lem = λ s. refl;
  close_lem = λ s. refl;
  hw_params_lem = λ pages n area s q. ap (malloc_pages s) q;
  hw_params_fails = λ pages n e s q. ap (malloc_pages s) q;
  hw_free_lem = λ s. refl;
  prepare_lem = λ s. refl;
  starts = starts;
  stops = stops;
  plays = plays;
  rests = rests;
  steady = λ rt dev v. (v.fixed, v.no_count);
  refills = λ rt dev area v. record {
    data_in = v.data_in;
    period_in = v.period_in;
    duty_in = v.duty_in;
    fixed = v.fixed;
    no_count = v.no_count;
  };
}

probed-is_off : (pin : ℕ) → (probed pin).is_on ≡ false
unfolding probed
probed-is_off pin = refl

probed-IsSteady : (pin : ℕ) → IsSteady (probed pin)
unfolding probed
probed-IsSteady pin = (refl, refl)

-- Let `snd_pcm_lib_malloc_pages` give a buffer of bytes, no shorter than asked, or an error. After
-- the probe, in any session of opens, parameters within the announced hardware, starts, stops,
-- frees and closes, with timers and writes of user space in between and no suspend of the system: whenever a callback gets past
-- its test of is_on, the stream runs on an open substream whose buffer is there, the next sample
-- lies in it, the period cursor is inside its period, and the duty cycle inside the PWM period.
pub session_in_bounds :
    (pages : Pages) (pin : ℕ) (s : Session Dev)
    → ((n : ℕ) (area : List ℕ) → pages n ≡ ok area → (n ≤ length area) × IsBytes area)
    → Reach picocalc_pcm_ops pages (fresh (probed pin)) s
    → s.dev.is_on ≡ true
    → (s.state ≡ running)
      × (s.ss ≡ true)
      × ((area : List ℕ) × (s.dma_area ≡ some area) × s.dev.data_ptr < length area)
      × s.dev.period_ptr < s.period_size
      × (s.dev.duty_cycle_ns ≤ s.dev.period_ns)
session_in_bounds pages pin s enough r on =
    let (runs, ss, b, v) =
      session_lem picocalc_pcm_ops picocalc_pcm_ops-IsLawful pages enough (probed pin) s
        (probed-IsSteady pin) (probed-is_off pin) r on in
    (runs, ss, (b.area, b.there, omega (arith, b.room, v.data_in)), v.period_in, v.duty_in)

-- The driver refuses the SUSPEND trigger and stays on, but the sound core goes on: a suspend of a stream
-- that runs, and the end of the session after it, can leave the device on, its timers as they were, with
-- no buffer.
pub suspend_leaves_on :
    (pages : Pages) (s : Session Dev)
    → s.state ≡ running
    → s.dev.is_on ≡ true
    → (t : Session Dev) × Calls picocalc_pcm_ops pages s t
      × (t.dma_area ≡ none)
      × (t.dev ≡ s.dev)
      × (t.dev.is_on ≡ true)
unfolding pcm_trigger
suspend_leaves_on pages s r on =
    let (t, calls, freed, same) =
      suspend_loses picocalc_pcm_ops pages s picocalc_pcm_ops-IsLawful (λ rt dev. refl) r in
    (t, calls, freed, same, ap (λ (d : Dev). d.is_on) same ∙ on)
