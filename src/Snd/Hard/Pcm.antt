-- ===== src/Snd/Hard/Pcm.antt =====
-- The PCM operations of picocalc_snd_pwm.c, and what they keep in any session of the sound core.
use meta_picocalc.Prelude.{
  ℕ, refl, Result, ◌≡◌, get_or, ◌∷◌, arith, ◌<◌, List, [], some, false, ap, true, ◌≤◌, ok, ◌*◌,
  length, if_intro,
}
use meta_picocalc.Snd.Cursor.{
  Runtime, start, stop, IsPrepared, IsBytes, IsBytes-get_or, bump, bump-lt,
}
use meta_picocalc.Snd.Pcm.Hardware.{Hardware, mmap, mmap_valid, interleaved, half_duplex, fmtbit_u8}
use meta_picocalc.Snd.Pcm.Session.{Session, Pages, running, malloc_pages, free_pages}
use meta_picocalc.Snd.Pcm.Driver.{Driver, IsLawful}
use meta_picocalc.Snd.Pcm.Steps.{Reach, fresh}
use meta_picocalc.Snd.Pcm.Suspend.{Calls, suspend_loses}
use meta_picocalc.Snd.Pcm.Safety.{session_lem}
use meta_picocalc.Snd.Hard.Defs.{Dev, duty_of, default_pwm_period, cb1, pcm_trigger}
use meta_picocalc.Snd.Hard.Stream.{duty_of-le}
use meta_picocalc.Snd.Hard.Life.{started}
use meta_picocalc.Prelude.{not, none, ◌∙◌}

abbrev pub picocalc_playback_hw : Hardware
picocalc_playback_hw = record {
  info = mmap ∷ mmap_valid ∷ interleaved ∷ half_duplex ∷ [];
  formats = fmtbit_u8 ∷ [];
  rates = 8000 ∷ [];
  rate_min = 8000;
  rate_max = 8000;
  channels_min = 1;
  channels_max = 1;
  buffer_bytes_max = 8 * 1024;
  period_bytes_min = 4;
  period_bytes_max = 4 * 1024;
  periods_min = 4;
  periods_max = 1024;
}

unfoldable pub pcm_open : Session Dev → Session Dev × Result (Unit {0})
pcm_open s = (record s { hw = some picocalc_playback_hw; ss = true }, ok tt)

abbrev pub pcm_close : Session Dev → Session Dev × Result (Unit {0})
pcm_close s = (s, ok tt)

abbrev pub pcm_prepare : Session Dev → Session Dev × Result (Unit {0})
pcm_prepare s = (s, ok tt)

abbrev pub pcm_hw_params : Pages → ℕ → Session Dev → Session Dev × Result (Unit {0})
pcm_hw_params pages bytes s = malloc_pages s (pages bytes)

abbrev pub pcm_hw_free : Session Dev → Session Dev × Result (Unit {0})
pcm_hw_free s = free_pages s

-- the timer fires
pub data Tick (rt : Runtime) (d : Dev) : Dev → Type 0 where
  fires : (e : ℕ) → d.tm1 ≡ some e → Tick rt d (cb1 rt d)

-- `pwm_config` refuses a duty cycle that is longer than the period
abbrev pub IsWithin : List ℕ → Type 0
IsWithin [] = Unit {0}
IsWithin (x ∷ xs) = (x ≤ default_pwm_period) × IsWithin xs

abbrev pub IsSteady : Dev → Type 0
IsSteady dev = IsWithin dev.configs

pub record IsInRange (rt : Runtime) (d : Dev) : Type 0 where
  pub data_in : d.data_ptr < rt.buffer_size
  pub period_in : d.period_ptr < rt.period_size
  pub configs_in : IsWithin d.configs

-- `snd_pcm_ops`, with the timer
abbrev pub picocalc_pcm_ops : Driver Dev
picocalc_pcm_ops = record {
  hw = picocalc_playback_hw;
  pcm_open = pcm_open;
  pcm_close = pcm_close;
  pcm_hw_params = pcm_hw_params;
  pcm_hw_free = pcm_hw_free;
  pcm_prepare = pcm_prepare;
  pcm_trigger = pcm_trigger;
  is_on = λ d. d.is_on;
  Tick = Tick;
  IsSteady = IsSteady;
  IsPlaying = IsInRange;
}

sample_in :
    (rt : Runtime) (i : ℕ) → IsPrepared rt → duty_of (get_or rt.dma_area i 0) ≤ default_pwm_period
sample_in rt i p = duty_of-le (get_or rt.dma_area i 0) (IsBytes-get_or rt.dma_area i p.bytes)

plays :
    (rt : Runtime) (dev e : Dev)
    → IsPrepared rt
    → IsInRange rt dev
    → dev.is_on ≡ true
    → Tick rt dev e
    → IsInRange rt e × (e.is_on ≡ true)
unfolding cb1
plays rt dev e p v on (fires x q) =
    let i = bump dev.data_ptr rt.buffer_size in
    rw on (
      record {
        data_in = bump-lt dev.data_ptr rt.buffer_size p.some_buffer;
        period_in = bump-lt dev.period_ptr rt.period_size p.some_period;
        configs_in = (sample_in rt i p, v.configs_in);
      },
      refl,
    )

rests :
    (rt : Runtime) (dev e : Dev)
    → IsSteady dev
    → dev.is_on ≡ false
    → Tick rt dev e
    → IsSteady e × (e.is_on ≡ false)
unfolding cb1
rests rt dev e v off (fires x q) = rw off (v, refl)

starts :
    (rt : Runtime) (dev : Dev)
    → IsPrepared rt
    → IsSteady dev
    → let (e, r) = pcm_trigger rt dev start in (r ≡ ok tt) × (e.is_on ≡ true) × IsInRange rt e
unfolding pcm_trigger
starts rt dev p v = (
  refl,
  refl,
  record { data_in = p.some_buffer; period_in = p.some_period; configs_in = (sample_in rt 0 p, v) },
)

stops :
    (rt : Runtime) (dev : Dev)
    → IsSteady dev
    → IsSteady (pcm_trigger rt dev stop).0 × ((pcm_trigger rt dev stop).0.is_on ≡ false)
unfolding pcm_trigger
stops rt dev v =
    if_intro (λ (e : Dev). IsSteady e × (e.is_on ≡ false)) (not dev.is_on) (λ h. (v, ground arith))
      (λ h. (v, refl))

picocalc_pcm_ops-IsLawful : IsLawful picocalc_pcm_ops
unfolding pcm_open
picocalc_pcm_ops-IsLawful = record {
  small = omega arith;
  open_lem = λ s. refl;
  close_lem = λ s. refl;
  hw_params_lem = λ pages n area s q. ap (malloc_pages s) q;
  hw_params_fails = λ pages n e s q. ap (malloc_pages s) q;
  hw_free_lem = λ s. refl;
  prepare_lem = λ s. refl;
  starts = starts;
  stops = stops;
  plays = plays;
  rests = rests;
  steady = λ rt dev v. v.configs_in;
  refills = λ rt dev area v. record {
    data_in = v.data_in;
    period_in = v.period_in;
    configs_in = v.configs_in;
  };
}

-- Let `snd_pcm_lib_malloc_pages` give a buffer of bytes, no shorter than asked, or an error. After
-- the probe, in any session of opens, parameters within the announced hardware, starts, stops,
-- frees and closes, with timers and writes of user space in between and no suspend of the system: whenever the callback gets
-- past its test of is_on, the stream runs on an open substream whose buffer is there, the next
-- sample lies in it, the period cursor is inside its period, and no duty cycle programmed so far is
-- longer than the PWM period.
pub session_in_range :
    (pages : Pages) (s : Session Dev)
    → ((n : ℕ) (area : List ℕ) → pages n ≡ ok area → (n ≤ length area) × IsBytes area)
    → Reach picocalc_pcm_ops pages (fresh started) s
    → s.dev.is_on ≡ true
    → (s.state ≡ running)
      × (s.ss ≡ true)
      × ((area : List ℕ) × (s.dma_area ≡ some area) × s.dev.data_ptr < length area)
      × s.dev.period_ptr < s.period_size
      × IsWithin s.dev.configs
session_in_range pages s enough r on =
    let (runs, ss, b, v) =
      session_lem picocalc_pcm_ops picocalc_pcm_ops-IsLawful pages enough started s
        (omega arith, tt) refl r on in
    (runs, ss, (b.area, b.there, omega (arith, b.room, v.data_in)), v.period_in, v.configs_in)

-- The driver refuses the SUSPEND trigger and stays on, but the sound core goes on: a suspend of a stream
-- that runs, and the end of the session after it, can leave the device on, its timers as they were, with
-- no buffer.
suspend_leaves_on :
    (pages : Pages) (s : Session Dev)
    → s.state ≡ running
    → s.dev.is_on ≡ true
    → (t : Session Dev) × Calls picocalc_pcm_ops pages s t
      × (t.dma_area ≡ none)
      × (t.dev ≡ s.dev)
      × (t.dev.is_on ≡ true)
unfolding pcm_trigger
suspend_leaves_on pages s r on =
    let (t, calls, freed, same) =
      suspend_loses picocalc_pcm_ops pages s picocalc_pcm_ops-IsLawful (λ rt dev. refl) r in
    (t, calls, freed, same, ap (λ (d : Dev). d.is_on) same ∙ on)
