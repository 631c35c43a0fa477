-- ===== src/Snd/Soft/Defs.antt =====
-- The device state and the functions of picocalc_snd_softpwm.c.
use meta_picocalc.Prelude.{
  ℕ, ◌+◌, ◌*◌, ◌/◌, ◌≡◌, Bool, true, false, Option, none, some, ltb, ◌==◌, if◌then◌else◌, get_or,
  Result, ok, err, einval, not,
}
use meta_picocalc.Snd.Cursor.{Runtime, Cmd, start, stop, other, u32, bump, came_round}

-- `struct picocalc_snd_dev`. An armed timer holds its relative expiry in ns; `elapsed` counts the
-- calls of `snd_pcm_period_elapsed`; `left_gpio` is the level last set on the pin.
pub record Dev : Type 0 where
  pub data_ptr : ℕ
  pub period_ptr : ℕ
  pub is_on : Bool
  pub left_gpio : ℕ
  pub tm1 : Option ℕ
  pub tm2 : Option ℕ
  pub t1 : ℕ
  pub duty_cycle_ns : ℕ
  pub period_ns : ℕ
  pub cnt : ℕ
  pub elapsed : ℕ

abbrev pub default_duty_cycle : ℕ
default_duty_cycle = 0

abbrev pub default_period : ℕ
default_period = 125000

-- `(uint32_t)data[i] * period_ns / 255`, in 32-bit arithmetic
unfoldable pub duty_of : ℕ → ℕ → ℕ
duty_of sample period_ns = u32 (sample * period_ns) / 255

-- The callback runs with its timer dequeued; HRTIMER_RESTART queues it again.
unfoldable pub cb1 : Dev → Dev
cb1 d =
    if not d.is_on
    then record d { tm1 = none }
    else if d.duty_cycle_ns == 0
    then record d { tm1 = some d.t1 }
    else if ltb d.duty_cycle_ns d.period_ns
    then record d { tm1 = some d.t1; left_gpio = 1; tm2 = some d.duty_cycle_ns }
    else record d { tm1 = some d.t1; left_gpio = 1 }

-- the part of `cb2` after the cycle count: advance the ring, take the next sample, report a period
unfoldable pub next_sample : Runtime → Dev → Dev
next_sample rt d =
    let p = bump d.data_ptr rt.buffer_size in
    record d {
      data_ptr = p;
      duty_cycle_ns = duty_of (get_or rt.dma_area p 0) d.period_ns;
      period_ptr = bump d.period_ptr rt.period_size;
      elapsed = if came_round d.period_ptr rt.period_size then d.elapsed + 1 else d.elapsed;
    }

unfoldable pub cb2 : Runtime → Dev → Dev
unfolding next_sample
cb2 rt d =
    if not d.is_on
    then record d { tm2 = none }
    else let n = u32 (d.cnt + 1) in
      if ltb n 1
      then record d { tm2 = none; left_gpio = 0; cnt = n }
      else next_sample rt (record d { tm2 = none; left_gpio = 0; cnt = 0 })

-- `hrtimer_init` leaves both timers unqueued before `tm1` is started. That describes it on idle timers;
-- the kernel forbids it on a timer that is queued or whose callback runs.
unfoldable pub pwm_enable : Dev → Dev
pwm_enable d = record d { t1 = d.period_ns; tm1 = some d.period_ns; tm2 = none }

unfoldable pub pwm_disable : Dev → Dev
pwm_disable d = record d { duty_cycle_ns = 0; tm1 = none; tm2 = none }

-- `picocalc_pwm_enable` always returns 0, so the -EIO branch is dead
unfoldable pub pcm_trigger : Runtime → Dev → Cmd → Dev × Result (Unit {0})
unfolding pwm_enable
pcm_trigger rt d start =
    let e = pwm_enable (record d {
      duty_cycle_ns = duty_of (get_or rt.dma_area 0 0) d.period_ns;
      data_ptr = 0;
      period_ptr = 0;
      cnt = 0;
    }) in
    (record e { is_on = true }, ok tt)
pcm_trigger rt d stop =
    (if not d.is_on then d else record d { is_on = false; duty_cycle_ns = 0 }, ok tt)
pcm_trigger rt d other = (d, err einval)

unfoldable pub pcm_pointer : Dev → ℕ
pcm_pointer d = d.data_ptr

-- The device as `picocalc_probe` has set it up: zeroed memory, the pin at the level that it was requested
-- at, defaults, and `tm1` started. That timer may expire from here on, also while the probe still
-- registers the card.
unfoldable pub probed : ℕ → Dev
unfolding pwm_enable
probed pin = pwm_enable (record {
  data_ptr = 0;
  period_ptr = 0;
  is_on = false;
  left_gpio = pin;
  tm1 = none;
  tm2 = none;
  t1 = 0;
  duty_cycle_ns = default_duty_cycle;
  period_ns = default_period;
  cnt = 0;
  elapsed = 0;
})

module _ (rt : Runtime) where
  -- An armed timer fires, in any order.
  pub data Tick (d : Dev) : Dev → Type 0 where
    fire1 : (e : ℕ) → d.tm1 ≡ some e → Tick d (cb1 d)
    fire2 : (e : ℕ) → d.tm2 ≡ some e → Tick d (cb2 rt d)

  pub data Ticks (d : Dev) : Dev → Type 0 where
    here : Ticks d d
    next : {e f : Dev} → Ticks d e → Tick e f → Ticks d f

  -- What can happen to the device: timers, and the sound core's commands.
  pub data Step (d : Dev) : Dev → Type 0 where
    tick : {e : Dev} → Tick d e → Step d e
    command : (c : Cmd) → Step d (pcm_trigger rt d c).0

  pub data Reach (d : Dev) : Dev → Type 0 where
    begin : Reach d d
    step : {e f : Dev} → Reach d e → Step e f → Reach d f
