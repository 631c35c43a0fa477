-- ===== src/Snd/Hard/Defs.antt =====
-- The device state and the functions of picocalc_snd_pwm.c.
use meta_picocalc.Prelude.{
  ℕ, suc, zero, ◌+◌, ◌*◌, ◌/◌, Bool, true, false, Option, none, some, List, ◌∷◌, if◌then◌else◌,
  get_or, Result, ok, err, einval, not,
}
use meta_picocalc.Snd.Cursor.{Runtime, Cmd, start, stop, other, u32, bump, came_round}

-- `struct picocalc_snd_dev`; `configs` are the duty cycles programmed so far, newest first, and
-- `pwm_on` is the state of the channel; `elapsed` counts the calls of `snd_pcm_period_elapsed`.
pub record Dev : Type 0 where
  pub data_ptr : ℕ
  pub period_ptr : ℕ
  pub is_on : Bool
  pub pwm_on : Bool
  pub configs : List ℕ
  pub tm1 : Option ℕ
  pub t1 : ℕ
  pub duty_cycle_ns : ℕ
  pub period_ns : ℕ
  pub elapsed : ℕ

abbrev pub default_duty_cycle : ℕ
default_duty_cycle = 0

abbrev pub default_period : ℕ
default_period = 125000

abbrev pub default_pwm_period : ℕ
default_pwm_period = 15625

-- `(uint32_t)data[i] * (uint32_t)DEFAULT_PWM_PERIOD / 255`
unfoldable pub duty_of : ℕ → ℕ
duty_of sample = u32 (sample * default_pwm_period) / 255

unfoldable pub cb1 : Runtime → Dev → Dev
cb1 rt d =
    if not d.is_on
    then record d { tm1 = none }
    else let p = bump d.data_ptr rt.buffer_size in
      let duty = duty_of (get_or rt.dma_area p 0) in
      record d {
        tm1 = some d.t1;
        data_ptr = p;
        duty_cycle_ns = duty;
        configs = duty ∷ d.configs;
        period_ptr = bump d.period_ptr rt.period_size;
        elapsed = if came_round d.period_ptr rt.period_size then d.elapsed + 1 else d.elapsed;
      }

unfoldable pub pwm_enable : Dev → Dev
pwm_enable d = record d {
  configs = d.duty_cycle_ns ∷ d.configs;
  pwm_on = true;
  t1 = d.period_ns;
  tm1 = some d.period_ns;
}

-- It only programs a zero duty cycle: the channel and the timer stay on.
unfoldable pub pwm_disable : Dev → Dev
pwm_disable d = record d { configs = default_duty_cycle ∷ d.configs }

unfoldable pub pcm_trigger : Runtime → Dev → Cmd → Dev × Result (Unit {0})
unfolding pwm_enable
pcm_trigger rt d start =
    let e = pwm_enable (record d {
      duty_cycle_ns = duty_of (get_or rt.dma_area 0 0);
      data_ptr = 0;
      period_ptr = 0;
    }) in
    (record e { is_on = true }, ok tt)
pcm_trigger rt d stop =
    (if not d.is_on then d else record d { is_on = false; duty_cycle_ns = 0 }, ok tt)
pcm_trigger rt d other = (d, err einval)

unfoldable pub pcm_pointer : Dev → ℕ
pcm_pointer d = d.data_ptr

-- `n` firings of the timer
unfoldable pub fire : Runtime → ℕ → Dev → Dev
fire rt zero d = d
fire rt (suc n) d = cb1 rt (fire rt n d)
