-- ===== src/Snd/Soft/Invariant.antt =====
-- The ring cursors stay inside their rings, and the duty cycle inside the PWM period.
use meta_picocalc.Prelude.{ℕ, ◌≤◌, ◌<◌, ◌≡◌, refl, arith, get_or, none}
use meta_picocalc.Snd.Cursor.{
  Runtime, Cmd, start, stop, other, IsPrepared, IsBytes-get_or, bump, bump-lt,
}
use meta_picocalc.Snd.Soft.Defs.{
  Dev, duty_of, cb1, cb2, next_sample, pcm_trigger, probed, default_period, fire1, fire2, Step,
  tick, command, Reach, begin, step,
}

pub record IsValid (rt : Runtime) (d : Dev) : Type 0 where
  pub data_in : d.data_ptr < rt.buffer_size
  pub period_in : d.period_ptr < rt.period_size
  pub duty_in : d.duty_cycle_ns ≤ d.period_ns
  pub fixed : d.period_ns ≡ default_period
  pub no_count : d.cnt ≡ 0

-- A byte's duty cycle does not wrap and lies within the period.
pub duty_of-le : (s : ℕ) → s < 256 → duty_of s default_period ≤ default_period
unfolding duty_of
duty_of-le s h = omega arith

module _ {rt : Runtime} (prepared : IsPrepared rt) where
  pub probed-IsValid : (pin : ℕ) → IsValid rt (probed pin)
  unfolding probed
  probed-IsValid pin = omega (arith, prepared)

  pub cb1-IsValid : {d : Dev} → IsValid rt d → IsValid rt (cb1 d)
  unfolding cb1
  cb1-IsValid v = ground arith

  next_sample-IsValid : {d : Dev} → IsValid rt d → IsValid rt (next_sample rt d)
  unfolding next_sample
  next_sample-IsValid {d} v = record {
    data_in = bump-lt d.data_ptr rt.buffer_size prepared.some_buffer;
    period_in = bump-lt d.period_ptr rt.period_size prepared.some_period;
    duty_in = omega (arith, v.fixed, at_sample);
    fixed = v.fixed;
    no_count = v.no_count;
  }
    where
      s : ℕ
      s = get_or rt.dma_area (bump d.data_ptr rt.buffer_size) 0

      at_sample : duty_of s d.period_ns ≤ default_period
      at_sample =
          ground (arith, v.fixed, duty_of-le s (IsBytes-get_or rt.dma_area _ prepared.bytes))

  pub cb2-IsValid : {d : Dev} → IsValid rt d → IsValid rt (cb2 rt d)
  unfolding cb2
  cb2-IsValid {d} v =
      grind (arith, next_sample-IsValid {d = record d { tm2 = none; left_gpio = 0; cnt = 0 }})

  pcm_trigger-IsValid : (c : Cmd) {d : Dev} → IsValid rt d → IsValid rt (pcm_trigger rt d c).0
  unfolding pcm_trigger
  pcm_trigger-IsValid start {d} v = record {
    data_in = prepared.some_buffer;
    period_in = prepared.some_period;
    duty_in = ground (
      arith,
      v,
      duty_of-le (get_or rt.dma_area 0 0) (IsBytes-get_or rt.dma_area 0 prepared.bytes),
    );
    fixed = v.fixed;
    no_count = refl;
  }
  pcm_trigger-IsValid stop v = ground arith
  pcm_trigger-IsValid other v = v

  Step-IsValid : {d e : Dev} → Step rt d e → IsValid rt d → IsValid rt e
  Step-IsValid (tick (fire1 e q)) v = cb1-IsValid v
  Step-IsValid (tick (fire2 e q)) v = cb2-IsValid v
  Step-IsValid (command c) v = pcm_trigger-IsValid c v

  -- Whatever the timers and the sound core do after the probe, both cursors stay inside their rings
  -- and the duty cycle inside the period.
  pub Reach-IsValid : (pin : ℕ) {d : Dev} → Reach rt (probed pin) d → IsValid rt d
  Reach-IsValid pin begin = probed-IsValid pin
  Reach-IsValid pin (step r s) = Step-IsValid s (Reach-IsValid pin r)
