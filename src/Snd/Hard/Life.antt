-- ===== src/Snd/Hard/Life.antt =====
-- Probe and remove of picocalc_snd_pwm.c. The device's memory and its PWM channel are managed: the
-- driver core frees them after a probe that fails and after a remove.
use meta_picocalc.Prelude.{
  ◌≡◌, refl, Bool, true, false, [], ◌∷◌, if◌then◌else◌, none, some, Result, enomem,
}
use meta_picocalc.Kernel.{M, ◌>>◌, change, ask_pointer, is_ok}
use meta_picocalc.Snd.Register.{
  Card, no_card, live_card, SoundCore, snd_register, first_error, free_card, snd_register_lem,
}
use meta_picocalc.Snd.Cursor.{Runtime}
use meta_picocalc.Snd.Hard.Defs.{
  Dev, cb1, default_duty_cycle, default_period, pwm_enable, pwm_disable,
}

-- the device with its channel (whether it has one) and its card
pub record Bound : Type 0 where
  pub dev : Dev
  pub pwm_left : Bool
  pub card : Card
  pub drvdata : Bool

-- zeroed memory, as `devm_kzalloc` gives it, and a channel that is off
abbrev pub zeroed : Dev
zeroed = record {
  data_ptr = 0;
  period_ptr = 0;
  is_on = false;
  pwm_on = false;
  configs = [];
  tm1 = none;
  t1 = 0;
  duty_cycle_ns = 0;
  period_ns = 0;
  elapsed = 0;
}

abbrev pub unbound : Bound
unbound = record { dev = zeroed; pwm_left = false; card = no_card; drvdata = false }

abbrev no_buffer : Runtime
no_buffer = record { dma_area = []; buffer_size = 0; period_size = 0 }

abbrev with_card : Bound → Card × Result (Unit {0}) → Bound × Result (Unit {0})
with_card b (c, r) = (record b { card = c }, r)

-- the registration on the card of the device
abbrev register_card : SoundCore → M Bound (Unit {0})
register_card s b = with_card b (snd_register s b.card)

-- `cb1` for a timer that expires with `is_on` at 0, before there is a buffer
abbrev expiry : Bool → Bound → Bound
expiry expires b = record b { dev = if expires then cb1 no_buffer b.dev else b.dev }

-- `picocalc_probe`. A failed `devm_pwm_get` becomes -1, which is -EPERM. `pwm_enable` always returns
-- 0, so its error branch is dead. `expires` says whether the timer that it starts, with `is_on` still 0,
-- expires before the probe returns.
unfoldable pub probe : Bool → Bool → Bool → SoundCore → M Bound (Unit {0})
unfolding pwm_enable
probe kzalloc pwm_get expires s = do
  ask_pointer kzalloc enomem
  change (λ b. record b {
    dev = record b.dev { duty_cycle_ns = default_duty_cycle; period_ns = default_period };
  })
  ask_pointer pwm_get 1
  change (λ b. record b { pwm_left = true; dev = pwm_enable b.dev; drvdata = true })
  change (expiry expires)
  register_card s

-- `picocalc_remove`
unfoldable pub remove : Bound → Bound
unfolding pwm_disable
remove b = record b { dev = pwm_disable b.dev; card = free_card b.card }

-- The device after `pwm_enable` in the probe: silent, its timer armed for one period.
abbrev pub started : Dev
started = record zeroed {
  pwm_on = true;
  configs = default_duty_cycle ∷ [];
  tm1 = some default_period;
  t1 = default_period;
  duty_cycle_ns = default_duty_cycle;
  period_ns = default_period;
}

-- With memory and a channel, a probe returns the first error of the sound core, or 0, with a
-- registered card just when it is 0. The channel is on at zero duty; the timer is armed until it
-- expires.
probe_lem :
    (expires : Bool) (s : SoundCore)
    → probe true true expires s unbound ≡ (
      expiry expires (record {
        dev = started;
        pwm_left = true;
        card = if is_ok (first_error s) then live_card else no_card;
        drvdata = true;
      }),
      first_error s,
    )
unfolding probe
probe_lem expires s = rw (snd_register_lem s) refl

-- A remove frees the card and programs zero duty, but it does not cancel the timer: one that a stream
-- has left armed stays armed when the driver core frees the memory.
remove_armed :
    (b : Bound)
    → let gone = remove b in
      (gone.card ≡ no_card)
      × (gone.dev.configs ≡ default_duty_cycle ∷ b.dev.configs)
      × (gone.dev.tm1 ≡ b.dev.tm1)
unfolding remove
remove_armed b = (refl, refl, refl)
