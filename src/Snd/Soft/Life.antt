-- ===== src/Snd/Soft/Life.antt =====
-- Probe and remove of picocalc_snd_softpwm.c. The device's memory is managed: the driver core frees
-- it after a probe that fails and after a remove.
use meta_picocalc.Prelude.{
  ℕ, ◌≡◌, refl, Bool, true, false, if◌then◌else◌, Option, none, some, Result, ok, err, enomem,
}
use meta_picocalc.Kernel.{M, ◌>>=◌, ◌>>◌, change, ask, ask_pointer, is_ok}
use meta_picocalc.Gpio.{Wiring, Line, request_one_gpio}
use meta_picocalc.Snd.Register.{
  Card, no_card, live_card, SoundCore, snd_register, first_error, free_card, snd_register_lem,
}
use meta_picocalc.Snd.Soft.Defs.{
  Dev, default_duty_cycle, default_period, pwm_enable, pwm_disable, probed, cb1,
}

-- The device with its pin and its card; `drvdata` is what `platform_set_drvdata` stored.
pub record Bound : Type 0 where
  pub dev : Dev
  pub left_pin : Option Line
  pub card : Card
  pub drvdata : Bool

-- zeroed memory, as `devm_kzalloc` gives it
abbrev pub zeroed : Dev
zeroed = record {
  data_ptr = 0;
  period_ptr = 0;
  is_on = false;
  left_gpio = 0;
  tm1 = none;
  tm2 = none;
  t1 = 0;
  duty_cycle_ns = 0;
  period_ns = 0;
  cnt = 0;
  elapsed = 0;
}

abbrev pub unbound : Bound
unbound = record { dev = zeroed; left_pin = none; card = no_card; drvdata = false }

abbrev with_card : Bound → Card × Result (Unit {0}) → Bound × Result (Unit {0})
with_card b (c, r) = (record b { card = c }, r)

-- the level of the pin that was requested, if there is one
abbrev pub level_of : Option Line → ℕ
level_of none = 0
level_of (some line) = line.level

-- the registration on the card of the device
abbrev register_card : SoundCore → M Bound (Unit {0})
register_card s b = with_card b (snd_register s b.card)

-- the expiry of the timer that `pwm_enable` has started, with `is_on` still 0
abbrev expiry : Bool → Bound → Bound
expiry expires b = record b { dev = if expires then cb1 b.dev else b.dev }

-- `picocalc_probe`. `pwm_enable` always returns 0, so its error branch is dead. `expires` says
-- whether the timer that it starts expires before the probe returns.
unfoldable pub probe : Bool → Bool → Wiring → SoundCore → M Bound (Unit {0})
unfolding pwm_enable
probe kzalloc expires w s = do
  ask_pointer kzalloc enomem
  line ← ask (request_one_gpio w)
  change (λ b. record b {
    left_pin = line;
    dev = pwm_enable (record b.dev {
      left_gpio = level_of line;
      duty_cycle_ns = default_duty_cycle;
      period_ns = default_period;
    });
    drvdata = true;
  })
  change (expiry expires)
  register_card s

-- `picocalc_remove`, with no start command on the way
unfoldable pub remove : Bound → Bound
unfolding pwm_disable
remove b = record b { dev = pwm_disable b.dev; card = free_card b.card }

module _ (expires : Bool) (w : Wiring) (s : SoundCore) (line : Option Line)
    (pin : request_one_gpio w ≡ ok line) where
  abbrev pub outcome : Bound × Result (Unit {0})
  outcome = (
    expiry expires (record {
      dev = probed (level_of line);
      left_pin = line;
      card = if is_ok (first_error s) then live_card else no_card;
      drvdata = true;
    }),
    first_error s,
  )

  -- A probe that got its memory and its pin returns the first error of the sound core, or 0 with the
  -- card registered; the device has the level that the pin was requested with.
  probe_lem : probe true expires w s unbound ≡ outcome
  unfolding probe probed
  probe_lem = rw (pin, snd_register_lem s) refl

-- When such a probe fails before the timer has expired, there is no card, but the timer is armed when
-- the driver core frees the memory.
probe_failure_armed :
    (w : Wiring) (s : SoundCore) (line : Option Line) (e : ℕ)
    → request_one_gpio w ≡ ok line
    → first_error s ≡ err e
    → let (b, r) = probe true false w s unbound in
      (r ≡ err e) × (b.card ≡ no_card) × (b.dev.tm1 ≡ some default_period)
unfolding probed
probe_failure_armed w s line e pin h = rw (probe_lem false w s line pin, h) (refl, refl, refl)

-- A remove that no start command comes into leaves no timer armed and no card.
remove_disarms :
    (b : Bound)
    → ((remove b).dev.tm1 ≡ none) × ((remove b).dev.tm2 ≡ none) × ((remove b).card ≡ no_card)
unfolding remove
remove_disarms b = (refl, refl, refl)
