-- ===== src/Snd/Soft/Clock.antt =====
-- The two timers of picocalc_snd_softpwm.c on one clock: the one that is due first fires first.
use meta_picocalc.Prelude.{
  ℕ, zero, suc, some, none, ltb, ◌+◌, Bool, Option, if◌then◌else◌, ◌*◌, ◌&&◌,
}
use meta_picocalc.Snd.Cursor.{Runtime}
use meta_picocalc.Snd.Soft.Defs.{Dev, cb1, cb2}
use meta_picocalc.Prelude.{◌-◌, not, ◌==◌}

-- `due1` and `due2` are the times at which the armed timers expire, and `high` is for how long the
-- pin has been high, in ns.
pub record Clock : Type 0 where
  pub dev : Dev
  pub now : ℕ
  pub due1 : ℕ
  pub due2 : ℕ
  pub high : ℕ

-- the time goes on to `t`
abbrev pub at : ℕ → Clock → Clock
at t c = record c { now = t; high = c.high + c.dev.left_gpio * (t - c.now) }

-- the condition under which `cb1` starts the second timer
abbrev pub asks_fall : Dev → Bool
asks_fall d = d.is_on && (not (d.duty_cycle_ns == 0) && ltb d.duty_cycle_ns d.period_ns)

-- `hrtimer_forward` moves the expiry on by `t1`, and `hrtimer_start` counts from now.
unfoldable pub fires1 : Clock → Clock
fires1 c = record (at c.due1 c) {
  dev = cb1 c.dev;
  due1 = c.due1 + c.dev.t1;
  due2 = if asks_fall c.dev then c.due1 + c.dev.duty_cycle_ns else c.due2;
}

unfoldable pub fires2 : Runtime → Clock → Clock
fires2 rt c = record (at c.due2 c) { dev = cb2 rt c.dev }

-- the timer that expires next, the second one if it is armed and due before the first
abbrev pub expire_by : Runtime → Clock → Option ℕ → Clock
expire_by rt c none = fires1 c
expire_by rt c (some t) = if ltb c.due2 c.due1 then fires2 rt c else fires1 c

abbrev pub expire : Runtime → Clock → Clock
expire rt c = expire_by rt c c.dev.tm2

unfoldable pub run : Runtime → ℕ → Clock → Clock
run rt zero c = c
run rt (suc n) c = run rt n (expire rt c)
