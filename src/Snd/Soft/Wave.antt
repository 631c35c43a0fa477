-- ===== src/Snd/Soft/Wave.antt =====
-- The waveform on the pin.
use meta_picocalc.Prelude.{
  ℕ, zero, suc, refl, some, none, true, ltb, ◌+◌, ◌≡◌, arith, ◌*◌, get_or, ap,
}
use meta_picocalc.Snd.Cursor.{Runtime, IsPrepared, bump-eq-mod, start}
use meta_picocalc.Snd.Soft.Defs.{Dev, duty_of, next_sample, default_period, pcm_trigger}
use meta_picocalc.Snd.Soft.Cycle.{
  IsPlaying, IsAudible, cycle, play, cycle-IsPlaying, cycle_lem, cycle-eq, cb1_raises,
  duty_of_audible,
}
use meta_picocalc.Prelude.{◌∙◌, ◌-◌, ◌<◌, subst, ◌%◌, sym, ap₂}
use meta_picocalc.Snd.Soft.Clock.{Clock, fires1, fires2, expire_by, expire, run}

-- A device that plays, before a cycle: the pin is low, or the cycle's first expiry is now.
pub record IsLow (rt : Runtime) (c : Clock) : Type 0 where
  pub playing : IsPlaying rt c.dev
  pub no_fall : c.dev.tm2 ≡ none
  pub low : c.dev.left_gpio * (c.due1 - c.now) ≡ 0
  pub period : c.dev.t1 ≡ default_period
  pub current : c.dev.duty_cycle_ns ≡ duty_of (get_or rt.dma_area c.dev.data_ptr 0) default_period

early : (a d t : ℕ) → d < t → ltb (a + d) (a + t) ≡ true
early a d t h = ground arith

high_sum : (h g d x a b r : ℕ) → g * x ≡ 0 → r ≡ 1 → b ≡ a + d → h + g * x + r * (b - a) ≡ h + d
high_sum h g d x a b r p q e = rw (p, q, e) (omega arith)

module _ (rt : Runtime) (c : Clock) (k : IsLow rt c) where
  raised :
      (fires1 c).dev
      ≡ record c.dev { tm1 = some c.dev.t1; left_gpio = 1; tm2 = some c.dev.duty_cycle_ns }
  unfolding fires1
  raised = cb1_raises k.playing

  falls : (fires1 c).due2 ≡ c.due1 + c.dev.duty_cycle_ns
  unfolding fires1
  falls = ground (arith, k.playing.on, k.playing.high, k.playing.low)

  fall_first : ltb (fires1 c).due2 (fires1 c).due1 ≡ true
  unfolding fires1
  fall_first =
      ap (λ x. ltb x (c.due1 + c.dev.t1)) falls
      ∙ early c.due1 c.dev.duty_cycle_ns c.dev.t1
          (omega (arith, k.playing.low, k.playing.valid.fixed, k.period))

  pub two_steps : expire rt (expire rt c) ≡ fires2 rt (fires1 c)
  two_steps =
      ap (λ o. expire rt (expire_by rt c o)) k.no_fall
      ∙ ap (expire_by rt (fires1 c)) (ap (λ d. d.tm2) raised)
      ∙ rw fall_first refl

  pub high_lem : (fires2 rt (fires1 c)).high ≡ c.high + c.dev.duty_cycle_ns
  unfolding fires1 fires2
  high_lem =
      high_sum c.high c.dev.left_gpio c.dev.duty_cycle_ns (c.due1 - c.now) c.due1 (fires1 c).due2
        (fires1 c).dev.left_gpio k.low (ap (λ d. d.left_gpio) raised) falls

  next_due : (fires2 rt (fires1 c)).due1 ≡ c.due1 + default_period
  unfolding fires1 fires2
  next_due = ap (λ t. c.due1 + t) k.period

  pub next_dev : (fires2 rt (fires1 c)).dev ≡ cycle rt c.dev
  unfolding fires1 fires2 cycle
  next_dev = refl

  pub lowered_pin :
      IsPrepared rt
      → ((cycle rt c.dev).tm2 ≡ none)
        × ((cycle rt c.dev).left_gpio ≡ 0)
        × ((cycle rt c.dev).t1 ≡ default_period)
  unfolding next_sample
  lowered_pin p = rw (cycle-eq p k.playing) (refl, refl, k.period)

-- for how long the pin should be high while the `n` samples from place `p` of the ring on are played
abbrev pub high_phases : Runtime → ℕ → ℕ → ℕ
high_phases rt p zero = 0
high_phases rt p (suc n) =
    duty_of (get_or rt.dma_area p 0) default_period + high_phases rt ((p + 1) % rt.buffer_size) n

-- The clock after a start command at time `t` on idle timers, when the first of them is due: nothing
-- happens before. `high` counts from here on.
abbrev pub started : Runtime → ℕ → Dev → Clock
started rt t d = record {
  dev = (pcm_trigger rt d start).0;
  now = t + default_period;
  due1 = t + default_period;
  due2 = 0;
  high = 0;
}

none_of : (g x : ℕ) → g * (x - x) ≡ 0
none_of g x = let e : x - x ≡ 0 = omega arith in rw e (omega arith)

module _ (rt : Runtime) (prepared : IsPrepared rt) where
  pub next-IsLow :
      (c : Clock) → IsLow rt c → IsPlaying rt (cycle rt c.dev) → IsLow rt (fires2 rt (fires1 c))
  next-IsLow c k next =
      let (off, low, period) = lowered_pin rt c k prepared in
      let (moved, duty, _, _, fixed) = cycle_lem prepared k.playing in
      subst (λ d. IsLow rt (record (fires2 rt (fires1 c)) { dev = d })) (sym (next_dev rt c k))
        (record {
          playing = next;
          no_fall = off;
          low = rw low (omega arith);
          period = period;
          current =
              duty
              ∙ ap₂ (λ i t. duty_of (get_or rt.dma_area i 0) t) (sym moved) k.playing.valid.fixed;
        })

  pub moved_lem :
      (c : Clock) → IsLow rt c → (cycle rt c.dev).data_ptr ≡ (c.dev.data_ptr + 1) % rt.buffer_size
  moved_lem c k =
      (cycle_lem prepared k.playing).0
      ∙ bump-eq-mod c.dev.data_ptr rt.buffer_size k.playing.valid.data_in (omega (arith, prepared))

  pub started-IsLow :
      (t : ℕ) (d : Dev)
      → 0 < get_or rt.dma_area 0 0
      → get_or rt.dma_area 0 0 < 255
      → d.period_ns ≡ default_period
      → IsLow rt (started rt t d)
  unfolding pcm_trigger
  started-IsLow t d a b p =
      let (up, down) = duty_of_audible (get_or rt.dma_area 0 0) a b in
      let same = ap (duty_of (get_or rt.dma_area 0 0)) p in
      record {
        playing = record {
          valid = record {
            data_in = prepared.some_buffer;
            period_in = prepared.some_period;
            duty_in = omega (arith, down, p, same);
            fixed = p;
            no_count = refl;
          };
          on = refl;
          high = omega (arith, up, same);
          low = omega (arith, down, p, same);
        };
        no_fall = refl;
        low = none_of d.left_gpio (t + default_period);
        period = p;
        current = same;
      }

module _ (rt : Runtime) (prepared : IsPrepared rt) (audible : IsAudible rt) where
  -- what `n` cycles, of two expiries each, have done
  abbrev pub Waves : ℕ → Clock → Clock → Type 0
  Waves n c e =
      (e.dev ≡ play rt n c.dev)
      × (e.due1 ≡ c.due1 + n * default_period)
      × (e.high ≡ c.high + high_phases rt c.dev.data_ptr n)
      × (c.dev.left_gpio ≡ 0 → e.dev.left_gpio ≡ 0)
      × (0 < n → e.dev.left_gpio ≡ 0)

  wave_lem : (n : ℕ) (c : Clock) → IsLow rt c → Waves n c (run rt (2 * n) c)
  unfolding run play
  wave_lem zero c k = (refl, omega arith, omega arith, λ l. l, λ h. absurd (omega (arith, h)))
  wave_lem (suc n) c k =
      let d = fires2 rt (fires1 c) in
      let two : 2 * suc n ≡ suc (suc (2 * n)) = omega arith in
      let (dev, due, high, lows, _) =
        wave_lem n d (next-IsLow rt prepared c k (cycle-IsPlaying prepared audible k.playing)) in
      let place : d.dev.data_ptr ≡ (c.dev.data_ptr + 1) % rt.buffer_size =
        ap (λ x. x.data_ptr) (next_dev rt c k) ∙ moved_lem rt prepared c k in
      let down : d.dev.left_gpio ≡ 0 =
        ap (λ x. x.left_gpio) (next_dev rt c k) ∙ (lowered_pin rt c k prepared).1 in
      let phases = ap (λ p. high_phases rt p n) place in
      subst (Waves (suc n) c)
        (sym (ap (λ m. run rt m c) two ∙ ap (run rt (2 * n)) (two_steps rt c k)))
        (
          dev ∙ ap (play rt n) (next_dev rt c k),
          omega (arith, due, next_due rt c k),
          omega (arith, high, high_lem rt c k, phases, k.current),
          λ l. lows down,
          λ h. lows down,
        )

  -- After the start command at time `t`, on a device whose timers are idle, while no sample of the ring
  -- is 0 or 255: the next `2 * n` timer expiries, each of the timer that is due first, are `n` cycles of
  -- `default_period`. They play the first `n` samples of the ring, the pin has been high, from the first
  -- expiry on, for the sum of the times that these samples stand for, and it is low at the end of a
  -- cycle.
  pub start_waves :
      (n t : ℕ) (d : Dev)
      → d.period_ns ≡ default_period
      → d.tm1 ≡ none
      → d.tm2 ≡ none
      → let e = run rt (2 * n) (started rt t d) in
        (e.dev ≡ play rt n (pcm_trigger rt d start).0)
        × (e.due1 ≡ t + suc n * default_period)
        × (e.high ≡ high_phases rt 0 n)
        × (0 < n → e.dev.left_gpio ≡ 0)
  unfolding pcm_trigger
  start_waves n t d p idle1 idle2 =
      let first = audible 0 prepared.some_buffer in
      let (dev, due, high, _, off) =
        wave_lem n (started rt t d) (started-IsLow rt prepared t d first.0 first.1 p) in
      (dev, omega (arith, due), omega (arith, high), off)
