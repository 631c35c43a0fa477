-- ===== src/Snd/Soft/Stall.antt =====
-- A sample of 0 or 255 stops the playback: `cb1` arms the second timer only if
-- 0 < duty_cycle_ns < period_ns, and only the second timer's callback fetches the next sample.
use meta_picocalc.Prelude.{ℕ, ◌≤◌, ◌≡◌, refl, arith, get_or, none, ◌⊎◌, true}
use meta_picocalc.Snd.Cursor.{Runtime, bump}
use meta_picocalc.Snd.Soft.Defs.{
  Dev, duty_of, cb1, cb2, default_period, Tick, fire1, fire2, Ticks, here, next,
}
use meta_picocalc.Snd.Soft.Invariant.{IsValid}

-- No falling slope is pending, and `cb1` will not ask for one.
pub record IsStalled (d : Dev) : Type 0 where
  pub unarmed : d.tm2 ≡ none
  pub flat : (d.duty_cycle_ns ≡ 0) ⊎ (d.period_ns ≤ d.duty_cycle_ns)

cb1-IsStalled :
    {d : Dev}
    → IsStalled d
    → IsStalled (cb1 d) × ((cb1 d).data_ptr ≡ d.data_ptr) × ((cb1 d).elapsed ≡ d.elapsed)
unfolding cb1
cb1-IsStalled s = ground arith

duty_of_extreme :
    (s : ℕ)
    → (s ≡ 0) ⊎ (s ≡ 255)
    → (duty_of s default_period ≡ 0) ⊎ (default_period ≤ duty_of s default_period)
unfolding duty_of
duty_of_extreme s h = omega arith

module _ {rt : Runtime} where
  Tick-IsStalled :
      {d e : Dev}
      → Tick rt d e
      → IsStalled d
      → IsStalled e × (e.data_ptr ≡ d.data_ptr) × (e.elapsed ≡ d.elapsed)
  Tick-IsStalled (fire1 x q) s = cb1-IsStalled s
  Tick-IsStalled (fire2 x q) s = ground (arith, s.unarmed)

  -- In a stalled device the timers never move the ring cursor and never report a period.
  pub Ticks-IsStalled :
      {d e : Dev}
      → Ticks rt d e
      → IsStalled d
      → IsStalled e × (e.data_ptr ≡ d.data_ptr) × (e.elapsed ≡ d.elapsed)
  Ticks-IsStalled here s = (s, refl, refl)
  Ticks-IsStalled (next r t) s =
      ground (arith, Ticks-IsStalled r s, Tick-IsStalled t (Ticks-IsStalled r s).0)

  cb2_extreme :
      {d : Dev}
      → IsValid rt d
      → d.is_on ≡ true
      → let s = get_or rt.dma_area (bump d.data_ptr rt.buffer_size) 0 in
        (s ≡ 0) ⊎ (s ≡ 255) → IsStalled (cb2 rt d)
  unfolding cb2
  cb2_extreme {d} v on h =
      ground (arith, v, duty_of_extreme (get_or rt.dma_area (bump d.data_ptr rt.buffer_size) 0) h)

  -- Once a running device fetches a sample of 0 or 255, no sequence of timer firings takes it to
  -- another sample or makes it report another period.
  pub extreme_sample_stalls :
      {d e : Dev}
      → IsValid rt d
      → d.is_on ≡ true
      → let s = get_or rt.dma_area (bump d.data_ptr rt.buffer_size) 0 in
        (s ≡ 0) ⊎ (s ≡ 255)
        → Ticks rt (cb2 rt d) e
        → (e.data_ptr ≡ bump d.data_ptr rt.buffer_size) × (e.elapsed ≡ (cb2 rt d).elapsed)
  unfolding cb2
  extreme_sample_stalls {d} {e} v on h ticks =
      ground (arith, v, on, Ticks-IsStalled ticks (cb2_extreme v on h))
