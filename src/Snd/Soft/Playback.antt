-- ===== src/Snd/Soft/Playback.antt =====
-- What the pin of the software PWM driver plays in a whole playback: the samples written, in order.
use meta_picocalc.Prelude.{
  ℕ, suc, refl, [], ◌≡◌, ◌<◌, ◌≤◌, ◌+◌, ◌%◌, length, get_or, true, false, arith, ap, ap₂, subst,
  ◌∙◌, sym,
}
use native.Mathlib.Nat.{mod-eq_of_lt, mod-add-mod}
use meta_picocalc.Snd.Cursor.{IsPrepared, bump, bump-eq-mod}
use meta_picocalc.Snd.Ring.{IsAhead, written-IsAhead, next-IsAhead}
use meta_picocalc.Snd.Soft.Defs.{duty_of, default_period, pcm_trigger, pcm_pointer}
use meta_picocalc.Snd.Soft.Cycle.{next-IsPlaying}
use meta_picocalc.Snd.Soft.Player.{
  Player, Step, writes, starts, plays, Steps, here, after, high_times, IsAtSample, Progress, idle,
  plays_at, IsHeard, writes-IsHeard, writes_progress,
}
use meta_picocalc.Snd.Soft.Clock.{expire, fires1, fires2}
use meta_picocalc.Snd.Soft.Wave.{
  IsLow, started, started-IsLow, next-IsLow, moved_lem, two_steps, high_lem, next_dev, lowered_pin,
}

record IsSound (p : Player) : Type 0 where
  ahead : IsAhead p.rt p.stream p.pos
  heard : IsHeard p.stream
  progress : Progress p

behind_end : (p : Player) → Progress p → p.pos ≤ length p.stream
behind_end p (idle off at fixed) = omega (arith, at)
behind_end p (plays_at s) = omega (arith, s.inside)

module _ (p : Player) (a : IsAhead p.rt p.stream p.pos) where
  at-IsLow : IsAtSample p → IsLow p.rt p.clock
  at-IsLow s = record {
    playing = s.playing;
    no_fall = s.no_fall;
    low = s.low;
    period = s.period;
    current =
        s.sample
        ∙ ap (λ (x : ℕ). duty_of x default_period)
            (sym (a.stands p.pos (omega arith) s.inside)
              ∙ ap (λ (x : ℕ). get_or p.rt.dma_area x 0) (sym s.place));
  }

  -- a device at the end of a cycle, with its cursor at the sample, is at that sample
  low-IsAtSample :
      IsLow p.rt p.clock
      → p.pos < length p.stream
      → p.clock.dev.data_ptr ≡ p.pos % p.rt.buffer_size
      → p.clock.high ≡ high_times p.stream p.pos
      → (0 < p.pos → p.clock.dev.left_gpio ≡ 0)
      → IsAtSample p
  low-IsAtSample k inside place high fallen = record {
    playing = k.playing;
    no_fall = k.no_fall;
    low = k.low;
    fallen = fallen;
    period = k.period;
    inside = inside;
    place = place;
    sample =
        k.current
        ∙ ap (λ (x : ℕ). duty_of x default_period)
            (ap (λ (x : ℕ). get_or p.rt.dma_area x 0) place ∙ a.stands p.pos (omega arith) inside);
    high = high;
  }

starts_progress :
    (p : Player) (t : ℕ)
    → IsAhead p.rt p.stream p.pos
    → IsHeard p.stream
    → Progress p
    → p.clock.dev.is_on ≡ false
    → 0 < length p.stream
    → Progress (record p { clock = started p.rt t p.clock.dev })
unfolding pcm_trigger
starts_progress p t a h (idle off at fixed) o k =
    let first : get_or p.rt.dma_area 0 0 ≡ get_or p.stream 0 0 =
      ap (λ (x : ℕ). get_or p.rt.dma_area x 0) (sym (mod-eq_of_lt a.fit.some_buffer))
      ∙ a.stands 0 (omega (arith, at)) k in
    plays_at (
      low-IsAtSample (record p { clock = started p.rt t p.clock.dev }) a
        (started-IsLow p.rt a.fit t p.clock.dev (omega (arith, first, h 0 k))
          (omega (arith, first, h 0 k)) fixed)
        (omega (arith, at, k)) (rw (at, mod-eq_of_lt a.fit.some_buffer) refl) (rw at refl)
        (λ h. absurd (omega (arith, at, h))))
starts_progress p t a h (plays_at s) o k = ground (arith, s.playing)

next_place : (d pos size : ℕ) → d ≡ pos % size → (d + 1) % size ≡ suc pos % size
next_place d pos size e =
    ap (λ (t : ℕ). (t + 1) % size) e
    ∙ mod-add-mod pos size 1
    ∙ ap (λ (t : ℕ). t % size) (omega arith)

plays_progress :
    (p : Player)
    → IsAhead p.rt p.stream p.pos
    → IsHeard p.stream
    → Progress p
    → p.clock.dev.is_on ≡ true
    → suc p.pos < length p.stream
    → Progress (record p { clock = expire p.rt (expire p.rt p.clock); pos = suc p.pos })
plays_progress p a h (idle off at fixed) o more = ground arith
plays_progress p a h (plays_at s) o more =
    let c = p.clock in
    let k = at-IsLow p a s in
    let there = next_place c.dev.data_ptr p.pos p.rt.buffer_size s.place in
    let sample : get_or p.rt.dma_area (bump c.dev.data_ptr p.rt.buffer_size) 0
        ≡ get_or p.stream (suc p.pos) 0 =
      ap (λ (x : ℕ). get_or p.rt.dma_area x 0)
        (bump-eq-mod c.dev.data_ptr p.rt.buffer_size s.playing.valid.data_in (omega (arith, a.fit))
          ∙ there)
      ∙ a.stands (suc p.pos) (omega arith) more in
    let heard = h (suc p.pos) more in
    let next =
      next-IsPlaying a.fit s.playing (omega (arith, sample, heard))
        (omega (arith, sample, heard)) in
    subst (λ x. Progress (record p { clock = x; pos = suc p.pos })) (sym (two_steps p.rt c k))
      (plays_at (
        low-IsAtSample (record p { clock = fires2 p.rt (fires1 c); pos = suc p.pos })
          (next-IsAhead p.rt p.stream p.pos a) (next-IsLow p.rt a.fit c k next) more
          (ap (λ x. x.data_ptr) (next_dev p.rt c k) ∙ moved_lem p.rt a.fit c k ∙ there)
          (high_lem p.rt c k ∙ ap₂ (λ (x y : ℕ). x + y) s.high s.sample)
          (λ h. ap (λ x. x.left_gpio) (next_dev p.rt c k) ∙ (lowered_pin p.rt c k a.fit).1)))

Step-IsSound : {p q : Player} → Step p q → IsSound p → IsSound q
Step-IsSound (writes p v b1 b2 free) s = record {
  ahead =
      written-IsAhead p.rt p.stream p.pos s.ahead v (omega (arith, b2)) free
        (behind_end p s.progress);
  heard = writes-IsHeard p.stream v b1 b2 s.heard;
  progress = writes_progress p v s.progress;
}
Step-IsSound (starts p t off idle1 idle2 some_sample) s = record {
  ahead = s.ahead;
  heard = s.heard;
  progress = starts_progress p t s.ahead s.heard s.progress off some_sample;
}
Step-IsSound (plays p on more) s = record {
  ahead = next-IsAhead p.rt p.stream p.pos s.ahead;
  heard = s.heard;
  progress = plays_progress p s.ahead s.heard s.progress on more;
}

Steps-IsSound : {p q : Player} → Steps p q → IsSound p → IsSound q
Steps-IsSound (here p) s = s
Steps-IsSound (after p q r h k) s = Step-IsSound k (Steps-IsSound h s)

-- a prepared stopped driver before its first sample
pub record IsReady (p : Player) : Type 0 where
  pub fit : IsPrepared p.rt
  pub room : p.rt.buffer_size ≤ length p.rt.dma_area
  pub off : p.clock.dev.is_on ≡ false
  pub period : p.clock.dev.period_ns ≡ default_period
  pub empty : p.stream ≡ []
  pub at_start : p.pos ≡ 0

IsReady-IsSound : {p : Player} → IsReady p → IsSound p
IsReady-IsSound {p} r = record {
  ahead = record {
    fit = r.fit;
    room = r.room;
    within = rw (r.empty) (omega arith);
    stands = λ i h k. absurd (omega (arith, k, ap length r.empty));
  };
  heard = λ i k. absurd (omega (arith, k, ap length r.empty));
  progress = idle r.off r.at_start r.period;
}

-- From a prepared stopped driver, after any sequence of writes of samples between the extremes, less
-- than a ring ahead of the one that is next, starts of a stopped stream that has a sample while both
-- timers are idle, and pairs of timer expiries, each of the timer that is due first, while the sample
-- after the next one is there: when the device plays, the pin has been high, since the first expiry
-- after the start, for the sum of the times that the samples before the next one stand for, in the
-- order written and each once; after the first of them the pin is low, the duty cycle is that of the
-- next sample, and the position reported is its place in the ring.
pub waves_what_was_written :
    (p q : Player)
    → IsReady p
    → Steps p q
    → q.clock.dev.is_on ≡ true
    → (q.clock.high ≡ high_times q.stream q.pos)
      × (0 < q.pos → q.clock.dev.left_gpio ≡ 0)
      × (q.clock.dev.duty_cycle_ns ≡ duty_of (get_or q.stream q.pos 0) default_period)
      × (pcm_pointer q.clock.dev ≡ q.pos % q.rt.buffer_size)
      × (q.pos < length q.stream)
unfolding pcm_pointer
waves_what_was_written p q r run on = elim (Steps-IsSound run (IsReady-IsSound r)).progress [
  | idle off at fixed ↦ ground arith
  | plays_at s ↦ (s.high, s.fallen, s.sample, s.place, s.inside)
]
