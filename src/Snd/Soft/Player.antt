-- ===== src/Snd/Soft/Player.antt =====
-- A playback of the software PWM driver: user space writes samples into the ring while the two
-- timers, on one clock, play them. Its steps, and what a write does to the progress.
use meta_picocalc.Prelude.{
  ℕ, zero, suc, refl, List, [], ◌∷◌, ◌++◌, ◌≡◌, ◌<◌, ◌≤◌, ◌+◌, ◌%◌, length, get_or, true, false,
  none, arith, ap, ap₂, ◌∙◌, sym, length-append, ◌*◌,
}
use native.Mathlib.Decide.{dec_lt}
use meta_picocalc.Snd.Cursor.{Runtime}
use meta_picocalc.Snd.Ring.{written, get_or-append, get_or-last}
use meta_picocalc.Snd.Soft.Defs.{duty_of, default_period}
use meta_picocalc.Snd.Soft.Cycle.{IsPlaying}
use meta_picocalc.Snd.Soft.Clock.{Clock, expire}
use meta_picocalc.Snd.Soft.Wave.{started}
use meta_picocalc.Prelude.{◌-◌}

-- The driver with its clock and its ring; `stream` is what user space has written, and `pos` the
-- sample of it that is played next.
pub record Player : Type 0 where
  pub rt : Runtime
  pub clock : Clock
  pub stream : List ℕ
  pub pos : ℕ

-- for how long the pin should be high while the first `n` samples of a stream are played
abbrev pub high_times : List ℕ → ℕ → ℕ
high_times stream zero = 0
high_times stream (suc n) = high_times stream n + duty_of (get_or stream n 0) default_period

-- User space writes a sample between the extremes, less than a ring ahead of the one that is next;
-- the core starts a stopped stream that has a sample, with both timers idle; and while the device plays and the sample
-- after the next one is there, the timers expire twice, each time the one that is due first.
pub data Step : Player → Player → Type 0 where
  writes :
      (p : Player) (v : ℕ)
      → 0 < v
      → v < 255
      → length p.stream < p.pos + p.rt.buffer_size
      → Step p (record p { rt = written p.rt p.stream v; stream = p.stream ++ (v ∷ []) })
  starts :
      (p : Player) (t : ℕ)
      → p.clock.dev.is_on ≡ false
      → p.clock.dev.tm1 ≡ none
      → p.clock.dev.tm2 ≡ none
      → 0 < length p.stream
      → Step p (record p { clock = started p.rt t p.clock.dev })
  plays :
      (p : Player)
      → p.clock.dev.is_on ≡ true
      → suc p.pos < length p.stream
      → Step p (record p { clock = expire p.rt (expire p.rt p.clock); pos = suc p.pos })

pub data Steps : Player → Player → Type 0 where
  here : (p : Player) → Steps p p
  after : (p q r : Player) → Steps p q → Step q r → Steps p r

pub record IsAtSample (p : Player) : Type 0 where
  pub playing : IsPlaying p.rt p.clock.dev
  pub no_fall : p.clock.dev.tm2 ≡ none
  pub low : p.clock.dev.left_gpio * (p.clock.due1 - p.clock.now) ≡ 0
  pub fallen : 0 < p.pos → p.clock.dev.left_gpio ≡ 0
  pub period : p.clock.dev.t1 ≡ default_period
  pub inside : p.pos < length p.stream
  pub place : p.clock.dev.data_ptr ≡ p.pos % p.rt.buffer_size
  pub sample : p.clock.dev.duty_cycle_ns ≡ duty_of (get_or p.stream p.pos 0) default_period
  pub high : p.clock.high ≡ high_times p.stream p.pos

-- Nothing of the stream is played yet, or it is at a sample.
pub data Progress (p : Player) : Type 0 where
  idle : p.clock.dev.is_on ≡ false → p.pos ≡ 0 → p.clock.dev.period_ns ≡ default_period → Progress p
  plays_at : IsAtSample p → Progress p

abbrev pub IsHeard : List ℕ → Type 0
IsHeard stream = (i : ℕ) → i < length stream → (0 < get_or stream i 0) × (get_or stream i 0 < 255)

high_times-append :
    (stream : List ℕ) (v n : ℕ)
    → n ≤ length stream
    → high_times (stream ++ (v ∷ [])) n ≡ high_times stream n
high_times-append stream v zero h = refl
high_times-append stream v (suc n) h =
    ap₂ (λ (a b : ℕ). a + duty_of b default_period)
      (high_times-append stream v n (omega (arith, h)))
      (get_or-append stream (v ∷ []) n (omega (arith, h)))

pub writes-IsHeard :
    (stream : List ℕ) (v : ℕ) → 0 < v → v < 255 → IsHeard stream → IsHeard (stream ++ (v ∷ []))
writes-IsHeard stream v a b h i k = elim (dec_lt i (length stream)) [
  | yes q ↦ omega (arith, get_or-append stream (v ∷ []) i q, h i q)
  | no q ↦
      let last : i ≡ length stream = omega (arith, q, k, length-append stream (v ∷ [])) in
      let there : get_or (stream ++ (v ∷ [])) i 0 ≡ v =
        ap (λ (j : ℕ). get_or (stream ++ (v ∷ [])) j 0) last ∙ get_or-last stream v in
      omega (arith, there, a, b)
]

pub writes_progress :
    (p : Player) (v : ℕ)
    → Progress p
    → Progress (record p { rt = written p.rt p.stream v; stream = p.stream ++ (v ∷ []) })
writes_progress p v (idle off at fixed) = idle off at fixed
writes_progress p v (plays_at s) = plays_at (record {
  playing = record {
    valid = record {
      data_in = s.playing.valid.data_in;
      period_in = s.playing.valid.period_in;
      duty_in = s.playing.valid.duty_in;
      fixed = s.playing.valid.fixed;
      no_count = s.playing.valid.no_count;
    };
    on = s.playing.on;
    high = s.playing.high;
    low = s.playing.low;
  };
  no_fall = s.no_fall;
  low = s.low;
  fallen = s.fallen;
  period = s.period;
  inside = omega (arith, s.inside, length-append p.stream (v ∷ []));
  place = s.place;
  sample =
      s.sample
      ∙ ap (λ (x : ℕ). duty_of x default_period)
          (sym (get_or-append p.stream (v ∷ []) p.pos s.inside));
  high = s.high ∙ sym (high_times-append p.stream v p.pos (omega (arith, s.inside)));
})
