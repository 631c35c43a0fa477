-- ===== src/Snd/Hard/Playback.antt =====
-- A whole playback of the PWM driver: user space writes samples into the ring while the timer plays
-- them.
use meta_picocalc.Prelude.{
  ℕ, zero, suc, refl, List, [], ◌∷◌, ◌++◌, ◌≡◌, ◌<◌, ◌+◌, ◌%◌, length, get_or, true, false, arith,
  ap, ◌∙◌, sym, ◌≤◌, length-append,
}
use native.Mathlib.Nat.{mod-eq_of_lt, mod-add-mod}
use meta_picocalc.Snd.Cursor.{Runtime, start, stop, IsPrepared}
use meta_picocalc.Snd.Ring.{IsAhead, written, written-IsAhead, next-IsAhead, get_or-append}
use meta_picocalc.Snd.Hard.Defs.{Dev, duty_of, cb1, pcm_trigger, pcm_pointer}
use meta_picocalc.Snd.Hard.Stream.{IsPlaying, cb1-IsPlaying, cb1_lem, start-IsPlaying}

-- The driver with its ring; `stream` is what user space has written for this playback, `pos` the
-- sample of it that is being played and `before` what was programmed before the playback started.
pub record Player : Type 0 where
  pub rt : Runtime
  pub dev : Dev
  pub stream : List ℕ
  pub pos : ℕ
  pub before : List ℕ

-- the duty cycles of the first `n` samples of a stream, newest first
abbrev pub programmed : List ℕ → ℕ → List ℕ
programmed stream zero = []
programmed stream (suc n) = duty_of (get_or stream n 0) ∷ programmed stream n

-- User space writes within a ring of the sample being played, the core starts a stopped stream that
-- has a sample and stops it at any time; while it plays, the timer fires when the next sample is
-- there.
pub data Step : Player → Player → Type 0 where
  writes :
      (p : Player) (v : ℕ)
      → v < 256
      → length p.stream < p.pos + p.rt.buffer_size
      → Step p (record p { rt = written p.rt p.stream v; stream = p.stream ++ (v ∷ []) })
  starts :
      (p : Player)
      → p.dev.is_on ≡ false
      → 0 < length p.stream
      → Step p (record p { dev = (pcm_trigger p.rt p.dev start).0; before = p.dev.configs })
  plays :
      (p : Player)
      → p.dev.is_on ≡ true
      → suc p.pos < length p.stream
      → Step p (record p { dev = cb1 p.rt p.dev; pos = suc p.pos })
  rests : (p : Player) → p.dev.is_on ≡ false → Step p (record p { dev = cb1 p.rt p.dev })
  stops :
      (p : Player)
      → Step p (record p { dev = (pcm_trigger p.rt p.dev stop).0; stream = []; pos = 0 })

pub data Steps : Player → Player → Type 0 where
  here : (p : Player) → Steps p p
  after : (p q r : Player) → Steps p q → Step q r → Steps p r

-- What the channel has been programmed with: nothing of a stream that has not been started, and of
-- one that plays every sample up to the one that is played.
pub data Progress (p : Player) : Type 0 where
  idle : p.dev.is_on ≡ false → p.pos ≡ 0 → Progress p
  playing :
      IsPlaying p.rt p.dev
      → p.pos < length p.stream
      → p.dev.data_ptr ≡ p.pos % p.rt.buffer_size
      → p.dev.configs ≡ programmed p.stream (suc p.pos) ++ p.before
      → Progress p

pub record IsSound (p : Player) : Type 0 where
  pub ahead : IsAhead p.rt p.stream p.pos
  pub progress : Progress p

programmed-append :
    (stream : List ℕ) (v n : ℕ)
    → n ≤ length stream
    → programmed (stream ++ (v ∷ [])) n ≡ programmed stream n
programmed-append stream v zero h = refl
programmed-append stream v (suc n) h =
    rw
      (
        get_or-append stream (v ∷ []) n (omega (arith, h)),
        programmed-append stream v n (omega (arith, h)),
      )
      refl

writes_progress :
    (p : Player) (v : ℕ)
    → Progress p
    → Progress (record p { rt = written p.rt p.stream v; stream = p.stream ++ (v ∷ []) })
writes_progress p v (idle off at) = idle off at
writes_progress p v (playing live inside at played) =
    playing (record { on = live.on; data_in = live.data_in; period_in = live.period_in })
      (omega (arith, inside, length-append p.stream (v ∷ []))) at
      (played
        ∙ ap (λ (xs : List ℕ). xs ++ p.before)
            (sym (programmed-append p.stream v (suc p.pos) inside)))

behind_end : (p : Player) → Progress p → p.pos ≤ length p.stream
behind_end p (idle off at) = omega (arith, at)
behind_end p (playing live inside at played) = omega (arith, inside)

starts_first : (p : Player) → Progress p → p.dev.is_on ≡ false → p.pos ≡ 0
starts_first p (idle off at) h = at
starts_first p (playing live inside at played) h = ground (arith, live)

rests_progress :
    (p : Player) → Progress p → p.dev.is_on ≡ false → Progress (record p { dev = cb1 p.rt p.dev })
unfolding cb1
rests_progress p s off = idle (ground arith) (starts_first p s off)

plays_progress :
    (p : Player)
    → IsAhead p.rt p.stream p.pos
    → Progress p
    → p.dev.is_on ≡ true
    → suc p.pos < length p.stream
    → Progress (record p { dev = cb1 p.rt p.dev; pos = suc p.pos })
plays_progress p a (idle off at) on more = ground arith
plays_progress p a (playing live inside at played) on more =
    let (at', played') = cb1_lem a.fit live in
    let place : (p.dev.data_ptr + 1) % p.rt.buffer_size ≡ suc p.pos % p.rt.buffer_size =
      ap (λ (t : ℕ). (t + 1) % p.rt.buffer_size) at
      ∙ mod-add-mod p.pos p.rt.buffer_size 1
      ∙ ap (λ (t : ℕ). t % p.rt.buffer_size) (omega arith) in
    playing (cb1-IsPlaying a.fit live) more (at' ∙ place)
      (rw (played', place, a.stands (suc p.pos) (omega arith) more, played) refl)

starts_progress :
    (p : Player)
    → IsAhead p.rt p.stream p.pos
    → p.pos ≡ 0
    → 0 < length p.stream
    → Progress (record p { dev = (pcm_trigger p.rt p.dev start).0; before = p.dev.configs })
unfolding pcm_trigger
starts_progress p a at some_sample =
    let first : get_or p.rt.dma_area 0 0 ≡ get_or p.stream 0 0 =
      ap (λ (t : ℕ). get_or p.rt.dma_area t 0) (sym (mod-eq_of_lt a.fit.some_buffer))
      ∙ a.stands 0 (omega (arith, at)) some_sample in
    playing (start-IsPlaying a.fit p.dev) (omega (arith, at, some_sample))
      (rw (at, mod-eq_of_lt a.fit.some_buffer) refl) (rw (at, first) refl)

stops_progress :
    (p : Player)
    → Progress (record p { dev = (pcm_trigger p.rt p.dev stop).0; stream = []; pos = 0 })
unfolding pcm_trigger
stops_progress p = idle (ground arith) refl

Step-IsSound : {p q : Player} → Step p q → IsSound p → IsSound q
Step-IsSound (writes p v byte free) s = record {
  ahead = written-IsAhead p.rt p.stream p.pos s.ahead v byte free (behind_end p s.progress);
  progress = writes_progress p v s.progress;
}
Step-IsSound (starts p off some_sample) s = record {
  ahead = s.ahead;
  progress = starts_progress p s.ahead (starts_first p s.progress off) some_sample;
}
Step-IsSound (plays p on more) s = record {
  ahead = next-IsAhead p.rt p.stream p.pos s.ahead;
  progress = plays_progress p s.ahead s.progress on more;
}
Step-IsSound (rests p off) s = record {
  ahead = s.ahead;
  progress = rests_progress p s.progress off;
}
Step-IsSound (stops p) s = record {
  ahead = record {
    fit = s.ahead.fit;
    room = s.ahead.room;
    within = omega arith;
    stands = λ i h k. absurd (omega (arith, k));
  };
  progress = stops_progress p;
}

Steps-IsSound : {p q : Player} → Steps p q → IsSound p → IsSound q
Steps-IsSound (here p) s = s
Steps-IsSound (after p q r h k) s = Step-IsSound k (Steps-IsSound h s)

-- a prepared driver before its first sample
pub record IsReady (p : Player) : Type 0 where
  pub fit : IsPrepared p.rt
  pub room : p.rt.buffer_size ≤ length p.rt.dma_area
  pub off : p.dev.is_on ≡ false
  pub empty : p.stream ≡ []
  pub at_start : p.pos ≡ 0

IsReady-IsSound : {p : Player} → IsReady p → IsSound p
IsReady-IsSound {p} r = record {
  ahead = record {
    fit = r.fit;
    room = r.room;
    within = rw (r.empty) (omega arith);
    stands = λ i h k. absurd (omega (arith, k, ap length r.empty));
  };
  progress = idle r.off r.at_start;
}

-- While the driver plays, the channel has been programmed with the duty cycles of exactly the samples
-- that user space has written to the ring for this playback, from the first to the one being played,
-- each once and in order, on top of what was programmed before; the position reported is that
-- sample's place in the ring. It holds after any sequence of writes no more than a ring ahead of the
-- sample being played, starts of a stopped device with a sample written, firings of the timer
-- (while it plays, only with the next sample written) and stops, from a prepared stopped driver.
pub plays_what_was_written :
    (p q : Player)
    → IsReady p
    → Steps p q
    → q.dev.is_on ≡ true
    → (q.dev.configs ≡ programmed q.stream (suc q.pos) ++ q.before)
      × (pcm_pointer q.dev ≡ q.pos % q.rt.buffer_size)
      × (q.pos < length q.stream)
unfolding pcm_pointer
plays_what_was_written p q r run on = elim (Steps-IsSound run (IsReady-IsSound r)).progress [
  | idle off at ↦ ground arith
  | playing live inside at played ↦ (played, at, inside)
]
