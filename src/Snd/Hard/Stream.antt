-- ===== src/Snd/Hard/Stream.antt =====
-- What the PWM channel is made to play: every sample of the ring in order, extremes included.
use native.Mathlib.Nat.{mod-add-mod, mod-eq_of_lt}
use meta_picocalc.Prelude.{
  ℕ, zero, suc, ◌+◌, ◌*◌, ◌%◌, ◌^◌, ◌≤◌, ◌<◌, ◌≡◌, refl, arith, get_or, true, ap, List, [], ◌∷◌,
  ◌++◌, inl, inr, ◌∙◌, sym,
}
use meta_picocalc.Snd.Cursor.{
  Runtime, IsPrepared, bump-lt, bump-eq-mod, bump-came_round, start, stop,
}
use meta_picocalc.Snd.Hard.Defs.{
  Dev, duty_of, cb1, fire, default_pwm_period, pcm_pointer, pcm_trigger,
}

-- A byte's duty cycle does not wrap and lies within the PWM period.
pub duty_of-le : (s : ℕ) → s < 256 → duty_of s ≤ default_pwm_period
unfolding duty_of
duty_of-le s h = omega arith

-- The duty cycles of `n` samples that follow index `p` of the ring, newest first.
abbrev pub ring_duties : Runtime → ℕ → ℕ → List ℕ
ring_duties rt p zero = []
ring_duties rt p (suc n) =
    duty_of (get_or rt.dma_area ((p + suc n) % rt.buffer_size) 0) ∷ ring_duties rt p n

pub record IsPlaying (rt : Runtime) (d : Dev) : Type 0 where
  pub on : d.is_on ≡ true
  pub data_in : d.data_ptr < rt.buffer_size
  pub period_in : d.period_ptr < rt.period_size

counted :
    (rt : Runtime) (d : Dev)
    → d.is_on ≡ true
    → d.period_ptr < rt.period_size
    → rt.period_size ≤ 2 ^ 12
    → (cb1 rt d).elapsed * rt.period_size + (cb1 rt d).period_ptr
      ≡ d.elapsed * rt.period_size + d.period_ptr + 1
unfolding cb1
counted rt d on h k = elim (bump-came_round d.period_ptr rt.period_size h (omega arith)) [
  | inl (c, b, e) ↦ rw (on, c, b) (omega (arith, e))
  | inr (c, b) ↦ rw (on, c, b) (omega arith)
]

module _ {rt : Runtime} (prepared : IsPrepared rt) where
  pub cb1-IsPlaying : {d : Dev} → IsPlaying rt d → IsPlaying rt (cb1 rt d)
  unfolding cb1
  cb1-IsPlaying {d} p = ground (
    arith,
    bump-lt d.data_ptr rt.buffer_size prepared.some_buffer,
    bump-lt d.period_ptr rt.period_size prepared.some_period,
  )

  fire-IsPlaying : (n : ℕ) {d : Dev} → IsPlaying rt d → IsPlaying rt (fire rt n d)
  unfolding fire
  fire-IsPlaying zero p = p
  fire-IsPlaying (suc n) p = cb1-IsPlaying (fire-IsPlaying n p)

  pub cb1_lem :
      {d : Dev}
      → IsPlaying rt d
      → ((cb1 rt d).data_ptr ≡ (d.data_ptr + 1) % rt.buffer_size)
        × ((cb1 rt d).configs
            ≡ duty_of (get_or rt.dma_area ((d.data_ptr + 1) % rt.buffer_size) 0) ∷ d.configs)
  unfolding cb1
  cb1_lem {d} p =
      let e = bump-eq-mod d.data_ptr rt.buffer_size p.data_in (omega (arith, prepared)) in
      rw (p.on, e) (refl, refl)

  suc_place : (a n s : ℕ) → ((a + n) % s + 1) % s ≡ (a + suc n) % s
  suc_place a n s = mod-add-mod (a + n) s 1 ∙ ap (λ (t : ℕ). t % s) (omega arith)

  -- `n` timer firings of a playing device program the duty cycles of the next `n` samples of the
  -- ring, one each and in order, leave the pointer at the last of them, and report a period each
  -- time `period_size` samples have been played.
  pub fire_lem :
      (n : ℕ) {d : Dev}
      → IsPlaying rt d
      → ((fire rt n d).data_ptr ≡ (d.data_ptr + n) % rt.buffer_size)
        × ((fire rt n d).configs ≡ ring_duties rt d.data_ptr n ++ d.configs)
        × ((fire rt n d).elapsed * rt.period_size + (fire rt n d).period_ptr
            ≡ d.elapsed * rt.period_size + d.period_ptr + n)
        × ((fire rt n d).period_ptr < rt.period_size)
  unfolding fire
  fire_lem zero {d} p = (
    sym (ap (λ t. t % rt.buffer_size) (omega arith) ∙ mod-eq_of_lt p.data_in),
    refl,
    omega arith,
    p.period_in,
  )
  fire_lem (suc n) {d} p =
      let (at, played, frames, inside) = fire_lem n p in
      let q = fire-IsPlaying n p in
      let (at', played') = cb1_lem q in
      let place =
        ap (λ (t : ℕ). (t + 1) % rt.buffer_size) at ∙ suc_place d.data_ptr n rt.buffer_size in
      (
        at' ∙ place,
        rw (played', played, place) refl,
        omega (arith, counted rt (fire rt n d) q.on q.period_in prepared.small_period, frames),
        (cb1-IsPlaying q).period_in,
      )

  pub start-IsPlaying : (d : Dev) → IsPlaying rt (pcm_trigger rt d start).0
  unfolding pcm_trigger
  start-IsPlaying d = ground (arith, prepared)

  -- After the start command the channel gets the first sample at once and the samples that follow
  -- from `n` timer firings, in order, and `pcm_pointer` counts them modulo the ring.
  start_plays :
      (n : ℕ) (d : Dev)
      → ((fire rt n (pcm_trigger rt d start).0).configs
          ≡ ring_duties rt 0 n ++ duty_of (get_or rt.dma_area 0 0) ∷ d.configs)
        × (pcm_pointer (fire rt n (pcm_trigger rt d start).0) ≡ n % rt.buffer_size)
  unfolding pcm_trigger pcm_pointer
  start_plays n d =
      let (at, played, _, _) = fire_lem n (start-IsPlaying d) in
      (played, at ∙ ap (λ (t : ℕ). t % rt.buffer_size) (omega arith))

-- After a stop command a firing of the timer programs nothing and does not queue the timer again.
pub stop_silences :
    (rt : Runtime) (d : Dev) → (cb1 rt (pcm_trigger rt d stop).0).configs ≡ d.configs
unfolding cb1 pcm_trigger
stop_silences rt d = ground arith
