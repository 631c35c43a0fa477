-- ===== src/Snd/Soft/Cycle.antt =====
-- Away from the extreme samples each PWM cycle plays one sample.
use native.Mathlib.Nat.{mod-add-mod, mod-eq_of_lt}
use meta_picocalc.Prelude.{
  ℕ, zero, suc, ◌+◌, ◌*◌, ◌%◌, ◌≤◌, ◌<◌, ◌≡◌, refl, arith, get_or, none, some, true, ap, inl, inr,
  ◌^◌,
}
use meta_picocalc.Snd.Cursor.{Runtime, IsPrepared, bump, bump-lt, bump-eq-mod, bump-came_round}
use meta_picocalc.Snd.Soft.Defs.{Dev, duty_of, cb1, cb2, next_sample, default_period}
use meta_picocalc.Snd.Soft.Invariant.{IsValid, cb1-IsValid, cb2-IsValid}
use meta_picocalc.Prelude.{sym, Option, ◌∙◌, List, [], ◌∷◌}

-- Neither 0 nor 255 stands in the ring.
abbrev pub IsAudible : Runtime → Type 0
IsAudible rt =
    (i : ℕ) → i < rt.buffer_size → (0 < get_or rt.dma_area i 0) × (get_or rt.dma_area i 0 < 255)

-- The device runs, and its duty cycle asks for both slopes.
pub record IsPlaying (rt : Runtime) (d : Dev) : Type 0 where
  pub valid : IsValid rt d
  pub on : d.is_on ≡ true
  pub high : 0 < d.duty_cycle_ns
  pub low : d.duty_cycle_ns < d.period_ns

-- The first timer fires, then the second.
unfoldable pub cycle : Runtime → Dev → Dev
cycle rt d = cb2 rt (cb1 d)

unfoldable pub play : Runtime → ℕ → Dev → Dev
play rt zero d = d
play rt (suc n) d = play rt n (cycle rt d)

-- for how long each of the next `n` cycles arms the second timer, when the first one has fired
unfoldable pub played : Runtime → ℕ → Dev → List (Option ℕ)
played rt zero d = []
played rt (suc n) d = (cb1 d).tm2 ∷ played rt n (cycle rt d)

-- the times that `n` samples of the ring stand for, from place `p` on, which counts round the ring
unfoldable pub ring_times : Runtime → ℕ → ℕ → List (Option ℕ)
ring_times rt p zero = []
ring_times rt p (suc n) =
    some (duty_of (get_or rt.dma_area (p % rt.buffer_size) 0) default_period)
    ∷ ring_times rt (p + 1) n

pub duty_of_audible :
    (s : ℕ)
    → 0 < s
    → s < 255
    → (0 < duty_of s default_period) × (duty_of s default_period < default_period)
unfolding duty_of
duty_of_audible s a b = omega arith

-- The first timer raises the pin and arms the second for the high phase.
pub cb1_raises :
    {rt : Runtime} {d : Dev}
    → IsPlaying rt d
    → cb1 d ≡ record d { tm1 = some d.t1; left_gpio = 1; tm2 = some d.duty_cycle_ns }
unfolding cb1
cb1_raises p = ground arith

regroup : (a n : ℕ) → a + 1 + n ≡ a + suc n
regroup a n = omega arith

-- Below, `cb2` gets past its guards.
cb2_fetches :
    (rt : Runtime) (d : Dev)
    → d.is_on ≡ true
    → d.cnt ≡ 0
    → cb2 rt d ≡ next_sample rt (record d { tm2 = none; left_gpio = 0; cnt = 0 })
unfolding cb2
cb2_fetches rt d on c = rw (on, c)

-- Counting the periods loses no sample.
counted :
    (rt : Runtime) (d : Dev)
    → d.period_ptr < rt.period_size
    → rt.period_size ≤ 2 ^ 12
    → (next_sample rt d).elapsed * rt.period_size + (next_sample rt d).period_ptr
      ≡ d.elapsed * rt.period_size + d.period_ptr + 1
unfolding next_sample
counted rt d h k = elim (bump-came_round d.period_ptr rt.period_size h (omega arith)) [
  | inl (c, b, e) ↦ rw (c, b) (omega (arith, e))
  | inr (c, b) ↦ rw (c, b) (omega arith)
]

abbrev lowered : Dev → Dev
lowered d = record d { tm1 = some d.t1; left_gpio = 0; tm2 = none; cnt = 0 }

module _ {rt : Runtime} (prepared : IsPrepared rt) where
  pub cycle-eq : {d : Dev} → IsPlaying rt d → cycle rt d ≡ next_sample rt (lowered d)
  unfolding cycle
  cycle-eq {d} p = rw (cb1_raises p) (cb2_fetches rt _ p.on p.valid.no_count)

  -- One cycle lowers the pin again and moves on by one sample and one frame.
  pub cycle_lem :
      {d : Dev}
      → IsPlaying rt d
      → ((cycle rt d).data_ptr ≡ bump d.data_ptr rt.buffer_size)
        × ((cycle rt d).duty_cycle_ns
            ≡ duty_of (get_or rt.dma_area (bump d.data_ptr rt.buffer_size) 0) d.period_ns)
        × ((cycle rt d).elapsed * rt.period_size + (cycle rt d).period_ptr
            ≡ d.elapsed * rt.period_size + d.period_ptr + 1)
        × ((cycle rt d).is_on ≡ true)
        × ((cycle rt d).period_ns ≡ d.period_ns)
  unfolding next_sample
  cycle_lem {d} p =
      rw (cycle-eq p)
        (refl, refl, counted rt (lowered d) p.valid.period_in prepared.small_period, p.on, refl)

  -- The next sample is neither 0 nor 255.
  pub next-IsPlaying :
      {d : Dev}
      → IsPlaying rt d
      → 0 < get_or rt.dma_area (bump d.data_ptr rt.buffer_size) 0
      → get_or rt.dma_area (bump d.data_ptr rt.buffer_size) 0 < 255
      → IsPlaying rt (cycle rt d)
  unfolding cycle
  next-IsPlaying {d} p a b =
      let p' = bump d.data_ptr rt.buffer_size in
      let v : IsValid rt (cb2 rt (cb1 d)) = cb2-IsValid prepared (cb1-IsValid prepared p.valid) in
      ground (arith, p.valid, v, cycle_lem p, duty_of_audible (get_or rt.dma_area p' 0) a b)

  module _ (audible : IsAudible rt) where
    pub cycle-IsPlaying : {d : Dev} → IsPlaying rt d → IsPlaying rt (cycle rt d)
    cycle-IsPlaying {d} p =
        let s =
          audible (bump d.data_ptr rt.buffer_size)
            (bump-lt d.data_ptr rt.buffer_size prepared.some_buffer) in
        next-IsPlaying p s.0 s.1

    arms :
        {d : Dev} (p : ℕ)
        → IsPlaying rt d
        → d.data_ptr ≡ p % rt.buffer_size
        → d.duty_cycle_ns ≡ duty_of (get_or rt.dma_area d.data_ptr 0) d.period_ns
        → (cb1 d).tm2 ≡ some (duty_of (get_or rt.dma_area (p % rt.buffer_size) 0) default_period)
    arms {d} p v e q =
        ap (λ (x : Dev). x.tm2) (cb1_raises v)
        ∙ ap some q
        ∙ ap (λ (i : ℕ). some (duty_of (get_or rt.dma_area i 0) d.period_ns)) e
        ∙ ap (λ (i : ℕ). some (duty_of (get_or rt.dma_area (p % rt.buffer_size) 0) i)) v.valid.fixed

    moves_on :
        {d : Dev} (p : ℕ)
        → IsPlaying rt d
        → d.data_ptr ≡ p % rt.buffer_size
        → (cycle rt d).data_ptr ≡ (p + 1) % rt.buffer_size
    moves_on {d} p v e =
        (cycle_lem v).0
        ∙ bump-eq-mod d.data_ptr rt.buffer_size v.valid.data_in (omega (arith, prepared))
        ∙ ap (λ (i : ℕ). (i + 1) % rt.buffer_size) e
        ∙ mod-add-mod p rt.buffer_size 1

    at_next :
        {d : Dev}
        → IsPlaying rt d
        → (cycle rt d).duty_cycle_ns
          ≡ duty_of (get_or rt.dma_area (cycle rt d).data_ptr 0) (cycle rt d).period_ns
    at_next {d} v = let (a, b, c, x, y) = cycle_lem v in rw (a, y) b

    played_lem :
        (n p : ℕ) {d : Dev}
        → IsPlaying rt d
        → d.data_ptr ≡ p % rt.buffer_size
        → d.duty_cycle_ns ≡ duty_of (get_or rt.dma_area d.data_ptr 0) d.period_ns
        → played rt n d ≡ ring_times rt p n
    unfolding played ring_times
    played_lem zero p v e q = refl
    played_lem (suc n) p {d} v e q =
        ap (λ (t : Option ℕ). t ∷ played rt n (cycle rt d)) (arms p v e q)
        ∙ ap
            (λ (ts : List (Option ℕ)).
              some (duty_of (get_or rt.dma_area (p % rt.buffer_size) 0) default_period) ∷ ts)
            (played_lem n (p + 1) (cycle-IsPlaying v) (moves_on p v e) (at_next v))

    counts :
        (n : ℕ) {d : Dev}
        → IsPlaying rt d
        → ((play rt n d).data_ptr ≡ (d.data_ptr + n) % rt.buffer_size)
          × ((play rt n d).elapsed * rt.period_size + (play rt n d).period_ptr
              ≡ d.elapsed * rt.period_size + d.period_ptr + n)
          × ((play rt n d).period_ptr < rt.period_size)
    unfolding play
    counts zero {d} p = ground (arith, p.valid, mod-eq_of_lt p.valid.data_in)
    counts (suc n) {d} p = ground (
      arith,
      p.valid,
      prepared,
      counts n (cycle-IsPlaying p),
      cycle_lem p,
      bump-eq-mod d.data_ptr rt.buffer_size p.valid.data_in (omega (arith, prepared)),
      mod-add-mod (d.data_ptr + 1) rt.buffer_size n,
      ap (λ (t : ℕ). t % rt.buffer_size) (regroup d.data_ptr n),
    )

    -- On a device whose duty cycle is that of the sample at its cursor, while no sample of the ring is 0
    -- or 255: in the next `n` cycles of the two timers the first one arms the second for the times that the
    -- samples of the ring from that one on stand for, one each, in order and round the ring; the cursor moves on by
    -- `n`, and a period is reported each time `period_size` samples have been played.
    pub play_lem :
        (n : ℕ) {d : Dev}
        → IsPlaying rt d
        → d.duty_cycle_ns ≡ duty_of (get_or rt.dma_area d.data_ptr 0) d.period_ns
        → (played rt n d ≡ ring_times rt d.data_ptr n)
          × ((play rt n d).data_ptr ≡ (d.data_ptr + n) % rt.buffer_size)
          × ((play rt n d).elapsed * rt.period_size + (play rt n d).period_ptr
              ≡ d.elapsed * rt.period_size + d.period_ptr + n)
          × ((play rt n d).period_ptr < rt.period_size)
    play_lem n {d} v q =
        let (at, reported, inside) = counts n v in
        (played_lem n d.data_ptr v (sym (mod-eq_of_lt v.valid.data_in)) q, at, reported, inside)
