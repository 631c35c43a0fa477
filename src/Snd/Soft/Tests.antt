-- ===== src/Snd/Soft/Tests.antt =====
-- Runs of the software PWM driver: a ring with extreme samples, and one without.
use meta_picocalc.Kernel.{is_ok}
use meta_picocalc.Snd.Register.{
  SoundCore, snd_register, snd_register_lem, no_card, live_card, first_error,
}
use meta_picocalc.Snd.Soft.Defs.{probed, Dev, duty_of, cb1, cb2, here, next, fire1, pcm_trigger}
use meta_picocalc.Prelude.{
  suc, zero, ◌+◌, ◌*◌, ◌%◌, ◌<◌, ◌≡◌, refl, arith, [], ◌∷◌, true, some, inr,
}
use meta_picocalc.Snd.Cursor.{Runtime, IsPrepared, bump, start}
use meta_picocalc.Snd.Soft.Stall.{extreme_sample_stalls}
use meta_picocalc.Snd.Soft.Clock.{Clock, run}
use meta_picocalc.Snd.Soft.Wave.{started, high_phases, start_waves}
use meta_picocalc.Snd.Soft.Cycle.{IsPlaying, IsAudible, play, played, ring_times, play_lem}
use meta_picocalc.Prelude.{ok, err, if◌then◌else◌}

-- silence, as unsigned bytes, is 128; the third sample is a full-scale peak
abbrev peak : Runtime
peak = record { dma_area = 128 ∷ 64 ∷ 255 ∷ 30 ∷ []; buffer_size = 4; period_size = 2 }

abbrev quiet : Runtime
quiet = record { dma_area = 128 ∷ 64 ∷ 200 ∷ []; buffer_size = 3; period_size = 2 }

peak-IsPrepared : IsPrepared peak
peak-IsPrepared = omega arith

quiet-IsPrepared : IsPrepared quiet
quiet-IsPrepared = omega arith

abbrev playing : Dev
playing = record {
  data_ptr = 1;
  period_ptr = 1;
  is_on = true;
  left_gpio = 1;
  tm1 = some 125000;
  tm2 = some 31372;
  t1 = 125000;
  duty_cycle_ns = 31372;
  period_ns = 125000;
  cnt = 0;
  elapsed = 0;
}

duties : (duty_of 0 125000 ≡ 0) × (duty_of 128 125000 ≡ 62745) × (duty_of 255 125000 ≡ 125000)
unfolding duty_of
duties = (refl, refl, refl)

extreme_sample_stalls_example :
    ((cb1 (cb2 peak playing)).data_ptr ≡ bump 1 4)
    × ((cb1 (cb2 peak playing)).elapsed ≡ (cb2 peak playing).elapsed)
unfolding cb2 bump
extreme_sample_stalls_example =
    extreme_sample_stalls {rt = peak} {d = playing} (omega arith) refl (inr refl)
      (next here (fire1 125000 refl))

playing-IsPlaying : IsPlaying quiet playing
playing-IsPlaying = record { valid = omega arith; on = refl; high = omega arith; low = omega arith }

quiet-IsAudible : IsAudible quiet
quiet-IsAudible zero h = omega arith
quiet-IsAudible (suc zero) h = omega arith
quiet-IsAudible (suc (suc zero)) h = omega arith
quiet-IsAudible (suc (suc (suc i))) h = absurd (omega arith)

play_lem_example :
    (played quiet 5 playing ≡ ring_times quiet 1 5)
    × ((play quiet 5 playing).data_ptr ≡ (1 + 5) % 3)
    × ((play quiet 5 playing).elapsed * 2 + (play quiet 5 playing).period_ptr ≡ 0 * 2 + 1 + 5)
    × ((play quiet 5 playing).period_ptr < 2)
unfolding duty_of
play_lem_example = play_lem quiet-IsPrepared quiet-IsAudible 5 playing-IsPlaying refl

abbrev core : SoundCore
core = record { card_new = ok tt; device_new = ok tt; pcm_new = ok tt; card_register = ok tt }

snd_register_lem_example : snd_register (record core { pcm_new = err 12 }) no_card ≡ (
  if is_ok (first_error (record core { pcm_new = err 12 })) then live_card else no_card,
  err 12,
)
snd_register_lem_example = snd_register_lem (record core { pcm_new = err 12 })

-- after a probe whose timer has expired, four cycles of the ring of three samples
abbrev four_cycles : Clock
four_cycles = run quiet 8 (started quiet 1000 (cb1 (probed 1)))

start_waves_example :
    (four_cycles.dev ≡ play quiet 4 (pcm_trigger quiet (cb1 (probed 1)) start).0)
    × (four_cycles.due1 ≡ 1000 + 5 * 125000)
    × (four_cycles.high ≡ high_phases quiet 0 4)
    × (0 < 4 → four_cycles.dev.left_gpio ≡ 0)
unfolding probed cb1
start_waves_example =
    start_waves quiet quiet-IsPrepared quiet-IsAudible 4 1000 (cb1 (probed 1)) refl refl refl
