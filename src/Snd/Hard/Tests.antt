-- ===== src/Snd/Hard/Tests.antt =====
-- Runs of the hardware PWM driver on a ring of four samples, extremes included.
use meta_picocalc.Prelude.{◌+◌, ◌*◌, ◌%◌, ◌<◌, ◌≡◌, refl, arith, [], ◌∷◌, ◌++◌, true, false, none}
use meta_picocalc.Snd.Cursor.{Runtime, start, IsPrepared, bump, came_round}
use meta_picocalc.Snd.Hard.Defs.{Dev, duty_of, cb1, pcm_trigger, fire}
use meta_picocalc.Snd.Hard.Stream.{fire_lem, ring_duties}

abbrev ring : Runtime
ring = record { dma_area = 0 ∷ 255 ∷ 128 ∷ 64 ∷ []; buffer_size = 4; period_size = 2 }

ring-IsPrepared : IsPrepared ring
ring-IsPrepared = omega arith

abbrev idle : Dev
idle = record {
  data_ptr = 0;
  period_ptr = 0;
  is_on = false;
  pwm_on = false;
  configs = [];
  tm1 = none;
  t1 = 0;
  duty_cycle_ns = 0;
  period_ns = 125000;
  elapsed = 0;
}

abbrev playing : Dev
playing = record idle { is_on = true; data_ptr = 3; period_ptr = 1 }

runs_through_extremes :
    (fire ring 4 (pcm_trigger ring idle start).0).configs ≡ 0 ∷ 3921 ∷ 7843 ∷ 15625 ∷ 0 ∷ []
unfolding fire cb1 pcm_trigger duty_of bump came_round
runs_through_extremes = refl

fire_lem_example :
    ((fire ring 3 playing).data_ptr ≡ (3 + 3) % 4)
    × ((fire ring 3 playing).configs ≡ ring_duties ring 3 3 ++ [])
    × ((fire ring 3 playing).elapsed * 2 + (fire ring 3 playing).period_ptr ≡ 0 * 2 + 1 + 3)
    × ((fire ring 3 playing).period_ptr < 2)
fire_lem_example =
    fire_lem ring-IsPrepared 3 {d = playing}
      (record { on = refl; data_in = omega arith; period_in = omega arith })
