-- ===== src/Snd/Soft/PlaybackTests.antt =====
-- A playback of three samples through a ring of two places of the software PWM driver.
use meta_picocalc.Prelude.{ℕ, suc, ◌%◌, ◌<◌, ◌≡◌, refl, arith, [], ◌∷◌, ◌++◌}
use meta_picocalc.Snd.Cursor.{bump, came_round}
use meta_picocalc.Snd.Ring.{written}
use meta_picocalc.Snd.Soft.Defs.{
  duty_of, default_period, cb1, cb2, next_sample, pcm_trigger, pcm_pointer, probed, pwm_enable,
}
use meta_picocalc.Snd.Soft.Clock.{expire, fires1, fires2}
use meta_picocalc.Snd.Soft.Wave.{started}
use meta_picocalc.Snd.Soft.Player.{Player, Steps, here, after, writes, starts, plays, high_times}
use meta_picocalc.Snd.Soft.Playback.{waves_what_was_written}

-- after a probe whose timer has expired, the pin high
abbrev ready : Player
ready = record {
  rt = record { dma_area = 0 ∷ 0 ∷ []; buffer_size = 2; period_size = 1 };
  clock = record { dev = cb1 (probed 1); now = 0; due1 = 250000; due2 = 0; high = 0 };
  stream = [];
  pos = 0;
}

abbrev write : Player → ℕ → Player
write p v = record p { rt = written p.rt p.stream v; stream = p.stream ++ (v ∷ []) }

abbrev play : Player → Player
play p = record p { clock = expire p.rt (expire p.rt p.clock); pos = suc p.pos }

abbrev filled : Player
filled = write (write ready 51) 102

abbrev playing : Player
playing = record filled { clock = started filled.rt 500 filled.clock.dev }

abbrev refilled : Player
refilled = write (play playing) 204

abbrev ended : Player
ended = play refilled

filled_run : Steps ready filled
filled_run =
    after _ _ _
      (after _ _ _ (here ready) (writes ready 51 (omega arith) (omega arith) (omega arith)))
      (writes (write ready 51) 102 (omega arith) (omega arith) (omega arith))

ended_run : Steps ready ended
unfolding probed pcm_trigger pwm_enable cb1 cb2 next_sample fires1 fires2 duty_of
ended_run =
    after _ _ _
      (after _ _ _
        (after _ _ _ (after _ _ _ filled_run (starts filled 500 refl refl refl (omega arith)))
          (plays playing refl (omega arith)))
        (writes (play playing) 204 (omega arith) (omega arith) (omega arith)))
      (plays refilled refl (omega arith))

two_samples_heard : ended.clock.high ≡ 75000
unfolding probed pcm_trigger pwm_enable cb1 cb2 next_sample fires1 fires2 duty_of bump came_round
two_samples_heard = refl

waves_what_was_written_example :
    (ended.clock.high ≡ high_times (51 ∷ 102 ∷ 204 ∷ []) 2)
    × (0 < 2 → ended.clock.dev.left_gpio ≡ 0)
    × (ended.clock.dev.duty_cycle_ns ≡ duty_of 204 default_period)
    × (pcm_pointer ended.clock.dev ≡ 2 % 2)
    × (2 < 3)
unfolding probed pcm_trigger pwm_enable cb1 cb2 next_sample fires1 fires2 duty_of bump
waves_what_was_written_example =
    waves_what_was_written ready ended
      (record {
        fit = omega arith;
        room = omega arith;
        off = refl;
        period = refl;
        empty = refl;
        at_start = refl;
      })
      ended_run refl
