-- ===== src/Snd/Hard/PlaybackTests.antt =====
-- A playback of five samples, extremes included, through a ring of four places of the PWM driver.
use meta_picocalc.Prelude.{◌%◌, ◌<◌, ◌≡◌, refl, arith, [], ◌∷◌, ◌++◌, true, false, none}
use meta_picocalc.Snd.Cursor.{start, bump}
use meta_picocalc.Snd.Ring.{written}
use meta_picocalc.Snd.Hard.Defs.{duty_of, cb1, pcm_trigger, pcm_pointer}
use meta_picocalc.Snd.Hard.Playback.{
  Player, Steps, here, after, writes, starts, plays, plays_what_was_written, programmed,
}
use meta_picocalc.Prelude.{suc, ℕ}

abbrev ready : Player
ready = record {
  rt = record { dma_area = 9 ∷ 9 ∷ 9 ∷ 9 ∷ []; buffer_size = 4; period_size = 2 };
  dev = record {
    data_ptr = 3;
    period_ptr = 1;
    is_on = false;
    pwm_on = true;
    configs = 0 ∷ [];
    tm1 = none;
    t1 = 125000;
    duty_cycle_ns = 0;
    period_ns = 125000;
    elapsed = 0;
  };
  stream = [];
  pos = 0;
  before = 0 ∷ [];
}

abbrev write : Player → ℕ → Player
write p v = record p { rt = written p.rt p.stream v; stream = p.stream ++ (v ∷ []) }

abbrev play : Player → Player
play p = record p { dev = cb1 p.rt p.dev; pos = suc p.pos }

abbrev filled : Player
filled = write (write (write (write ready 0) 255) 128) 64

abbrev started : Player
started = record filled {
  dev = (pcm_trigger filled.rt filled.dev start).0;
  before = filled.dev.configs;
}

abbrev refilled : Player
refilled = write (play started) 7

abbrev ended : Player
ended = play (play (play refilled))

filled_run : Steps ready filled
filled_run =
    after _ _ _
      (after _ _ _
        (after _ _ _ (after _ _ _ (here ready) (writes ready 0 (omega arith) (omega arith)))
          (writes (write ready 0) 255 (omega arith) (omega arith)))
        (writes (write (write ready 0) 255) 128 (omega arith) (omega arith)))
      (writes (write (write (write ready 0) 255) 128) 64 (omega arith) (omega arith))

refilled_run : Steps ready refilled
unfolding pcm_trigger cb1
refilled_run =
    after _ _ _
      (after _ _ _ (after _ _ _ filled_run (starts filled refl (omega arith)))
        (plays started refl (omega arith)))
      (writes (play started) 7 (omega arith) (omega arith))

ended_run : Steps ready ended
unfolding pcm_trigger cb1
ended_run =
    after _ _ _
      (after _ _ _ (after _ _ _ refilled_run (plays refilled refl (omega arith)))
        (plays (play refilled) refl (omega arith)))
      (plays (play (play refilled)) refl (omega arith))

last_of_five_is_heard : ended.dev.configs ≡ 428 ∷ 3921 ∷ 7843 ∷ 15625 ∷ 0 ∷ 0 ∷ []
unfolding pcm_trigger cb1 duty_of bump
last_of_five_is_heard = refl

plays_what_was_written_example :
    (ended.dev.configs ≡ programmed (0 ∷ 255 ∷ 128 ∷ 64 ∷ 7 ∷ []) 5 ++ 0 ∷ [])
    × (pcm_pointer ended.dev ≡ 4 % 4)
    × (4 < 5)
unfolding pcm_trigger cb1
plays_what_was_written_example =
    plays_what_was_written ready ended
      (record { fit = omega arith; room = omega arith; off = refl; empty = refl; at_start = refl })
      ended_run refl
