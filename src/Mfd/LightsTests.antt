-- ===== src/Mfd/LightsTests.antt =====
-- The two lights on registers 5 and 10 of a firmware that is its levels.
use meta_picocalc.Prelude.{
  ℕ, ◌-◌, ◌%◌, ◌<◌, ◌≡◌, ◌≢◌, refl, arith, ap, true, false, ◌==◌, if◌then◌else◌, List, [], ◌∷◌,
  ◌++◌, ok,
}
use meta_picocalc.Prelude.Bits.{bit_or, holds_from, holds_from_sound}
use meta_picocalc.Regmap.{Regmap}
use meta_picocalc.Mfd.Led.{blank_event}
use meta_picocalc.Mfd.Lights.{
  clamped, Op, set_brightness, blanking, led_set, led_event, screen_button, key_button, does_all,
  System, IsLights, AreApart, runs_all, view, lights_refine,
}
use meta_picocalc.Mfd.Blanked.{blanked_keeps_or_loses}

abbrev put : ℕ → ℕ → (ℕ → ℕ) → ℕ → ℕ
put reg v bus r = if r == reg then v else bus r

put_at : (reg v : ℕ) (bus : ℕ → ℕ) → put reg v bus reg ≡ v
put_at reg v bus = ground arith

put_other : (reg v : ℕ) (bus : ℕ → ℕ) (r : ℕ) → r ≢ reg → put reg v bus r ≡ bus r
put_other reg v bus r h = ground (arith, h)

abbrev levels : Regmap
levels = record {
  Bus = ℕ → ℕ;
  read = λ bus reg. (bus, ok (bus reg));
  bulk_read = λ bus reg. (bus, ok (reg, bus reg));
  write = λ bus reg v. (put (reg - 128) (v % 256) bus, ok tt);
}

write_bit_table : holds_from (λ r. bit_or r 128 - 128 == r) 0 128 ≡ true
unfolding holds_from
write_bit_table = refl

write_bit : (reg : ℕ) → reg < 128 → bit_or reg 128 - 128 ≡ reg
write_bit reg h = ground (
  arith,
  holds_from_sound (λ r. bit_or r 128 - 128 == r) 0 128 reg write_bit_table (omega arith) h,
)

levels-IsLights : IsLights levels (λ bus reg. bus reg) put
levels-IsLights = record {
  reads = λ bus reg. (bus, reg, refl, λ r. refl);
  writes = λ bus reg v h. (
    put reg (v % 256) bus,
    ap (λ (x : ℕ). (put x (v % 256) bus, ok tt)) (write_bit reg h),
    put_at reg (v % 256) bus,
    put_other reg (v % 256) bus,
  );
  presses = λ reg v bus. (put_at reg v bus, put_other reg v bus);
}

five_and_ten : AreApart 5 10
five_and_ten = record {
  apart = λ e. omega (arith, e);
  bkl_small = omega arith;
  led_small = omega arith;
}

abbrev lit : System (ℕ → ℕ)
lit = record {
  props = record { brightness = 10; power = 0; fb_blank = 0; state = 0 };
  copy = 0;
  bus = λ r. if r == 5 then 200 else 3;
}

-- dimmed with the button, blanked with the keyboard's light saved, lit again
abbrev evening : List Op
evening =
    set_brightness 250
    ∷ screen_button 40
    ∷ led_event (blank_event 4)
    ∷ blanking 4 2
    ∷ led_set 300
    ∷ key_button 90
    ∷ blanking 0 0
    ∷ []

evening_ends :
    does_all evening (view levels (λ bus reg. bus reg) put 5 10 lit)
    ≡ record { screen = 40; kept = 40; dark = false; keys = 90; keys_kept = 255 }
unfolding clamped
evening_ends = refl

lights_refine_example :
    view levels
      (λ bus reg. bus reg)
      put
      5
      10
      (runs_all levels (λ bus reg. bus reg) put 5 10 evening lit)
    ≡ does_all evening (view levels (λ bus reg. bus reg) put 5 10 lit)
lights_refine_example =
    lights_refine levels (λ bus reg. bus reg) put 5 10 levels-IsLights five_and_ten evening lit

blanked_keeps_or_loses_example :
    let after = λ (more : List Op).
      runs_all levels
        (λ bus reg. bus reg)
        put
        5
        10
        (blanking 4 2 ∷ ((led_set 0 ∷ key_button 90 ∷ []) ++ more))
        lit in
    ((after (blanking 0 0 ∷ [])).bus 5 ≡ 200 % 256)
    × ((after (blanking 4 3 ∷ blanking 0 0 ∷ [])).bus 5 ≡ 0)
blanked_keeps_or_loses_example =
    blanked_keeps_or_loses levels (λ bus reg. bus reg) put levels-IsLights 5 10 five_and_ten 4 2
      (led_set 0 ∷ key_button 90 ∷ []) (blanking 4 3) lit refl (tt, (tt, tt)) refl
