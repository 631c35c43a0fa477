-- ===== src/Mfd/Tests.antt =====
-- The device and its children on a register map that answers from a script.
use meta_picocalc.Prelude.{ℕ, ◌≡◌, refl, arith, List, [], ◌∷◌, true, ok, err, if◌then◌else◌, ◌==◌}
use meta_picocalc.Prelude.Bits.{bit_or}
use meta_picocalc.Regmap.{Regmap}
use meta_picocalc.Mfd.Battery.{get_property, get_property_lem, status, capacity, percent, charging}
use meta_picocalc.Mfd.Backlight.{Props}
use meta_picocalc.Mfd.Core.{
  Answers, probe, shutdown, probe-shutdown, complete, halt, power_off, restart,
}
use mathlib.Core.Option.{some}

-- The bus is the list of writes, the latest first. Every reading is 0xE3, which is 99 with bit 7,
-- except at register 9, which fails with EIO.
abbrev Log : Type 0
Log = List (ℕ × ℕ)

abbrev scripted : Regmap
scripted = record {
  Bus = Log;
  read = λ bus reg. (bus, ok 0xE3);
  bulk_read = λ bus reg. (bus, if reg == 9 then err 5 else ok (reg, 0xE3));
  write = λ bus reg v. ((reg, v) ∷ bus, ok tt);
}

abbrev bright : Props
bright = record { brightness = 10; power = 0; fb_blank = 0; state = 0 }

abbrev answers : Answers
answers = record {
  kzalloc = true;
  poweroff = ok 0x0e;
  regmap_init = ok tt;
  create_group = ok tt;
  populate = ok tt;
}

get_property_lem_example :
    (get_property scripted 0x0b capacity [] ≡ ([], ok (percent 99)))
    × (get_property scripted 0x0b status [] ≡ ([], ok charging))
get_property_lem_example = get_property_lem scripted 0x0b [] [] 0x0b 99 true (omega arith) refl

probe-shutdown_example :
    (p : ℕ) × (answers.poweroff ≡ ok p)
    × ((probe scripted answers []).0.0 ≡ complete p)
    × (shutdown scripted power_off (some tt) p [] ≡ (scripted.write [] (bit_or p 128) 1).0)
    × (shutdown scripted halt (some tt) p [] ≡ (scripted.write [] (bit_or p 128) 1).0)
    × (shutdown scripted restart (some tt) p [] ≡ [])
unfolding probe
probe-shutdown_example = probe-shutdown scripted answers [] [] refl
