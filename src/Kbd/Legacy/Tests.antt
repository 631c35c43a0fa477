-- ===== src/Kbd/Legacy/Tests.antt =====
-- The stand-alone keyboard driver on small concrete inputs.
use meta_picocalc.Prelude.{ok, ℕ, ◌+◌, ◌≡◌, refl, true, false, List, [], ◌∷◌, replicate, ◌++◌, inl}
use meta_picocalc.Kbd.Fifo.{Item, blank_item}
use meta_picocalc.Kbd.Pointer.{key}
use meta_picocalc.Kbd.Legacy.Defs.{Kbd, Smbus, up_key, key_report_event}
use meta_picocalc.Kbd.Legacy.Shift.{IsClear, releases, released, own, shift_release_lem}
use meta_picocalc.Kbd.Codes.{key_leftshift, key_rightshift}

-- The bus is the list of writes, the latest first; a word is 0xE30B.
abbrev pub Log : Type 0
Log = List (ℕ × ℕ)

abbrev pub scripted : Smbus
scripted = record {
  Bus = Log;
  read_byte_data = λ b reg. (b, ok 7);
  write_byte_data = λ b reg v. ((reg, v) ∷ b, ok tt);
  read_word_data = λ b reg. (b, ok 0xE30B);
}

abbrev pub table : ℕ → ℕ
table s = s + 1

-- keyboard mode, left shift down, F6 and Break down
abbrev pub typing : Kbd
typing = record {
  ctx = record {
    key_fifo_count = 0;
    key_fifo_data = replicate 31 blank_item;
    last_keypress_at = 0;
    mouse_mode = false;
    mouse_move_dir = 0;
    mouse_move_step = 1;
  };
  left_shift_pressed = true;
  right_shift_pressed = false;
  second_keys =
      record { scancode = 0x86; flag = true }
      ∷ up_key 0x87
      ∷ record { scancode = 0xD0; flag = true }
      ∷ [];
}

abbrev f7_down : Item
f7_down = record { state = 1; scancode = 0x87 }

f7_reports :
    (key_report_event table 5 f7_down typing).1
    ≡ key key_leftshift false ∷ key key_rightshift false ∷ key 0x88 true ∷ []
unfolding key_report_event
f7_reports = refl

-- left shift goes up, while F6 and Break are down
shift_release_lem_example :
    let (e, out) = key_report_event table 5 (released table 0xA2) typing in
    IsClear e.second_keys × (out ≡ releases table typing.second_keys ++ own table 0xA2)
shift_release_lem_example =
    shift_release_lem table 5 0xA2 typing (refl, refl, (refl, refl, (refl, refl, tt)))
      (inl (refl, refl))
