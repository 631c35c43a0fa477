-- ===== src/Kbd/Legacy/Declared.antt =====
-- The stand-alone driver's own table, and what the input device declares of it.
use meta_picocalc.Prelude.{ℕ, ◌%◌, ◌≡◌, ◌≢◌, refl, Bool, true, false, List, [], ◌∷◌}
use meta_picocalc.Kbd.Codes.{fill, key_insert}
use meta_picocalc.Kbd.Fifo.{Item}
use meta_picocalc.Kbd.Pointer.{Report, msc_scan, key, rel_x, rel_y, sync}
use meta_picocalc.Kbd.Poll.Defs.{capabilities}
use meta_picocalc.Kbd.Poll.Keybits.{
  AllBytes, are_bytes-AllBytes, lookup, capabilities_declare, capabilities_left, capabilities_right,
}
use meta_picocalc.Kbd.Mfd.{press}
use meta_picocalc.Prelude.{All}
use meta_picocalc.Kbd.Legacy.Codes.{keycodes}
use meta_picocalc.Kbd.Legacy.Defs.{Kbd, key_report_event, track_shift, post_key, press_key}
use meta_picocalc.Kbd.Legacy.Handler.{report_all}
use meta_picocalc.Kbd.Legacy.Reports.{Covers, IsMapped, report_all-All}

-- The input core passes on a key only where `keybit` has it; here KEY_INSERT is left open.
abbrev pub IsDeclaredOrInsert : (ℕ → Bool) → Report → Type 0
IsDeclaredOrInsert keybit (key k v) = k ≢ key_insert → keybit k ≡ true
IsDeclaredOrInsert keybit (msc_scan s) = Unit
IsDeclaredOrInsert keybit (rel_x d) = Unit
IsDeclaredOrInsert keybit (rel_y d) = Unit
IsDeclaredOrInsert keybit sync = Unit

keycodes-AllBytes : AllBytes keycodes
unfolding keycodes fill
keycodes-AllBytes = are_bytes-AllBytes keycodes refl

-- a code that a scan code of the table has
declared_at :
    (s : ℕ) → lookup keycodes s % 256 ≢ 0 → capabilities keycodes (lookup keycodes s % 256) ≡ true
declared_at = capabilities_declare keycodes keycodes-AllBytes

declared_pages : (capabilities keycodes 104 ≡ true) × (capabilities keycodes 109 ≡ true)
unfolding keycodes fill capabilities
declared_pages = (refl, refl)

declared_shifts : (capabilities keycodes 42 ≡ true) × (capabilities keycodes 54 ≡ true)
unfolding keycodes fill capabilities
declared_shifts = (refl, refl)

insert_undeclared : capabilities keycodes key_insert ≡ false
unfolding keycodes fill capabilities
insert_undeclared = refl

insert_code : lookup keycodes 0xD1 ≡ 28
unfolding keycodes fill
insert_code = refl

declares : Covers (lookup keycodes) (IsDeclaredOrInsert (capabilities keycodes))
declares = record {
  mapped = λ s b z n. declared_at s z;
  buttons = λ b. (λ n. capabilities_left keycodes, λ n. capabilities_right keycodes);
  pages = λ b. (λ n. declared_pages.0, λ n. declared_pages.1);
  insert = λ b n. absurd (n refl);
  shifts = λ b. (λ n. declared_shifts.0, λ n. declared_shifts.1);
}

-- With the driver's own table, and a key code for each second key that is down, each key but
-- KEY_INSERT that a batch of events reports is one that the input device has declared.
pub batch-IsDeclaredOrInsert :
    (clock : ℕ → ℕ) (i : ℕ) (evs : List Item) (c : Kbd)
    → IsMapped (lookup keycodes) c.second_keys
    → All
        (IsDeclaredOrInsert (capabilities keycodes))
        (report_all (lookup keycodes) clock i evs c).1
batch-IsDeclaredOrInsert =
    report_all-All (lookup keycodes) (IsDeclaredOrInsert (capabilities keycodes)) declares

-- In keyboard mode with both shift keys up, a press of the Insert scan code, which the table maps to
-- KEY_ENTER, reports KEY_INSERT, a key that the device has not declared: the input core drops it.
lone_insert_undeclared :
    (now : ℕ) (c : Kbd)
    → c.ctx.mouse_mode ≡ false
    → c.left_shift_pressed ≡ false
    → c.right_shift_pressed ≡ false
    → ((key_report_event (lookup keycodes) now (press 0xD1) c).1 ≡ key key_insert true ∷ [])
      × (capabilities keycodes key_insert ≡ false)
unfolding key_report_event track_shift post_key press_key
lone_insert_undeclared now c m l r = (simp (m, l, r, insert_code) refl, insert_undeclared)
