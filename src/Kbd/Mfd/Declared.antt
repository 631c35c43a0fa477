-- ===== src/Kbd/Mfd/Declared.antt =====
-- The driver's own table, and what the input device declares of it.
use meta_picocalc.Prelude.{All}
use meta_picocalc.Prelude.{ℕ, ◌≡◌, refl, Bool, true, List}
use meta_picocalc.Kbd.Fifo.{Item, Ctx}
use meta_picocalc.Kbd.Pointer.{Report, msc_scan, key, rel_x, rel_y, sync}
use meta_picocalc.Kbd.Poll.Defs.{capabilities}
use meta_picocalc.Kbd.Poll.Keybits.{
  AllBytes, are_bytes-AllBytes, lookup, capabilities_declare, capabilities_left, capabilities_right,
}
use meta_picocalc.Kbd.Codes.{fill}
use meta_picocalc.Kbd.Mfd.Codes.{keycodes}
use meta_picocalc.Kbd.Mfd.Reports.{Covers, report_all-All}
use meta_picocalc.Kbd.Mfd.Handler.{report_all}

-- The input core passes on a key only where `keybit` has it.
abbrev pub IsDeclared : (ℕ → Bool) → Report → Type 0
IsDeclared keybit (key k v) = keybit k ≡ true
IsDeclared keybit (msc_scan s) = Unit
IsDeclared keybit (rel_x d) = Unit
IsDeclared keybit (rel_y d) = Unit
IsDeclared keybit sync = Unit

keycodes-AllBytes : AllBytes keycodes
unfolding keycodes fill
keycodes-AllBytes = are_bytes-AllBytes keycodes refl

declares : Covers (lookup keycodes) (IsDeclared (capabilities keycodes))
declares = record {
  scan = λ s. tt;
  mapped = λ s b z u. capabilities_declare keycodes keycodes-AllBytes s z;
  left = λ b. capabilities_left keycodes;
  right = λ b. capabilities_right keycodes;
}

-- With the driver's own table, each key that a batch of events reports is one that the input device
-- has declared: the input core drops none.
pub batch-IsDeclared :
    (clock : ℕ → ℕ) (i : ℕ) (evs : List Item) (c : Ctx)
    → All (IsDeclared (capabilities keycodes)) (report_all (lookup keycodes) clock i evs c).1
batch-IsDeclared = report_all-All (lookup keycodes) (IsDeclared (capabilities keycodes)) declares
