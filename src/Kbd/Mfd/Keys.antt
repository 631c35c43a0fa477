-- ===== src/Kbd/Mfd/Keys.antt =====
-- What reaches the input core, over a whole batch of events.
use meta_picocalc.Prelude.{All}
use meta_picocalc.Prelude.{
  ℕ, ◌+◌, ◌%◌, ◌<◌, ◌≡◌, ◌≢◌, refl, arith, ap, ◌∙◌, Bool, true, false, List, [], ◌∷◌, ◌⊎◌, not,
  ◌==◌, ◌&&◌, if◌then◌else◌, inl, inr,
}
use meta_picocalc.Kbd.Fifo.{Item, Ctx}
use meta_picocalc.Kbd.Pointer.{Report, msc_scan, key, rel_x, rel_y, sync, arrow, is_pressed}
use meta_picocalc.Kbd.Mfd.Defs.{key_report_event, key_unknown, btn_left, btn_right, is_handled}
use meta_picocalc.Kbd.Mfd.Handler.{report_all}
use meta_picocalc.Kbd.Mfd.Mouse.{press, release}
use meta_picocalc.Kbd.Mfd.Reports.{Covers, report_all-All}

-- A key report names a code of the table other than KEY_RESERVED and KEY_UNKNOWN, or a mouse button;
-- there is no movement and no sync among the events.
abbrev pub IsEvent : Report → Type 0
IsEvent (key k v) = (k ≢ 0) × (k ≢ key_unknown) × ((k < 256) ⊎ ((k ≡ btn_left) ⊎ (k ≡ btn_right)))
IsEvent (msc_scan s) = Unit
IsEvent (rel_x d) = ⊥
IsEvent (rel_y d) = ⊥
IsEvent sync = ⊥

-- Right shift presses toggle mouse mode.
abbrev pub is_toggle : Item → Bool
is_toggle ev = ev.scancode == 0xA3 && is_pressed ev

abbrev pub flips : List Item → Bool → Bool
flips [] b = b
flips (ev ∷ evs) b = flips evs (if is_toggle ev then not b else b)

module _ (keycodes : ℕ → ℕ) where
  covers-IsEvent : Covers keycodes IsEvent
  covers-IsEvent = record {
    scan = λ s. tt;
    mapped = λ s b z u. (z, u, inl (omega arith));
    left = λ b. (omega arith, omega arith, inr (inl refl));
    right = λ b. (omega arith, omega arith, inr (inr refl));
  }

  event_mode :
      (now : ℕ) (ev : Item) (c : Ctx)
      → (key_report_event keycodes now ev c).0.mouse_mode
        ≡ (if is_toggle ev then not c.mouse_mode else c.mouse_mode)
  unfolding key_report_event arrow
  event_mode now ev c = ground arith

  -- An event of any other state than pressed, held and released changes nothing and reports nothing.
  pub other_states_ignored :
      (now : ℕ) (ev : Item) (c : Ctx)
      → is_handled ev ≡ false
      → key_report_event keycodes now ev c ≡ (c, [])
  unfolding key_report_event
  other_states_ignored now ev c h = rw h

  -- In keyboard mode a mapped key that is pressed and then released is reported as down and as up,
  -- each after its scan code, and the mode stays.
  pub press-release :
      (clock : ℕ → ℕ) (i : ℕ) (s : ℕ) (c : Ctx)
      → c.mouse_mode ≡ false
      → s ≢ 0xA3
      → keycodes s % 256 ≢ 0
      → keycodes s % 256 ≢ key_unknown
      → let (c', out) = report_all keycodes clock i (press s ∷ release s ∷ []) c in
        (out
          ≡ msc_scan s
            ∷ key (keycodes s % 256) true
            ∷ msc_scan s
            ∷ key (keycodes s % 256) false
            ∷ [])
        × (c'.mouse_mode ≡ false)
  unfolding report_all key_report_event
  press-release clock i s c m n k u = ground arith

  module _ (clock : ℕ → ℕ) where
    -- Whatever a batch of events holds, each of its reports is a scan code, a mouse button, or a key
    -- code below 256 other than KEY_RESERVED and KEY_UNKNOWN: none is a movement or a sync.
    pub batch-IsEvent :
        (i : ℕ) (evs : List Item) (c : Ctx) → All IsEvent (report_all keycodes clock i evs c).1
    batch-IsEvent = report_all-All keycodes IsEvent covers-IsEvent clock

    -- Over a batch of events mouse mode is toggled by the presses of the right shift key alone.
    pub batch_mode :
        (i : ℕ) (evs : List Item) (c : Ctx)
        → (report_all keycodes clock i evs c).0.mouse_mode ≡ flips evs c.mouse_mode
    unfolding report_all
    batch_mode i [] c = refl
    batch_mode i (ev ∷ evs) c =
        batch_mode (i + 1) evs (key_report_event keycodes (clock i) ev c).0
        ∙ ap (flips evs) (event_mode (clock i) ev c)
