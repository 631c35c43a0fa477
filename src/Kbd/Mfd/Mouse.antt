-- ===== src/Kbd/Mfd/Mouse.antt =====
-- Mouse mode: which keys are held, what the pointer does, and what leaving the mode forgets.
use meta_picocalc.Prelude.{
  ℕ, ◌+◌, ◌%◌, ◌≡◌, refl, arith, ap, ◌∙◌, Bool, true, false, List, [], ◌∷◌, ◌⊎◌, not, ◌==◌,
  if◌then◌else◌, inl, inr, ◌^◌, ◌-◌,
}
use meta_picocalc.Prelude.Int.{ℤ, pos, sub_ℕ, ◌+ℤ◌}
use meta_picocalc.Kbd.Dirs.{Dir, left, right, up, down, mask, same, has, has-raise, has-lower}
use meta_picocalc.Kbd.Fifo.{Item, Ctx}
use meta_picocalc.Kbd.Pointer.{Report, rel_x, rel_y, arrow, move_pointer, moves, step_of}
use meta_picocalc.Kbd.Mfd.Defs.{key_report_event}
use meta_picocalc.Kbd.Mfd.Handler.{report_all}
use meta_picocalc.Kbd.Valid.{IsValid}

abbrev pub scan_of : Dir → ℕ
scan_of left = 0xb4
scan_of right = 0xb7
scan_of up = 0xb5
scan_of down = 0xb6

abbrev pub press : ℕ → Item
press s = record { state = 1; scancode = s }

abbrev pub release : ℕ → Item
release s = record { state = 3; scancode = s }

-- the right shift key
abbrev pub toggle : Item
toggle = press 0xA3

arrow_mode :
    (a : Dir) (now : ℕ) (ev : Item) (c : Ctx) → (arrow a now ev c).mouse_mode ≡ c.mouse_mode
unfolding arrow
arrow_mode a now ev c = ground arith

arrow_bits :
    (a b : Dir) (now st : ℕ) (c : Ctx)
    → IsValid c
    → (st ≡ 1) ⊎ (st ≡ 3)
    → has (arrow a now (record { state = st; scancode = scan_of a }) c).mouse_move_dir (mask b)
      ≡ (if same a b then st == 1 else has c.mouse_move_dir (mask b))
unfolding arrow
arrow_bits a b now st c v (inl e) = ground (arith, has-raise c.mouse_move_dir a b v.dir_byte)
arrow_bits a b now st c v (inr e) = ground (arith, has-lower c.mouse_move_dir a b v.dir_byte)

module _ (keycodes : ℕ → ℕ) where
  event_arrow :
      (a : Dir) (now st : ℕ) (c : Ctx)
      → c.mouse_mode ≡ true
      → (st ≡ 1) ⊎ (st ≡ 3)
      → key_report_event keycodes now (record { state = st; scancode = scan_of a }) c
        ≡ (arrow a now (record { state = st; scancode = scan_of a }) c, [])
  unfolding key_report_event
  event_arrow left now st c h s = ground arith
  event_arrow right now st c h s = ground arith
  event_arrow up now st c h s = ground arith
  event_arrow down now st c h s = ground arith

  -- In mouse mode a press or release of an arrow key reports nothing; it sets or clears that key's
  -- bit of `mouse_move_dir` and leaves the other three as they are.
  pub arrow_tracks :
      (a b : Dir) (now st : ℕ) (c : Ctx)
      → IsValid c
      → c.mouse_mode ≡ true
      → (st ≡ 1) ⊎ (st ≡ 3)
      → let (c', out) =
          key_report_event keycodes now (record { state = st; scancode = scan_of a }) c in
        (out ≡ [])
        × (has c'.mouse_move_dir (mask b)
            ≡ (if same a b then st == 1 else has c.mouse_move_dir (mask b)))
        × (c'.mouse_mode ≡ true)
  arrow_tracks a b now st c v h s =
      rw (event_arrow a now st c h s) (refl, arrow_bits a b now st c v s, arrow_mode a now _ c ∙ h)

  -- In keyboard mode no event changes which directions count as held.
  pub keyboard_keeps_dir :
      (now : ℕ) (ev : Item) (c : Ctx)
      → c.mouse_mode ≡ false
      → (key_report_event keycodes now ev c).0.mouse_move_dir ≡ c.mouse_move_dir
  unfolding key_report_event
  keyboard_keeps_dir now ev c h = ground arith

  toggle_event :
      (now : ℕ) (c : Ctx)
      → key_report_event keycodes now toggle c ≡ (record c { mouse_mode = not c.mouse_mode }, [])
  unfolding key_report_event
  toggle_event now c = refl

  keyboard_keeps_mode :
      (a : Dir) (now : ℕ) (c : Ctx)
      → c.mouse_mode ≡ false
      → (key_report_event keycodes now (release (scan_of a)) c).0.mouse_mode ≡ false
  unfolding key_report_event
  keyboard_keeps_mode left now c h = ground arith
  keyboard_keeps_mode right now c h = ground arith
  keyboard_keeps_mode up now c h = ground arith
  keyboard_keeps_mode down now c h = ground arith

  module _ (clock : ℕ → ℕ) where
    -- An arrow key that is held in mouse mode and let go in keyboard mode still counts as held when
    -- mouse mode comes back.
    pub direction_sticks :
        (a : Dir) (i : ℕ) (c : Ctx)
        → c.mouse_mode ≡ true
        → has c.mouse_move_dir (mask a) ≡ true
        → let c' = (report_all keycodes clock i (toggle ∷ release (scan_of a) ∷ toggle ∷ []) c).0 in
          (c'.mouse_mode ≡ true) × (has c'.mouse_move_dir (mask a) ≡ true)
    unfolding report_all
    direction_sticks a i c h k =
        let c1 = record c { mouse_mode = not c.mouse_mode } in
        let off : c1.mouse_mode ≡ false = rw h in
        let c2 = (key_report_event keycodes (clock (i + 1)) (release (scan_of a)) c1).0 in
        rw (toggle_event (clock i) c, toggle_event (clock (i + 1 + 1)) c2)
          (
            ap not (keyboard_keeps_mode a (clock (i + 1)) c1 off),
            ap (λ d. has d (mask a))
                  (keyboard_keeps_dir (clock (i + 1)) (release (scan_of a)) c1 off)
                ∙ k,
          )

-- The input core's sums of the pointer reports.
abbrev pub total_x : List Report → ℤ
total_x [] = pos 0
total_x (rel_x d ∷ rs) = d +ℤ total_x rs
total_x (_ ∷ rs) = total_x rs

abbrev pub total_y : List Report → ℤ
total_y [] = pos 0
total_y (rel_y d ∷ rs) = d +ℤ total_y rs
total_y (_ ∷ rs) = total_y rs

abbrev pub amount : Bool → ℕ → ℕ
amount b s = if b then s else 0

-- In mouse mode the pointer moves by one step right and down for those keys held, less one step
-- for the opposite keys, so opposite keys cancel; the step is `step_of` the time since the last key
-- press. In keyboard mode it does not move.
pub move_pointer_lem :
    (now : ℕ) (c : Ctx)
    → let (c', out) = move_pointer now c in
      let s = if c.mouse_mode then step_of ((now + 2 ^ 64 - c.last_keypress_at) % 2 ^ 64) else 0 in
      (total_x out
        ≡ sub_ℕ
            (amount (has c.mouse_move_dir (mask right)) s)
            (amount (has c.mouse_move_dir (mask left)) s))
      × (total_y out
          ≡ sub_ℕ
              (amount (has c.mouse_move_dir (mask down)) s)
              (amount (has c.mouse_move_dir (mask up)) s))
      × (c'.mouse_move_dir ≡ c.mouse_move_dir)
      × (c'.mouse_mode ≡ c.mouse_mode)
unfolding move_pointer moves ◌+ℤ◌ step_of
move_pointer_lem now c = ground arith
