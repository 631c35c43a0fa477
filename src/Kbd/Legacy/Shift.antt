-- ===== src/Kbd/Legacy/Shift.antt =====
-- What the shift keys do: mouse mode by both of them, and no second key that stays down after them.
use meta_picocalc.Prelude.{
  ℕ, ◌%◌, ◌≡◌, refl, arith, ap, Bool, true, false, inl, inr, ◌&&◌, ◌||◌, not, List, [], ◌∷◌, ◌==◌,
  if◌then◌else◌, none, ◌++◌, subst, sym, ◌∙◌, ◌⊎◌,
}
use meta_picocalc.Kbd.Fifo.{Item, key_state_released}
use meta_picocalc.Kbd.Mfd.{key_unknown}
use meta_picocalc.Kbd.Pointer.{Report, key, is_pressed, arrow}
use meta_picocalc.Kbd.Legacy.Defs.{
  Kbd, Second, release_second, shift_logic, track_shift, key_report_event, track_second, post_key,
  press_key, mouse_key, after,
}

-- No second key is down.
abbrev pub IsClear : List Second → Type 0
IsClear [] = Unit {0}
IsClear (k ∷ ks) = (k.flag ≡ false) × IsClear ks

-- the releases of those that are down
abbrev pub releases : (ℕ → ℕ) → List Second → List Report
releases keycodes [] = []
releases keycodes (k ∷ ks) =
    if k.flag
    then key (keycodes k.scancode % 256) false ∷ releases keycodes ks
    else releases keycodes ks

module _ (keycodes : ℕ → ℕ) where
  release_second_lem :
      (ks : List Second)
      → IsClear (release_second keycodes ks).0
        × ((release_second keycodes ks).1 ≡ releases keycodes ks)
  unfolding release_second
  release_second_lem [] = (tt, refl)
  release_second_lem (k ∷ ks) =
      let (c, e) = release_second_lem ks in
      ((refl, c), ap (λ t. if k.flag then key (keycodes k.scancode % 256) false ∷ t else t) e)

  if_same : {A : Type 0} (b : Bool) (x : A) → (if b then x else x) ≡ x
  if_same true x = refl
  if_same false x = refl

  -- None of the keys is a shift key.
  abbrev pub IsApart : List Second → Type 0
  IsApart [] = Unit {0}
  IsApart (k ∷ ks) = ((k.scancode == 0xA2) ≡ false) × ((k.scancode == 0xA3) ≡ false) × IsApart ks

  abbrev pub released : ℕ → Item
  released s = record { state = key_state_released; scancode = s }

  -- the release of a shift key itself, where its code is in the table
  abbrev pub own : ℕ → List Report
  own s =
      let keycode = keycodes s % 256 in
      if keycode == 0 then [] else if keycode == key_unknown then [] else key keycode false ∷ []

  apart_lem :
      (ks : List Second)
      → IsApart ks
      → (track_second 0xA2 false (release_second keycodes ks).0 ≡ none)
        × (track_second 0xA3 false (release_second keycodes ks).0 ≡ none)
  unfolding track_second release_second
  apart_lem [] a = (refl, refl)
  apart_lem (k ∷ ks) (a, b, rest) =
      let (u, v) = apart_lem ks rest in (rw (a, u) refl, rw (b, v) refl)

  post_shift :
      (now s : ℕ) (c : Kbd)
      → (s == 0xd1) ≡ false
      → track_second s (is_pressed (released s)) c.second_keys ≡ none
      → let (e, out) = post_key keycodes now (released s) c in
        (e.second_keys ≡ c.second_keys) × (out ≡ own s)
  unfolding post_key press_key
  post_shift now s c h e = ground arith

  -- What comes after the release of the second keys.
  ends :
      (now s : ℕ) (c : Kbd)
      → (s == 0xd1) ≡ false
      → track_second s false (release_second keycodes c.second_keys).0 ≡ none
      → let (e, out) = after (release_second keycodes c.second_keys).1 (
          post_key keycodes now
            (released s)
            (record c { second_keys = (release_second keycodes c.second_keys).0 })) in
        IsClear e.second_keys × (out ≡ releases keycodes c.second_keys ++ own s)
  ends now s c h e =
      let (clear, said) = release_second_lem c.second_keys in
      let (same, out) =
        post_shift now s (record c { second_keys = (release_second keycodes c.second_keys).0 }) h
          e in
      (
        subst IsClear (sym same) clear,
        ap (λ (t : List Report). (release_second keycodes c.second_keys).1 ++ t) out
            ∙ ap (λ (t : List Report). t ++ own s) said,
      )

  abbrev logic : ℕ → Kbd → Kbd × List Report
  logic s c = shift_logic keycodes (released s) (track_shift (released s) c)

  -- Mouse mode has no use for the shift keys.
  left_event :
      (now : ℕ) (c : Kbd)
      → key_report_event keycodes now (released 0xA2) c
        ≡ after (logic 0xA2 c).1 (post_key keycodes now (released 0xA2) (logic 0xA2 c).0)
  unfolding key_report_event mouse_key
  left_event now c = if_same (logic 0xA2 c).0.ctx.mouse_mode _

  right_event :
      (now : ℕ) (c : Kbd)
      → key_report_event keycodes now (released 0xA3) c
        ≡ after (logic 0xA3 c).1 (post_key keycodes now (released 0xA3) (logic 0xA3 c).0)
  unfolding key_report_event mouse_key
  right_event now c = if_same (logic 0xA3 c).0.ctx.mouse_mode _

  abbrev cleared : Kbd → Kbd × List Report
  cleared c =
      let (ks, out) = release_second keycodes c.second_keys in (record c { second_keys = ks }, out)

  left_logic :
      (c : Kbd)
      → c.right_shift_pressed ≡ false
      → logic 0xA2 c ≡ cleared (record c { left_shift_pressed = false })
  unfolding shift_logic track_shift
  left_logic c e = rw e refl

  right_logic :
      (c : Kbd)
      → c.left_shift_pressed ≡ false
      → logic 0xA3 c ≡ cleared (record c { right_shift_pressed = false })
  unfolding shift_logic track_shift
  right_logic c e = rw e refl

  abbrev IsReleasing : ℕ → Kbd → ℕ → Type 0
  IsReleasing now c s =
      let (e, out) = key_report_event keycodes now (released s) c in
      IsClear e.second_keys × (out ≡ releases keycodes c.second_keys ++ own s)

  -- The event of a shift key's release, while the other one is up, clears every second key; it reports the
  -- release of each second key that was down, in their order, and then that of the shift key, where the
  -- key code table has it, and nothing else. No second key is a shift key.
  pub shift_release_lem :
      (now s : ℕ) (c : Kbd)
      → IsApart c.second_keys
      → (((s ≡ 0xA2) × (c.right_shift_pressed ≡ false))
          ⊎ ((s ≡ 0xA3) × (c.left_shift_pressed ≡ false)))
      → let (e, out) = key_report_event keycodes now (released s) c in
        IsClear e.second_keys × (out ≡ releases keycodes c.second_keys ++ own s)
  shift_release_lem now s c a (inl (k, e)) = subst (IsReleasing now c) (sym k) (
      rw (left_event now c, left_logic c e)
        (ends now 0xA2 (record c { left_shift_pressed = false }) refl
          (apart_lem c.second_keys a).0))
  shift_release_lem now s c a (inr (k, e)) = subst (IsReleasing now c) (sym k) (
      rw (right_event now c, right_logic c e)
        (ends now 0xA3 (record c { right_shift_pressed = false }) refl
          (apart_lem c.second_keys a).1))

  -- one shift key is pressed while the other is down
  abbrev pub is_toggle : Item → Kbd → Bool
  is_toggle ev c =
      is_pressed ev
      && ((ev.scancode == 0xA2 && c.right_shift_pressed)
          || (ev.scancode == 0xA3 && c.left_shift_pressed))

  -- Mouse mode changes exactly when one shift key is pressed while the other is down.
  toggle_lem :
      (now : ℕ) (ev : Item) (c : Kbd)
      → (key_report_event keycodes now ev c).0.ctx.mouse_mode
        ≡ (if is_toggle ev c then not c.ctx.mouse_mode else c.ctx.mouse_mode)
  unfolding key_report_event arrow
  toggle_lem now ev c = ground arith
