-- ===== src/Kbd/Legacy/Keeps.antt =====
-- What every event of the stand-alone driver keeps of the part of the context that the drivers share.
use meta_picocalc.Prelude.{
  ℕ, ◌%◌, ◌≡◌, arith, sym, subst, Bool, List, not, ◌==◌, ◌&&◌, ◌||◌, if_intro, Option, none, some,
}
use meta_picocalc.Kbd.Dirs.{Dir, left, right, up, down}
use meta_picocalc.Kbd.Fifo.{Item, Ctx, key_state_released, key_state_hold}
use meta_picocalc.Kbd.Pointer.{Report, arrow, is_pressed}
use meta_picocalc.Kbd.Mfd.{key_unknown, is_handled}
use meta_picocalc.Kbd.Legacy.Defs.{
  Kbd, is_shift, after, track_shift, shift_logic, mouse_key, press_key, post_key, key_report_event,
}

press_key-ctx : (keycode : ℕ) (ev : Item) (c : Kbd) → (press_key keycode ev c).0.ctx ≡ c.ctx
unfolding press_key
press_key-ctx keycode ev c = ground arith

module _ (keycodes : ℕ → ℕ) (P : Ctx → Type 0) where
  -- `P` survives an arrow key, a change of the mode, and the time of a key press.
  pub record Survives : Type 0 where
    pub arrows : (d : Dir) (now : ℕ) (ev : Item) (c : Ctx) → P c → P (arrow d now ev c)
    pub mode : (b : Bool) (c : Ctx) → P c → P (record c { mouse_mode = b })
    pub time : (now : ℕ) (c : Ctx) → P c → P (record c { last_keypress_at = now })

  abbrev Kept : Kbd × List Report → Type 0
  Kept r = P r.0.ctx

  abbrev KeptIf : Option (Kbd × List Report) → Type 0
  KeptIf none = Unit
  KeptIf (some r) = Kept r

  press_key-Kept : (keycode : ℕ) (ev : Item) (c : Kbd) → P c.ctx → Kept (press_key keycode ev c)
  press_key-Kept keycode ev c p = subst P (sym (press_key-ctx keycode ev c)) p

  module _ (s : Survives) where
    shift_logic-Kept : (ev : Item) (c : Kbd) → P c.ctx → Kept (shift_logic keycodes ev c)
    unfolding shift_logic
    shift_logic-Kept ev c p =
        if_intro Kept (is_pressed ev && is_shift ev)
          (λ _.
            if_intro (λ (x : Kbd). P x.ctx) (c.left_shift_pressed && c.right_shift_pressed)
              (λ _. s.mode _ c.ctx p) (λ _. p))
          (λ _.
            if_intro Kept (ev.state == key_state_released && is_shift ev)
              (λ _.
                if_intro Kept (not c.left_shift_pressed && not c.right_shift_pressed) (λ _. p)
                  (λ _. p))
              (λ _. p))

    mouse_key-Kept : (now : ℕ) (ev : Item) (c : Kbd) → P c.ctx → KeptIf (mouse_key now ev c)
    unfolding mouse_key
    mouse_key-Kept now ev c p =
        if_intro KeptIf (ev.scancode == 0xb7) (λ _. s.arrows right now ev c.ctx p)
          (λ _.
            if_intro KeptIf (ev.scancode == 0xb4) (λ _. s.arrows left now ev c.ctx p)
              (λ _.
                if_intro KeptIf (ev.scancode == 0xb6) (λ _. s.arrows down now ev c.ctx p)
                  (λ _.
                    if_intro KeptIf (ev.scancode == 0xb5) (λ _. s.arrows up now ev c.ctx p)
                      (λ _.
                        if_intro KeptIf (ev.scancode == b']') (λ _. p)
                          (λ _.
                            if_intro KeptIf (ev.scancode == b'[') (λ _. p)
                              (λ _.
                                if_intro KeptIf (ev.scancode == 0x84 || ev.scancode == 0x89)
                                  (λ _. p)
                                  (λ _.
                                    if_intro KeptIf (ev.scancode == 0x85 || ev.scancode == 0x90)
                                      (λ _. p) (λ _. tt))))))))

    post_key-Kept : (now : ℕ) (ev : Item) (c : Kbd) → P c.ctx → Kept (post_key keycodes now ev c)
    unfolding post_key
    post_key-Kept now ev c p =
        if_intro Kept (keycodes ev.scancode % 256 == 0) (λ _. p)
          (λ _.
            if_intro Kept (keycodes ev.scancode % 256 == key_unknown) (λ _. p)
              (λ _.
                if_intro Kept (ev.state == key_state_hold) (λ _. s.time now c.ctx p)
                  (λ _. press_key-Kept (keycodes ev.scancode % 256) ev _ (s.time now c.ctx p))))

    mouse_or_key :
        (out : List Report) (o : Option (Kbd × List Report)) (r : Kbd × List Report)
        → KeptIf o
        → Kept r
        → Kept (elim o [ some q ↦ after out q | none ↦ after out r ])
    mouse_or_key out none r h f = f
    mouse_or_key out (some q) r h f = h

    pub event-Kept :
        (now : ℕ) (ev : Item) (c : Kbd) → P c.ctx → P (key_report_event keycodes now ev c).0.ctx
    unfolding key_report_event track_shift
    event-Kept now ev c p =
        let q = shift_logic-Kept ev (track_shift ev c) p in
        let c1 = (shift_logic keycodes ev (track_shift ev c)).0 in
        let out = (shift_logic keycodes ev (track_shift ev c)).1 in
        if_intro Kept (not (is_handled ev)) (λ _. p)
          (λ _.
            if_intro Kept c1.ctx.mouse_mode
              (λ _.
                mouse_or_key out (mouse_key now ev c1) (post_key keycodes now ev c1)
                  (mouse_key-Kept now ev c1 q) (post_key-Kept now ev c1 q))
              (λ _. post_key-Kept now ev c1 q))
