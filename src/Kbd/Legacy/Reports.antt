-- ===== src/Kbd/Legacy/Reports.antt =====
-- A property of single reports that the stand-alone driver's handler has holds of a whole batch.
use meta_picocalc.Prelude.{
  ℕ, ◌+◌, ◌%◌, ◌≡◌, ◌≢◌, refl, arith, Bool, true, false, List, [], ◌∷◌, ◌++◌, not, ◌==◌, ◌&&◌, ◌||◌,
  if◌then◌else◌, if_intro, Option, none, some,
}
use meta_picocalc.Kbd.Codes.{key_pageup, key_pagedown, key_insert, key_leftshift, key_rightshift}
use meta_picocalc.Kbd.Fifo.{Item, key_state_hold, key_state_released}
use meta_picocalc.Kbd.Pointer.{Report, key, is_pressed}
use meta_picocalc.Kbd.Mfd.{btn_left, btn_right, is_handled, key_unknown}
use meta_picocalc.Prelude.{All, All-append}
use meta_picocalc.Kbd.Legacy.Defs.{
  Kbd, Second, release_second, track_second, track_shift, shift_logic, mouse_key, press_key,
  post_key, key_report_event, is_shift, after,
}
use meta_picocalc.Kbd.Legacy.Handler.{report_all}

module _ (keycodes : ℕ → ℕ) where
  -- Each second key that is down has a key code.
  abbrev pub IsMapped : List Second → Type 0
  IsMapped [] = Unit
  IsMapped (k ∷ ks) = (k.flag ≡ true → keycodes k.scancode % 256 ≢ 0) × IsMapped ks

  abbrev MappedIf : Option (List Second) → Type 0
  MappedIf none = Unit
  MappedIf (some ks) = IsMapped ks

  track_second-IsMapped :
      (s : ℕ) (b : Bool) (ks : List Second)
      → keycodes s % 256 ≢ 0
      → IsMapped ks
      → MappedIf (track_second s b ks)
  unfolding track_second
  track_second-IsMapped s b [] z m = tt
  track_second-IsMapped s b (k ∷ ks) z m =
      let rest : (o : Option (List Second))
          → MappedIf o
          → MappedIf (elim o [ some ks' ↦ some (k ∷ ks') | none ↦ none ]) =
        λ o h.
          elim o
              as (λ o. MappedIf o → MappedIf (elim o [ some ks' ↦ some (k ∷ ks') | none ↦ none ])) [
                | none ↦ λ _. tt
                | some ks' ↦ λ h. (m.0, h)
              ]
            h in
      if_intro MappedIf (k.scancode == s) (λ e. ((λ _. ground (arith, e, z)), m.1))
        (λ _. rest (track_second s b ks) (track_second-IsMapped s b ks z m.1))

module _ (keycodes : ℕ → ℕ) (P : Report → Type 0) where
  -- `P` holds of each key that `keycodes` gives, and of the keys that the driver names itself.
  pub record Covers : Type 0 where
    pub mapped : (s : ℕ) (b : Bool) → keycodes s % 256 ≢ 0 → P (key (keycodes s % 256) b)
    pub buttons : (b : Bool) → P (key btn_left b) × P (key btn_right b)
    pub pages : (b : Bool) → P (key key_pageup b) × P (key key_pagedown b)
    pub insert : (b : Bool) → P (key key_insert b)
    pub shifts : (b : Bool) → P (key key_leftshift b) × P (key key_rightshift b)

  abbrev Fine : Kbd × List Report → Type 0
  Fine r = IsMapped keycodes r.0.second_keys × All P r.1

  abbrev FineIf : Option (Kbd × List Report) → Type 0
  FineIf none = Unit
  FineIf (some r) = Fine r

  module _ (p : Covers) where
    release_second-Fine :
        (ks : List Second)
        → IsMapped keycodes ks
        → let (ks', out) = release_second keycodes ks in IsMapped keycodes ks' × All P out
    unfolding release_second
    release_second-Fine [] m = (tt, tt)
    release_second-Fine (k ∷ ks) m =
        let (m', a) = release_second-Fine ks m.1 in
        (
          (λ f. cc, m'),
          if_intro (All P) k.flag (λ f. (p.mapped k.scancode false (m.0 f), a)) (λ _. a),
        )

    shift_logic-Fine :
        (ev : Item) (c : Kbd) → IsMapped keycodes c.second_keys → Fine (shift_logic keycodes ev c)
    unfolding shift_logic
    shift_logic-Fine ev c m =
        if_intro Fine (is_pressed ev && is_shift ev)
          (λ _. (
            if_intro (λ (x : Kbd). IsMapped keycodes x.second_keys)
                (c.left_shift_pressed && c.right_shift_pressed) (λ _. m) (λ _. m),
            tt,
          ))
          (λ _.
            if_intro Fine (ev.state == key_state_released && is_shift ev)
              (λ _.
                if_intro Fine (not c.left_shift_pressed && not c.right_shift_pressed)
                  (λ _. release_second-Fine c.second_keys m) (λ _. (m, tt)))
              (λ _. (m, tt)))

    mouse_key-Fine :
        (now : ℕ) (ev : Item) (c : Kbd)
        → IsMapped keycodes c.second_keys
        → FineIf (mouse_key now ev c)
    unfolding mouse_key
    mouse_key-Fine now ev c m =
        if_intro FineIf (ev.scancode == 0xb7) (λ _. (m, tt))
          (λ _.
            if_intro FineIf (ev.scancode == 0xb4) (λ _. (m, tt))
              (λ _.
                if_intro FineIf (ev.scancode == 0xb6) (λ _. (m, tt))
                  (λ _.
                    if_intro FineIf (ev.scancode == 0xb5) (λ _. (m, tt))
                      (λ _.
                        if_intro FineIf (ev.scancode == b']')
                          (λ _. (m, ((p.buttons (is_pressed ev)).1, tt)))
                          (λ _.
                            if_intro FineIf (ev.scancode == b'[')
                              (λ _. (m, ((p.buttons (is_pressed ev)).0, tt)))
                              (λ _.
                                if_intro FineIf (ev.scancode == 0x84 || ev.scancode == 0x89)
                                  (λ _. (m, ((p.pages (is_pressed ev)).0, tt)))
                                  (λ _.
                                    if_intro FineIf (ev.scancode == 0x85 || ev.scancode == 0x90)
                                      (λ _. (m, ((p.pages (is_pressed ev)).1, tt))) (λ _. tt))))))))

    press_second-Fine :
        (s : ℕ) (b : Bool) (c : Kbd) (o : Option (List Second))
        → keycodes s % 256 ≢ 0
        → IsMapped keycodes c.second_keys
        → MappedIf keycodes o
        → Fine (elim o [
          | none ↦ (c, key (keycodes s % 256) b ∷ [])
          | some ks ↦ (
            record c { second_keys = ks },
            (if b then key key_leftshift false ∷ key key_rightshift false ∷ [] else [])
                ++ (key (keycodes s % 256) b ∷ []),
          )
        ])
    press_second-Fine s b c none z m h = (m, (p.mapped s b z, tt))
    press_second-Fine s b c (some ks) z m h = (
      h,
      All-append P _ _
          (if_intro (All P) b (λ _. ((p.shifts false).0, ((p.shifts false).1, tt))) (λ _. tt))
          (p.mapped s b z, tt),
    )

    press_key-Fine :
        (s : ℕ) (ev : Item) (c : Kbd)
        → ev.scancode ≡ s
        → keycodes s % 256 ≢ 0
        → IsMapped keycodes c.second_keys
        → Fine (press_key (keycodes s % 256) ev c)
    unfolding press_key
    press_key-Fine s ev c e z m =
        if_intro Fine
          (ev.scancode == 0xd1 && (not c.left_shift_pressed && not c.right_shift_pressed))
          (λ _. (m, (p.insert (is_pressed ev), tt)))
          (λ _.
            press_second-Fine s (is_pressed ev) c _ z m
              (rw e (track_second-IsMapped keycodes s (is_pressed ev) c.second_keys z m)))

    post_key-Fine :
        (now : ℕ) (ev : Item) (c : Kbd)
        → IsMapped keycodes c.second_keys
        → Fine (post_key keycodes now ev c)
    unfolding post_key
    post_key-Fine now ev c m =
        if_intro Fine (keycodes ev.scancode % 256 == 0) (λ _. (m, tt))
          (λ z.
            if_intro Fine (keycodes ev.scancode % 256 == key_unknown) (λ _. (m, tt))
              (λ _.
                if_intro Fine (ev.state == key_state_hold) (λ _. (m, tt))
                  (λ _. press_key-Fine ev.scancode ev _ refl (ground arith) m)))

    after-Fine :
        (out : List Report) (r : Kbd × List Report) → All P out → Fine r → Fine (after out r)
    after-Fine out r a f = (f.0, All-append P out r.1 a f.1)

    mouse_or_key :
        (out : List Report) (o : Option (Kbd × List Report)) (r : Kbd × List Report)
        → All P out
        → FineIf o
        → Fine r
        → Fine (elim o [ some q ↦ after out q | none ↦ after out r ])
    mouse_or_key out none r a h f = after-Fine out r a f
    mouse_or_key out (some q) r a h f = after-Fine out q a h

    event-Fine :
        (now : ℕ) (ev : Item) (c : Kbd)
        → IsMapped keycodes c.second_keys
        → Fine (key_report_event keycodes now ev c)
    unfolding key_report_event track_shift
    event-Fine now ev c m =
        let (m1, a) = shift_logic-Fine ev (track_shift ev c) m in
        let c1 = (shift_logic keycodes ev (track_shift ev c)).0 in
        let out = (shift_logic keycodes ev (track_shift ev c)).1 in
        if_intro Fine (not (is_handled ev)) (λ _. (m, tt))
          (λ _.
            if_intro Fine c1.ctx.mouse_mode
              (λ _.
                mouse_or_key out (mouse_key now ev c1) (post_key keycodes now ev c1) a
                  (mouse_key-Fine now ev c1 m1) (post_key-Fine now ev c1 m1))
              (λ _. after-Fine out (post_key keycodes now ev c1) a (post_key-Fine now ev c1 m1)))

    pub report_all-All :
        (clock : ℕ → ℕ) (i : ℕ) (evs : List Item) (c : Kbd)
        → IsMapped keycodes c.second_keys
        → All P (report_all keycodes clock i evs c).1
    unfolding report_all
    report_all-All clock i [] c m = tt
    report_all-All clock i (ev ∷ evs) c m =
        let (m', a) = event-Fine (clock i) ev c m in
        All-append P (key_report_event keycodes (clock i) ev c).1 _ a
          (report_all-All clock (i + 1) evs (key_report_event keycodes (clock i) ev c).0 m')
