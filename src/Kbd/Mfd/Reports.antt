-- ===== src/Kbd/Mfd/Reports.antt =====
-- A property of single reports that the event handler has holds of all reports of a batch.
use meta_picocalc.Prelude.{
  All, All-append, ℕ, ◌+◌, ◌%◌, ◌≢◌, arith, Bool, List, [], ◌∷◌, not, ◌==◌, if_intro, Option, none,
  some,
}
use meta_picocalc.Kbd.Fifo.{Item, Ctx}
use meta_picocalc.Kbd.Pointer.{Report, msc_scan, key, is_pressed}
use meta_picocalc.Kbd.Mfd.Defs.{
  key_report_event, mouse_key, post_key, key_unknown, btn_left, btn_right, is_handled,
}
use meta_picocalc.Kbd.Mfd.Handler.{report_all}

-- `P` holds of each scan code, of each key that `keycodes` gives (which is a byte, and neither
-- KEY_RESERVED nor KEY_UNKNOWN), and of the two buttons.
module _ (keycodes : ℕ → ℕ) (P : Report → Type 0) where
  pub record Covers : Type 0 where
    pub scan : (s : ℕ) → P (msc_scan s)
    pub mapped :
        (s : ℕ) (b : Bool)
        → keycodes s % 256 ≢ 0
        → keycodes s % 256 ≢ key_unknown
        → P (key (keycodes s % 256) b)
    pub left : (b : Bool) → P (key btn_left b)
    pub right : (b : Bool) → P (key btn_right b)

  abbrev Reported : Ctx × List Report → Type 0
  Reported r = All P r.1

  abbrev ReportedIf : Option (Ctx × List Report) → Type 0
  ReportedIf none = Unit
  ReportedIf (some r) = Reported r

  mouse_or_key :
      (o : Option (Ctx × List Report)) (r : Ctx × List Report)
      → ReportedIf o
      → Reported r
      → Reported (elim o [ some q ↦ q | none ↦ r ])
  mouse_or_key none r h k = k
  mouse_or_key (some q) r h k = h

  module _ (p : Covers) where
    mouse_key-All : (now : ℕ) (ev : Item) (c : Ctx) → ReportedIf (mouse_key now ev c)
    unfolding mouse_key
    mouse_key-All now ev c =
        if_intro ReportedIf (ev.scancode == 0xb7) (λ _. tt)
          (λ _.
            if_intro ReportedIf (ev.scancode == 0xb4) (λ _. tt)
              (λ _.
                if_intro ReportedIf (ev.scancode == 0xb6) (λ _. tt)
                  (λ _.
                    if_intro ReportedIf (ev.scancode == 0xb5) (λ _. tt)
                      (λ _.
                        if_intro ReportedIf (ev.scancode == b']')
                          (λ _. (p.left (is_pressed ev), tt))
                          (λ _.
                            if_intro ReportedIf (ev.scancode == b'[')
                              (λ _. (p.right (is_pressed ev), tt)) (λ _. tt))))))

    post_key-All : (now : ℕ) (ev : Item) (c : Ctx) → All P (post_key keycodes now ev c).1
    unfolding post_key
    post_key-All now ev c =
        if_intro Reported (keycodes ev.scancode % 256 == 0) (λ _. (p.scan ev.scancode, tt))
          (λ z.
            if_intro Reported (keycodes ev.scancode % 256 == key_unknown)
              (λ _. (p.scan ev.scancode, tt))
              (λ u.
                if_intro Reported (ev.state == 2) (λ _. (p.scan ev.scancode, tt))
                  (λ _. (
                    p.scan ev.scancode,
                    (p.mapped ev.scancode (is_pressed ev) (ground arith) (ground arith), tt),
                  ))))

    event-All : (now : ℕ) (ev : Item) (c : Ctx) → All P (key_report_event keycodes now ev c).1
    unfolding key_report_event
    event-All now ev c =
        if_intro Reported (not (is_handled ev)) (λ _. tt)
          (λ _.
            if_intro Reported (ev.scancode == 0xA3) (λ _. tt)
              (λ _.
                if_intro Reported c.mouse_mode
                  (λ _.
                    mouse_or_key (mouse_key now ev c) (post_key keycodes now ev c)
                      (mouse_key-All now ev c) (post_key-All now ev c))
                  (λ _. post_key-All now ev c)))

    pub report_all-All :
        (clock : ℕ → ℕ) (i : ℕ) (evs : List Item) (c : Ctx)
        → All P (report_all keycodes clock i evs c).1
    unfolding report_all
    report_all-All clock i [] c = tt
    report_all-All clock i (ev ∷ evs) c =
        All-append P (key_report_event keycodes (clock i) ev c).1 _ (event-All (clock i) ev c)
          (report_all-All clock (i + 1) evs (key_report_event keycodes (clock i) ev c).0)
