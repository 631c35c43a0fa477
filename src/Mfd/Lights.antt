-- ===== src/Mfd/Lights.antt =====
-- The two lights on one register map: the screen's backlight (picocalc_mfd_bkl.c), the keyboard's
-- (picocalc_mfd_led.c) and the buttons of the firmware, which change the same registers.
use meta_picocalc.Prelude.{
  ℕ, zero, suc, ◌%◌, ◌<◌, ◌≡◌, ◌≢◌, refl, ap, sym, ◌∙◌, Bool, true, false, not, ltb, ◌==◌, ◌||◌,
  if◌then◌else◌, List, [], ◌∷◌, ok, Bool-cases, inl, inr, arith,
}
use meta_picocalc.Prelude.Bits.{bit_or}
use meta_picocalc.Regmap.{Regmap}
use meta_picocalc.Mfd.Backlight.{Props, is_blank, update_status, get_brightness, with_blank}
use meta_picocalc.Mfd.Led.{
  nonzero, fb_notifier_lem, Event, led_get_brightness, fb_notifier, brightness_set, blank_event,
  other_event,
}

-- The firmware's documented light registers: a read of two bytes gives a register's level in the
-- second one and changes none; a write with bit 7 set sets the level of that register alone, and so
-- does a button.
pub record IsLights (R : Regmap) (level : R.Bus → ℕ → ℕ) (button : ℕ → ℕ → R.Bus → R.Bus)
    : Type 0 where
  pub reads :
      (bus : R.Bus) (reg : ℕ)
      → (bus' : R.Bus) × (first : ℕ) × (R.bulk_read bus reg ≡ (bus', ok (first, level bus reg)))
        × ((r : ℕ) → level bus' r ≡ level bus r)
  pub writes :
      (bus : R.Bus) (reg v : ℕ)
      → reg < 128
      → (bus' : R.Bus) × (R.write bus (bit_or reg 128) v ≡ (bus', ok tt))
        × (level bus' reg ≡ v % 256)
        × ((r : ℕ) → r ≢ reg → level bus' r ≡ level bus r)
  pub presses :
      (reg v : ℕ) (bus : R.Bus)
      → (level (button reg v bus) reg ≡ v)
        × ((r : ℕ) → r ≢ reg → level (button reg v bus) r ≡ level bus r)

-- two different registers of the seven bits that leave room for the write bit
pub record AreApart (bkl led : ℕ) : Type 0 where
  pub apart : bkl ≢ led
  pub bkl_small : bkl < 128
  pub led_small : led < 128

-- What the backlight core, the LED core and a user do: the core writes a brightness or changes the
-- blanking and has the status updated, or asks for the brightness; the LED core sets or asks for its
-- own, and passes on a frame buffer event; a button sets a light.
pub data Op : Type 0 where
  set_brightness : ℕ → Op
  blanking : ℕ → ℕ → Op
  ask : Op
  led_set : ℕ → Op
  led_ask : Op
  led_event : Event → Op
  screen_button : ℕ → Op
  key_button : ℕ → Op

-- The specification: the levels of the two lights, the brightness that each core keeps, and whether
-- the screen is blanked.
pub record Lights : Type 0 where
  pub screen : ℕ
  pub kept : ℕ
  pub dark : Bool
  pub keys : ℕ
  pub keys_kept : ℕ

-- The LED core keeps a brightness that it is asked to set, at most `max_brightness`, before it calls the
-- driver; the driver leaves `max_brightness` to the core, which takes 255.
unfoldable pub clamped : ℕ → ℕ
clamped v = if ltb 255 v then 255 else v

clamped-byte : (v : ℕ) → clamped v % 256 ≡ clamped v
unfolding clamped
clamped-byte v = ground arith

-- an update of the screen's light: a dark one is read and put out, another one is lit as kept
abbrev updated : Lights → Lights
updated l =
    if l.dark then record l { kept = l.screen; screen = 0 } else record l { screen = l.kept % 256 }

abbrev pub does : Op → Lights → Lights
does (set_brightness v) l = updated (record l { kept = v })
does (blanking fb_blank state) l =
    updated (record l { dark = not (fb_blank == 0) || ltb 0 (state % 4) })
does ask l = record l { kept = l.screen }
does (led_set v) l = record l { keys = clamped v; keys_kept = clamped v }
does led_ask l = record l { keys_kept = l.keys }
does (led_event other_event) l = l
does (led_event (blank_event b)) l = if b == 0 then l else record l { keys_kept = l.keys }
does (screen_button v) l = record l { screen = v }
does (key_button v) l = record l { keys = v }

abbrev pub does_all : List Op → Lights → Lights
does_all [] l = l
does_all (op ∷ ops) l = does_all ops (does op l)

-- the drivers: the backlight's properties, the LED's copy of its brightness, the bus
pub record System (Bus : Type 0) : Type 0 where
  pub props : Props
  pub copy : ℕ
  pub bus : Bus

module _ (R : Regmap) (level : R.Bus → ℕ → ℕ) (button : ℕ → ℕ → R.Bus → R.Bus) (bkl led : ℕ) where
  abbrev placed : System R.Bus → Props × R.Bus → System R.Bus
  placed s (props, bus) = record s { props = props; bus = bus }

  abbrev relit : System R.Bus → Props → System R.Bus
  relit s p = placed s (update_status R bkl p s.bus).0

  abbrev recopied : System R.Bus → ℕ × R.Bus → System R.Bus
  recopied s (copy, bus) = record s { copy = copy; bus = bus }

  -- one call of the drivers, or one button
  abbrev pub runs : Op → System R.Bus → System R.Bus
  runs (set_brightness v) s = relit s (record s.props { brightness = v })
  runs (blanking fb_blank state) s = relit s (with_blank fb_blank state s.props)
  runs ask s = placed s (get_brightness R bkl s.props s.bus).0
  runs (led_set v) s = record s { copy = clamped v; bus = brightness_set R led (clamped v) s.bus }
  runs led_ask s = recopied s (led_get_brightness R led s.copy s.bus).0
  runs (led_event e) s = recopied s (fb_notifier R led e s.copy s.bus)
  runs (screen_button v) s = record s { bus = button bkl v s.bus }
  runs (key_button v) s = record s { bus = button led v s.bus }

  abbrev pub runs_all : List Op → System R.Bus → System R.Bus
  runs_all [] s = s
  runs_all (op ∷ ops) s = runs_all ops (runs op s)

  abbrev pub view : System R.Bus → Lights
  view s = record {
    screen = level s.bus bkl;
    kept = s.props.brightness;
    dark = is_blank s.props;
    keys = level s.bus led;
    keys_kept = s.copy;
  }

  module _ (fw : IsLights R level button) (regs : AreApart bkl led) where
    goes_dark :
        (p : Props) (bus : R.Bus)
        → is_blank p ≡ true
        → (bus' : R.Bus) × (update_status R bkl p bus
            ≡ ((record p { brightness = level bus bkl }, bus'), ok tt))
          × (level bus' bkl ≡ 0)
          × (level bus' led ≡ level bus led)
    unfolding update_status
    goes_dark p bus h =
        let (read, first, e, same) = fw.reads bus bkl in
        let (wrote, w, at, others) = fw.writes read bkl 0 regs.bkl_small in
        (wrote, rw (h, e, w) refl, at, others led (λ q. regs.apart (sym q)) ∙ same led)

    lights_up :
        (p : Props) (bus : R.Bus)
        → is_blank p ≡ false
        → (bus' : R.Bus) × (update_status R bkl p bus ≡ ((p, bus'), ok tt))
          × (level bus' bkl ≡ p.brightness % 256)
          × (level bus' led ≡ level bus led)
    unfolding update_status
    lights_up p bus h =
        let (wrote, w, at, others) = fw.writes bus bkl p.brightness regs.bkl_small in
        (wrote, rw (h, w) refl, at, others led (λ q. regs.apart (sym q)))

    updates :
        (s : System R.Bus) (p : Props) → view (relit s p) ≡ updated (view (record s { props = p }))
    updates s p = elim (Bool-cases (is_blank p)) [
      | inl h ↦
          let (bus, e, at, other) = goes_dark p s.bus h in
          ap (λ r. view (placed s r.0)) e ∙ rw (at, other, h) refl
      | inr h ↦
          let (bus, e, at, other) = lights_up p s.bus h in
          ap (λ r. view (placed s r.0)) e ∙ rw (at, other, h) refl
    ]

    asked :
        (p : Props) (bus : R.Bus)
        → (bus' : R.Bus) × ((get_brightness R bkl p bus).0
            ≡ (record p { brightness = level bus bkl }, bus'))
          × ((r : ℕ) → level bus' r ≡ level bus r)
    unfolding get_brightness
    asked p bus = let (read, first, e, same) = fw.reads bus bkl in (read, rw e refl, same)

    led_asked :
        (copy : ℕ) (bus : R.Bus)
        → (bus' : R.Bus) × ((led_get_brightness R led copy bus).0 ≡ (level bus led, bus'))
          × ((r : ℕ) → level bus' r ≡ level bus r)
    unfolding led_get_brightness
    led_asked copy bus = let (read, first, e, same) = fw.reads bus led in (read, rw e refl, same)

    led_written :
        (v : ℕ) (bus : R.Bus)
        → (level (brightness_set R led v bus) led ≡ v % 256)
          × (level (brightness_set R led v bus) bkl ≡ level bus bkl)
    unfolding brightness_set
    led_written v bus =
        let (wrote, w, at, others) = fw.writes bus led v regs.led_small in
        rw (w, brightness_set) (at, others bkl regs.apart)

    led_events :
        (e : Event) (s : System R.Bus) → view (runs (led_event e) s) ≡ does (led_event e) (view s)
    unfolding fb_notifier
    led_events other_event s = refl
    led_events (blank_event zero) s = refl
    led_events (blank_event (suc b)) s =
        let (bus, e, same) = led_asked s.copy s.bus in
        ap (λ r. view (recopied s r)) ((fb_notifier_lem R led b s.copy s.bus).0 ∙ e)
        ∙ rw (same bkl, same led, nonzero b) refl

    step_lem : (op : Op) (s : System R.Bus) → view (runs op s) ≡ does op (view s)
    step_lem (set_brightness v) s = updates s (record s.props { brightness = v })
    step_lem (blanking fb_blank state) s = updates s (with_blank fb_blank state s.props)
    step_lem ask s =
        let (bus, e, same) = asked s.props s.bus in
        ap (λ r. view (placed s r)) e ∙ rw (same bkl, same led) refl
    step_lem (led_set v) s =
        let (at, other) = led_written (clamped v) s.bus in
        let whole = at ∙ clamped-byte v in rw (whole, other) refl
    step_lem led_ask s =
        let (bus, e, same) = led_asked s.copy s.bus in
        ap (λ r. view (recopied s r)) e ∙ rw (same bkl, same led) refl
    step_lem (led_event e) s = led_events e s
    step_lem (screen_button v) s =
        let (set, keeps) = fw.presses bkl v s.bus in
        rw (set, keeps led (λ h. regs.apart (sym h))) refl
    step_lem (key_button v) s =
        let (set, keeps) = fw.presses led v s.bus in rw (set, keeps bkl regs.apart) refl

    -- On light registers that work as documented, two different ones for the two drivers: whatever
    -- the cores ask of the two drivers and whichever buttons are pressed, in any order, the levels of
    -- the lights and the brightness that each core keeps are those of the specification. The drivers
    -- of the two lights do not disturb each other.
    pub lights_refine :
        (ops : List Op) (s : System R.Bus) → view (runs_all ops s) ≡ does_all ops (view s)
    lights_refine [] s = refl
    lights_refine (op ∷ ops) s = lights_refine ops (runs op s) ∙ ap (does_all ops) (step_lem op s)
