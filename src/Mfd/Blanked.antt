-- ===== src/Mfd/Blanked.antt =====
-- What becomes of the screen's light while it is blanked.
use meta_picocalc.Prelude.{
  ℕ, ◌%◌, ◌≡◌, refl, ap, ◌∙◌, true, List, [], ◌∷◌, ◌++◌, All, not, ◌==◌, ◌||◌, ltb, arith,
}
use meta_picocalc.Regmap.{Regmap}
use meta_picocalc.Mfd.Led.{blank_event, other_event}
use meta_picocalc.Mfd.Lights.{
  Op, AreApart, set_brightness, blanking, ask, led_set, led_ask, led_event, screen_button,
  key_button, Lights, does, does_all, System, IsLights, runs_all, view, lights_refine,
}

-- `fb_blank` and `state` say that the screen is blank
abbrev pub IsDark : ℕ → ℕ → Type 0
IsDark fb_blank state = (not (fb_blank == 0) || ltb 0 (state % 4)) ≡ true

-- calls of the keyboard light's driver and its button
abbrev pub IsKeys : Op → Type 0
IsKeys (led_set v) = Unit {0}
IsKeys led_ask = Unit
IsKeys (led_event e) = Unit
IsKeys (key_button v) = Unit
IsKeys _ = ⊥

-- what the backlight core may call while the screen stays blank
abbrev pub IsDarkCall : Op → Type 0
IsDarkCall (set_brightness v) = Unit {0}
IsDarkCall ask = Unit
IsDarkCall (blanking fb_blank state) = IsDark fb_blank state
IsDarkCall _ = ⊥

record SameScreen (l l' : Lights) : Type 0 where
  screen : l'.screen ≡ l.screen
  kept : l'.kept ≡ l.kept
  dark : l'.dark ≡ l.dark

keys_keep : (op : Op) (l : Lights) → IsKeys op → SameScreen l (does op l)
keys_keep (led_set v) l k = record { screen = refl; kept = refl; dark = refl }
keys_keep led_ask l k = record { screen = refl; kept = refl; dark = refl }
keys_keep (led_event other_event) l k = record { screen = refl; kept = refl; dark = refl }
keys_keep (led_event (blank_event b)) l k = ground arith
keys_keep (key_button v) l k = record { screen = refl; kept = refl; dark = refl }
keys_keep (set_brightness v) l k = elim k [ ]
keys_keep (blanking fb_blank state) l k = elim k [ ]
keys_keep ask l k = elim k [ ]
keys_keep (screen_button v) l k = elim k [ ]

every_ask_keeps : (ops : List Op) (l : Lights) → All IsKeys ops → SameScreen l (does_all ops l)
every_ask_keeps [] l k = record { screen = refl; kept = refl; dark = refl }
every_ask_keeps (op ∷ ops) l (k, ks) =
    let a = keys_keep op l k in
    let b = every_ask_keeps ops (does op l) ks in
    record { screen = b.screen ∙ a.screen; kept = b.kept ∙ a.kept; dark = b.dark ∙ a.dark }

does_all-append :
    (xs ys : List Op) (l : Lights) → does_all (xs ++ ys) l ≡ does_all ys (does_all xs l)
does_all-append [] ys l = refl
does_all-append (x ∷ xs) ys l = does_all-append xs ys (does x l)

-- a screen that is out
record IsOut (level : ℕ) (l : Lights) : Type 0 where
  screen : l.screen ≡ 0
  kept : l.kept ≡ level
  dark : l.dark ≡ true

blanking-IsOut :
    (fb_blank state : ℕ) (l : Lights)
    → IsDark fb_blank state
    → IsOut l.screen (does (blanking fb_blank state) l)
blanking-IsOut fb_blank state l h = rw h (record { screen = refl; kept = refl; dark = refl })

called_dark :
    (op : Op) (level : ℕ) (l : Lights) → IsDarkCall op → IsOut level l → (does op l).kept ≡ 0
called_dark (set_brightness v) level l h o = rw (o.dark) (o.screen)
called_dark ask level l h o = o.screen
called_dark (blanking fb_blank state) level l h o = rw h (o.screen)
called_dark (led_set v) level l h o = elim h [ ]
called_dark led_ask level l h o = elim h [ ]
called_dark (led_event e) level l h o = elim h [ ]
called_dark (screen_button v) level l h o = elim h [ ]
called_dark (key_button v) level l h o = elim h [ ]

module _ (fb_blank state : ℕ) (ops : List Op) (l : Lights) (h : IsDark fb_blank state)
    (keys : All IsKeys ops) where
  between : IsOut l.screen (does_all ops (does (blanking fb_blank state) l))
  between =
      let out = blanking-IsOut fb_blank state l h in
      let same = every_ask_keeps ops (does (blanking fb_blank state) l) keys in
      record {
        screen = same.screen ∙ out.screen;
        kept = same.kept ∙ out.kept;
        dark = same.dark ∙ out.dark;
      }

  restored :
      (does_all (blanking fb_blank state ∷ (ops ++ (blanking 0 0 ∷ []))) l).screen ≡ l.screen % 256
  restored =
      ap (λ (x : Lights). x.screen)
        (does_all-append ops (blanking 0 0 ∷ []) (does (blanking fb_blank state) l))
      ∙ ap (λ (n : ℕ). n % 256) between.kept

  lost :
      (op : Op)
      → IsDarkCall op
      → (does_all (blanking fb_blank state ∷ (ops ++ (op ∷ blanking 0 0 ∷ []))) l).screen ≡ 0
  lost op d =
      ap (λ (x : Lights). x.screen)
        (does_all-append ops (op ∷ blanking 0 0 ∷ []) (does (blanking fb_blank state) l))
      ∙ ap (λ (n : ℕ). n % 256) (called_dark op l.screen _ d between)

-- On light registers that work as documented: when the screen is blanked, by either of the two ways
-- that the driver looks at, and then unblanked, its register has the level from before again, cut
-- to a byte, whatever is asked of the keyboard's light and its button in between. But when the
-- backlight core calls the driver once more just before the unblanking, to set a brightness, to ask
-- for it or to blank again, the level is 0 afterwards.
pub blanked_keeps_or_loses :
    (R : Regmap) (level : R.Bus → ℕ → ℕ) (button : ℕ → ℕ → R.Bus → R.Bus)
    (fw : IsLights R level button) (bkl led : ℕ) (regs : AreApart bkl led) (fb_blank state : ℕ)
    (ops : List Op) (op : Op) (s : System R.Bus)
    → IsDark fb_blank state
    → All IsKeys ops
    → IsDarkCall op
    → let after = λ (more : List Op).
      runs_all R level button bkl led (blanking fb_blank state ∷ (ops ++ more)) s in
      (level (after (blanking 0 0 ∷ [])).bus bkl ≡ level s.bus bkl % 256)
      × (level (after (op ∷ blanking 0 0 ∷ [])).bus bkl ≡ 0)
blanked_keeps_or_loses R level button fw bkl led regs fb_blank state ops op s h keys d =
    let l = view R level button bkl led s in
    let by_view = λ (all : List Op).
      ap (λ (x : Lights). x.screen) (lights_refine R level button bkl led fw regs all s) in
    (
      by_view (blanking fb_blank state ∷ (ops ++ (blanking 0 0 ∷ [])))
          ∙ restored fb_blank state ops l h keys,
      by_view (blanking fb_blank state ∷ (ops ++ (op ∷ blanking 0 0 ∷ [])))
          ∙ lost fb_blank state ops l h keys op d,
    )
