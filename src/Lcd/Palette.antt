-- ===== src/Lcd/Palette.antt =====
-- Colours and blanking: `chan_to_field`, `ili9488_fb_setcolreg` and `ili9488_fb_blank` of
-- meta-picocalc-bsp-rockchip/recipes-kernel/linux/files/picocalc/picocalc_lcd/ili9488_fb.c.
use meta_picocalc.Prelude.{
  ℕ, ◌+◌, ◌-◌, ◌*◌, ◌/◌, ◌%◌, ◌^◌, ◌≤◌, ◌<◌, ◌≡◌, refl, arith, true, false, ltb, if◌then◌else◌,
  List, [], Result, ok, err, einval, set,
}
use meta_picocalc.Prelude.Bits.{field, bit_or, bit_or-shifted}
use meta_picocalc.Lcd.Panel.{Out}
use meta_picocalc.Lcd.Command.{blank}
use meta_picocalc.Prelude.{
  length, ap, Bool-cases, inl, get_or, inr, ◌≢◌, ◌∙◌, get_or-set, get_or-set_other,
}

-- `struct fb_bitfield`
pub record Field : Type 0 where
  pub offset : ℕ
  pub len : ℕ

pub data Visual : Type 0 where
  truecolor mono01 other : Visual

-- the parts of `struct fb_info` that the colour register reads and writes
pub record Info : Type 0 where
  pub visual : Visual
  pub red : Field
  pub green : Field
  pub blue : Field
  pub transp : Field
  pub pseudo_palette : List ℕ

unfoldable pub chan_to_field : ℕ → Field → ℕ
chan_to_field chan bf = chan % 2 ^ 16 / 2 ^ (16 - bf.len) * 2 ^ bf.offset % 2 ^ 32

abbrev shifted : ℕ → Field → ℕ
shifted v bf = v * 2 ^ bf.offset % 2 ^ 32

-- The result is the palette after the call and the value that the function returns.
unfoldable pub setcolreg : ℕ → ℕ → ℕ → ℕ → ℕ → Info → Info × ℕ
setcolreg regno red green blue transp info = if ltb 255 regno then (info, 1) else elim info.visual [
  | truecolor ↦
      (if ltb regno 16
        then (
          record info {
            pseudo_palette = set info.pseudo_palette regno (
                bit_or (bit_or (chan_to_field red info.red) (chan_to_field green info.green))
                  (chan_to_field blue info.blue));
          },
          0,
        )
        else (info, 1))
  | mono01 ↦ (
    record info {
      pseudo_palette = set info.pseudo_palette regno (
          bit_or
            (bit_or (bit_or (shifted red info.red) (shifted green info.green))
              (shifted blue info.blue))
            (shifted transp info.transp));
    },
    0,
  )
  | other ↦ (info, 1)
]

-- the values of `FB_BLANK_*`, of which any other is refused
pub data Blank : Type 0 where
  unblank normal vsync_suspend hsync_suspend powerdown unknown : Blank

unfoldable pub fb_blank : Blank → List Out × Result (Unit {0})
fb_blank unblank = (blank false, ok tt)
fb_blank unknown = ([], err einval)
fb_blank _ = (blank true, ok tt)

-- RGB565, as the probe sets the fields
abbrev pub is_rgb565 : Info → Info
is_rgb565 info = record info {
  visual = truecolor;
  red = record { offset = 11; len = 5 };
  green = record { offset = 5; len = 6 };
  blue = record { offset = 0; len = 5 };
}

-- the top five or six bits of each channel, packed
abbrev pub packed : ℕ → ℕ → ℕ → ℕ
packed red green blue = red / 2048 * 2048 + green / 1024 * 32 + blue / 2048

module _ (red green blue : ℕ) (a : red < 2 ^ 16) (b : green < 2 ^ 16) (c : blue < 2 ^ 16) where
  red_field : chan_to_field red (record { offset = 11; len = 5 }) ≡ red / 2048 * 2 ^ 11
  unfolding chan_to_field
  red_field = omega arith

  green_field : chan_to_field green (record { offset = 5; len = 6 }) ≡ green / 1024 * 32
  unfolding chan_to_field
  green_field = omega arith

  blue_field : chan_to_field blue (record { offset = 0; len = 5 }) ≡ blue / 2048
  unfolding chan_to_field
  blue_field = omega arith

  regroup : red / 2048 * 2 ^ 11 + green / 1024 * 32 ≡ (red / 2048 * 64 + green / 1024) * 2 ^ 5
  regroup = omega arith

  entry_lem :
      bit_or (bit_or (red / 2048 * 2 ^ 11) (green / 1024 * 32)) (blue / 2048)
      ≡ packed red green blue
  entry_lem =
      ap (λ t. bit_or t (blue / 2048))
        (bit_or-shifted 11 (red / 2048) (green / 1024 * 32) (omega arith) ∙ regroup)
      ∙ bit_or-shifted 5 (red / 2048 * 64 + green / 1024) (blue / 2048) (omega arith)
      ∙ omega arith

-- On the RGB565 display, for 16-bit channels and one of the 16 registers, `setcolreg` succeeds and
-- stores a colour whose three fields, read back, are the top bits of the three channels. Other
-- registers keep their colour.
pub setcolreg_lem :
    (regno red green blue transp : ℕ) (info : Info)
    → regno < 16
    → red < 2 ^ 16
    → green < 2 ^ 16
    → blue < 2 ^ 16
    → length info.pseudo_palette ≡ 16
    → let r = setcolreg regno red green blue transp (is_rgb565 info) in
      let v = get_or r.0.pseudo_palette regno 0 in
      (r.1 ≡ 0)
      × (field v 11 5 ≡ red / 2048)
      × (field v 5 6 ≡ green / 1024)
      × (field v 0 5 ≡ blue / 2048)
      × ((j : ℕ) → j ≢ regno → get_or r.0.pseudo_palette j 0 ≡ get_or info.pseudo_palette j 0)
unfolding setcolreg
setcolreg_lem regno red green blue transp info h a b c l =
    let p : ltb 255 regno ≡ false = ground arith in
    let q : ltb regno 16 ≡ true = ground arith in
    let v = packed red green blue in
    let e : get_or (set info.pseudo_palette regno v) regno 0 ≡ v =
      get_or-set info.pseudo_palette regno v 0 (omega (arith, l)) in
    rw
      (
        p,
        q,
        red_field red green blue a b c,
        green_field red green blue a b c,
        blue_field red green blue a b c,
        entry_lem red green blue a b c,
        e,
      )
      (
        refl,
        omega arith,
        omega arith,
        omega arith,
        λ j k. get_or-set_other info.pseudo_palette regno j v 0 k,
      )

-- Any other register is refused, with the palette unchanged.
pub setcolreg_refused :
    (regno red green blue transp : ℕ) (info : Info)
    → 16 ≤ regno
    → setcolreg regno red green blue transp (is_rgb565 info) ≡ (is_rgb565 info, 1)
unfolding setcolreg
setcolreg_refused regno red green blue transp info h =
    let q : ltb regno 16 ≡ false = ground arith in
    elim (Bool-cases (ltb 255 regno)) [ inl e ↦ rw e refl | inr e ↦ rw (e, q) refl ]
