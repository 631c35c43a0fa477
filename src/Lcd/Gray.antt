-- ===== src/Lcd/Gray.antt =====
-- `rgb565_to_grayscale` and `rgb565_to_grayscale_byweight` of picocalc_lcd/ili9488_fb.c.
use meta_picocalc.Prelude.{ℕ, ◌+◌, ◌*◌, ◌/◌, ◌%◌, ◌^◌, ◌≤◌, ◌<◌, ◌≡◌, arith, sym, ◌∙◌}

-- RED, GREEN and BLUE: a channel, expanded to eight bits
abbrev pub red : ℕ → ℕ
red v = v / 2048 % 32 * 8

abbrev pub green : ℕ → ℕ
green v = v / 32 % 64 * 4

abbrev pub blue : ℕ → ℕ
blue v = v % 32 * 8

-- The fields of the `or` do not overlap where it is used.
unfoldable pub to_rgb565 : ℕ → ℕ → ℕ → ℕ
to_rgb565 r g b = r * 2048 + g * 32 + b

-- on a little-endian machine
unfoldable pub cpu_to_be16 : ℕ → ℕ
cpu_to_be16 v = v % 256 * 256 + v / 256 % 256

-- the end of both functions: `gray` in the three channels
unfoldable pub shade : ℕ → ℕ
unfolding to_rgb565 cpu_to_be16
shade gray = cpu_to_be16 (to_rgb565 (gray * 31 / 255) (gray * 63 / 255) (gray * 31 / 255))

unfoldable pub rgb565_to_grayscale : ℕ → ℕ
unfolding shade
rgb565_to_grayscale v = shade ((red v + green v + blue v) / 3)

unfoldable pub rgb565_to_grayscale_byweight : ℕ → ℕ
unfolding shade
rgb565_to_grayscale_byweight v = shade ((red v * 77 + green v * 151 + blue v * 28) / 256)

swap_twice : (v : ℕ) → v < 2 ^ 16 → cpu_to_be16 (cpu_to_be16 v) ≡ v
unfolding cpu_to_be16
swap_twice v h = omega arith

-- the channels are where they belong
fields :
    (r g b : ℕ)
    → r < 32
    → g < 64
    → b < 32
    → (red (to_rgb565 r g b) ≡ r * 8)
      × (green (to_rgb565 r g b) ≡ g * 4)
      × (blue (to_rgb565 r g b) ≡ b * 8)
      × to_rgb565 r g b < 2 ^ 16
unfolding to_rgb565
fields r g b h k l = (omega arith, omega arith, omega arith, omega arith)

-- what the panel gets for a shade, as a pixel of the machine
abbrev pub shown : ℕ → ℕ
shown gray = cpu_to_be16 (shade gray)

shown_lem :
    (x : ℕ)
    → x < 256
    → (red (shown x) ≡ x * 31 / 255 * 8)
      × (green (shown x) ≡ x * 63 / 255 * 4)
      × (blue (shown x) ≡ x * 31 / 255 * 8)
unfolding shade
shown_lem x h =
    let r : x * 31 / 255 < 32 = omega arith in
    let g : x * 63 / 255 < 64 = omega arith in
    let (a, b, c, d) = fields (x * 31 / 255) (x * 63 / 255) (x * 31 / 255) r g r in
    rw (swap_twice (to_rgb565 (x * 31 / 255) (x * 63 / 255) (x * 31 / 255)) d) (a, b, c)

-- The shades `a` and `b` are grey, and `b` is at least as bright as `a`.
pub record IsGreyBelow (a b : ℕ) : Type 0 where
  pub no_hue : blue a ≡ red a
  pub green_from : red a ≤ green a
  pub green_to : green a ≤ red a + 8
  pub red_order : red a ≤ red b
  pub green_order : green a ≤ green b

shown_order : (x y : ℕ) → x ≤ y → y < 256 → IsGreyBelow (shown x) (shown y)
shown_order x y h k =
    let (a, b, c) = shown_lem x (omega arith) in
    let (d, e, f) = shown_lem y k in
    record {
      no_hue = c ∙ sym a;
      green_from = omega (arith, a, b);
      green_to = omega (arith, a, b);
      red_order = omega (arith, a, d);
      green_order = omega (arith, b, e);
    }

-- Both grayscale functions make every pixel grey, up to the finer step of green, and none darker
-- than a pixel whose channels are at most its own.
pub grayscale_lem :
    (v w : ℕ)
    → red v ≤ red w
    → green v ≤ green w
    → blue v ≤ blue w
    → IsGreyBelow (cpu_to_be16 (rgb565_to_grayscale v)) (cpu_to_be16 (rgb565_to_grayscale w))
      × IsGreyBelow
          (cpu_to_be16 (rgb565_to_grayscale_byweight v))
          (cpu_to_be16 (rgb565_to_grayscale_byweight w))
unfolding rgb565_to_grayscale rgb565_to_grayscale_byweight
grayscale_lem v w r g b = (
  shown_order ((red v + green v + blue v) / 3) ((red w + green w + blue w) / 3) (omega arith)
      (omega arith),
  shown_order ((red v * 77 + green v * 151 + blue v * 28) / 256)
      ((red w * 77 + green w * 151 + blue w * 28) / 256) (omega arith) (omega arith),
)
