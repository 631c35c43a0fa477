-- ===== src/Lcd/Update.antt =====
-- `update_display` of
-- meta-picocalc-bsp-rockchip/recipes-kernel/linux/files/picocalc/picocalc_lcd/ili9488_fb.c:
-- the line range to the address window and the pixels of those lines, in each of the three modes.
use meta_picocalc.Prelude.{
  Bool, true, false, ltb, if◌then◌else◌, ℕ, ◌+◌, ◌-◌, ◌*◌, ◌/◌, ◌%◌, ◌^◌, ◌≤◌, ◌<◌, ◌≡◌, refl,
  arith, ap, ◌∙◌, List, [], ◌∷◌, ◌++◌, window, Option, some,
}
use mathlib.Core.Option
use meta_picocalc.Lcd.Panel.{Par, Out, gpio, cs, dc, payload}
use meta_picocalc.Lcd.Command.{set_addr_win}
use meta_picocalc.Lcd.Vmem.Batch.{big_endian}
use meta_picocalc.Lcd.Vmem.Stream.{write_vmem, write_vmem_streams, IsBuffered, refilled}
use meta_picocalc.Lcd.Dither.Colour.{Rgb}
use meta_picocalc.Lcd.Dither.Pack.{pairs, q_dither, q_plain}
use meta_picocalc.Lcd.Dither.Stream.{
  write_vmem_3bit, write_vmem_3bit_dither, write_3bit, write_3bit_streams,
}
use meta_picocalc.Prelude.{ap₂, length}

-- `n - 1` on an `unsigned int`
abbrev pub dec : ℕ → ℕ
dec n = (n + (2 ^ 32 - 1)) % 2 ^ 32

-- the two guards on the line range
unfoldable pub clamp : ℕ → ℕ → ℕ → ℕ × ℕ
clamp yres start end =
    let (s, e) = if ltb end start then (0, dec yres) else (start, end) in
    if ltb (dec yres) s then (0, dec yres) else if ltb (dec yres) e then (0, dec yres) else (s, e)

-- the choice among the three writes
unfoldable pub write_mode : Par → ℕ → ℕ → Option (Par × List Out)
write_mode par offset len =
    if par.p_3bit_mode
    then (if par.p_dither
        then write_vmem_3bit_dither par offset len
        else write_vmem_3bit par offset len)
    else write_vmem par offset len

unfoldable pub update_display : Par → ℕ → ℕ → Option (Par × List Out)
update_display par start end =
    let (s, e) = clamp par.yres start end in
    let offset = s * par.line_length % 2 ^ 32 in
    let len = (e + (2 ^ 32 - s) + 1) % 2 ^ 32 * par.line_length % 2 ^ 32 in
    Option.map
      (λ r. (r.0, gpio cs 0 ∷ (set_addr_win 0 s (dec par.xres) e ++ (r.1 ++ (gpio cs 1 ∷ [])))))
      (write_mode par offset len)

-- the display as the probe sets it up, in every mode
pub record IsReady (par : Par) : Type 0 where
  pub width : par.xres ≡ 320
  pub height : par.yres ≡ 320
  pub line : par.line_length ≡ 640
  pub buffered : IsBuffered par
  pub size : par.txbuf_len ≡ 307200

-- the bytes of `n` lines from line `s` on, in the mode of the panel
abbrev pub picture : Par → ℕ → ℕ → List ℕ
picture par s n =
    if par.p_3bit_mode
    then (if par.p_dither
        then pairs (q_dither par.xres) par.vmem (n * 160) (s * 640) (s * 320)
        else pairs q_plain par.vmem (n * 160) (s * 640) (s * 320))
    else big_endian (window 0 par.vmem (n * 320) (s * 320))

-- Whatever the arguments, the range that is refreshed is one of the display, and a range of the
-- display is kept as it is. No line of the display that the arguments span is left out.
pub clamp_lem :
    (start end : ℕ)
    → let r = clamp 320 start end in
      (r.0 ≤ r.1)
      × r.1 < 320
      × (start ≤ end → end < 320 → r ≡ (start, end))
      × ((l : ℕ) → start ≤ l → l ≤ end → l < 320 → (r.0 ≤ l) × (l ≤ r.1))
unfolding clamp
clamp_lem start end = (ground arith, ground arith, λ h k. ground arith, λ l a b c. ground arith)

IsReady-refilled :
    (par : Par) (buf : List ℕ)
    → IsReady par
    → length buf ≡ par.txbuf_len
    → IsReady (refilled par buf)
IsReady-refilled par buf h e = record {
  width = h.width;
  height = h.height;
  line = h.line;
  size = h.size;
  buffered = record { buf = buf; there = refl; size = e; room = h.buffered.room };
}

module _ (par : Par) (s n : ℕ) (h : IsReady par) where
  size_even : par.txbuf_len / 3 % 2 ≡ 0
  size_even = rw (h.size) refl

  abbrev Streams : List ℕ → Option (Par × List Out) → Type 0
  Streams bytes r =
      (buf : List ℕ) × (outs : List Out) × (r ≡ some (refilled par buf, gpio dc 1 ∷ outs))
      × (payload outs ≡ bytes)
      × (length buf ≡ par.txbuf_len)

  packed :
      (q : ℕ → ℕ → Rgb)
      → Streams
          (pairs q par.vmem (n * 160) (s * 640) (s * 320))
          (write_3bit q par (s * 640) (n * 640))
  packed q =
      let (buf, outs, e, sent, l) =
        write_3bit_streams q par (s * 640) (n * 640) h.buffered size_even (omega arith)
          (omega arith) in
      let a : n * 640 / 4 ≡ n * 160 = omega arith in
      let b : s * 640 / 2 ≡ s * 320 = omega arith in
      (buf, outs, e, sent ∙ ap₂ (λ x y. pairs q par.vmem x (s * 640) y) a b, l)

  whole :
      Streams
        (big_endian (window 0 par.vmem (n * 320) (s * 320)))
        (write_vmem par (s * 640) (n * 640))
  whole =
      let (buf, outs, e, sent, l) = write_vmem_streams par (s * 640) (n * 640) h.buffered in
      let a : n * 640 / 2 ≡ n * 320 = omega arith in
      let b : s * 640 / 2 ≡ s * 320 = omega arith in
      (buf, outs, e, sent ∙ ap₂ (λ x y. big_endian (window 0 par.vmem x y)) a b, l)

  choose :
      (b : Bool) {x y : List ℕ} {u v : Option (Par × List Out)}
      → Streams x u
      → Streams y v
      → Streams (if b then x else y) (if b then u else v)
  choose true k l = k
  choose false k l = l

  write_mode_lem : Streams (picture par s n) (write_mode par (s * 640) (n * 640))
  unfolding write_mode
  write_mode_lem =
      choose par.p_3bit_mode (choose par.p_dither (packed (q_dither par.xres)) (packed q_plain))
        whole

offset_lem : (s : ℕ) → s < 320 → s * 640 % 2 ^ 32 ≡ s * 640
offset_lem s h = omega arith

len_lem :
    (s e : ℕ) → s ≤ e → e < 320 → (e + (2 ^ 32 - s) + 1) % 2 ^ 32 * 640 % 2 ^ 32 ≡ (e - s + 1) * 640
len_lem s e h k = omega arith

-- On the display as the probe sets it up, an update ends, whatever line range it is given. It
-- refreshes a range of lines of the display: that range if it is one, and in any case every line of
-- the display that the arguments span. The chip select is low around it, the address window is
-- those lines, full width, and the bytes that follow it are exactly those lines in the mode of the
-- panel. The driver's state keeps its memory, and the display stays set up.
pub update_display_lem :
    (par : Par) (start end : ℕ)
    → IsReady par
    → (s : ℕ) × (e : ℕ) × (buf : List ℕ) × (outs : List Out) × (update_display par start end
        ≡ some (
          refilled par buf,
          gpio cs 0 ∷ (set_addr_win 0 s 319 e ++ (gpio dc 1 ∷ (outs ++ (gpio cs 1 ∷ [])))),
        ))
      × (payload outs ≡ picture par s (e - s + 1))
      × IsReady (refilled par buf)
      × (s ≤ e)
      × e < 320
      × (start ≤ end → end < 320 → (s ≡ start) × (e ≡ end))
      × ((l : ℕ) → start ≤ l → l ≤ end → l < 320 → (s ≤ l) × (l ≤ e))
unfolding update_display
update_display_lem par start end h =
    let c = clamp 320 start end in
    let (le, lt, keep, all) = clamp_lem start end in
    let (buf, outs, e, sent, l) = write_mode_lem par c.0 (c.1 - c.0 + 1) h in
    let o : c.0 * 640 % 2 ^ 32 ≡ c.0 * 640 = offset_lem c.0 (omega (arith, le, lt)) in
    let n : (c.1 + (2 ^ 32 - c.0) + 1) % 2 ^ 32 * 640 % 2 ^ 32 ≡ (c.1 - c.0 + 1) * 640 =
      len_lem c.0 c.1 le lt in
    (
      c.0,
      c.1,
      buf,
      outs,
      simp (h.height, h.width, h.line, o, n, e) refl,
      sent,
      IsReady-refilled par buf h l,
      le,
      lt,
      λ a b. (ap (λ t. t.0) (keep a b), ap (λ t. t.1) (keep a b)),
      all,
    )
