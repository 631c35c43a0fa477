-- ===== src/Lcd/Probe/Defs.antt =====
-- `ili9488_probe` and `ili9488_remove` with what they call, and `struct ili9488_display`.
use meta_picocalc.Prelude.{
  ℕ, ◌*◌, ◌/◌, Bool, true, false, ◌==◌, ◌||◌, if◌then◌else◌, List, [], ◌++◌, replicate, Option,
  none, some, Result, ok, err, enomem,
}
use meta_picocalc.Kernel.{M, ◌>>=◌, ◌>>◌, change, ask, ask_pointer, is_ok}
use meta_picocalc.Gpio.{Wiring, Line, request_one_gpio}
use meta_picocalc.Lcd.Panel.{Par, Out}
use meta_picocalc.Lcd.Command.{init_display}
use meta_picocalc.Lcd.Update.{dec, update_display}
use meta_picocalc.Lcd.Palette.{Info, Field, truecolor}

pub record Display : Type 0 where
  pub xres : ℕ
  pub yres : ℕ
  pub rotate : ℕ
  pub bpp : ℕ
  pub fps : ℕ

-- the two displays; neither names `rotate`
abbrev pub display : Display
display = record { xres = 320; yres = 320; rotate = 0; bpp = 16; fps = 30 }

abbrev pub display_3bit : Display
display_3bit = record { xres = 320; yres = 320; rotate = 0; bpp = 16; fps = 60 }

-- The width and the height.
unfoldable pub extent : Display → ℕ × ℕ
extent d = if d.rotate == 90 || d.rotate == 270 then (d.yres, d.xres) else (d.xres, d.yres)

-- What the kernel answers; `hz` is its HZ.
pub record FbCore : Type 0 where
  pub hz : ℕ
  pub vzalloc : Bool
  pub fb_ops : Bool
  pub fb_defio : Bool
  pub framebuffer_alloc : Bool
  pub buf : Bool
  pub txbuf : Bool
  pub rst : Wiring
  pub dc : Wiring
  pub cs : Wiring
  pub register_framebuffer : Result (Unit {0})

-- What the driver holds: the memory of the screen (allocated or not), the frame buffer's description,
-- the deferred work's delay once that is initialised, the pins, and what the driver data leads to.
-- `hung` tells that an update did not end, `fault` that the null pointer was used.
pub record Bound : Type 0 where
  pub vmem : Bool
  pub info : Option Info
  pub delay : Option ℕ
  pub rst : Option Line
  pub dc : Option Line
  pub cs : Option Line
  pub drvdata : Option Par
  pub outs : List Out
  pub registered : Bool
  pub unblanked : Bool
  pub hung : Bool
  pub fault : Bool

abbrev pub unbound : Bound
unbound = record {
  vmem = false;
  info = none;
  delay = none;
  rst = none;
  dc = none;
  cs = none;
  drvdata = none;
  outs = [];
  registered = false;
  unblanked = false;
  hung = false;
  fault = false;
}

abbrev field : ℕ → ℕ → Field
field o l = record { offset = o; len = l }

-- the description for a depth of 16 bits, the depth of both displays; the palette is zeroed memory
abbrev pub info_565 : Info
info_565 = record {
  visual = truecolor;
  red = field 11 5;
  green = field 5 6;
  blue = field 0 5;
  transp = field 0 0;
  pseudo_palette = replicate 16 0;
}

-- the device structure before the pins: zeroed memory but for what the probe sets, and the two module
-- parameters, which the code reads anew at each use, as they are during the probe
abbrev pub par_of : Display → Bool → Bool → Par
par_of d three dither =
    let (width, height) = extent d in
    record {
      vmem = replicate (width * height * d.bpp / 8 / 2) 0;
      txbuf = some (replicate (width * height * 3) 0);
      txbuf_len = width * height * 3;
      xres = width;
      yres = height;
      line_length = width * d.bpp / 8;
      p_3bit_mode = three;
      p_dither = dither;
      dirty_lines_start = 0;
      dirty_lines_end = 0;
    }

-- `ili9488_request_one_gpio`
abbrev pub request_pin : Wiring → Result (Option Line)
request_pin w = request_one_gpio w

unfoldable pub request_gpios : FbCore → M Bound (Unit {0})
request_gpios k = do
  rst ← ask (request_pin k.rst)
  change (λ b. record b { rst = rst })
  dc ← ask (request_pin k.dc)
  change (λ b. record b { dc = dc })
  cs ← ask (request_pin k.cs)
  change (λ b. record b { cs = cs })

unfoldable pub of_config : FbCore → M Bound (Unit {0})
unfolding request_gpios
of_config k = request_gpios k

unfoldable pub hw_init : Bool → Bound → Bound
hw_init three b = record b { outs = b.outs ++ init_display three }

abbrev pub shown : Bound → Option (Par × List Out) → Bound
shown b (some (par, o)) = record b { drvdata = some par; outs = b.outs ++ o }
shown b none = record b { hung = true }

-- `update_display(par, 0, yres - 1)`
unfoldable pub first_update : Par → Bound → Bound
first_update par b = shown b (update_display par 0 (dec par.yres))

-- `goto alloc_fail` is the error 0, which is the value that is returned there.
abbrev pub alloc_fail : ℕ
alloc_fail = 0

abbrev settle : Bound × Result (Unit {0}) → Bound × Result (Unit {0})
settle (b, ok _) = (b, ok tt)
settle (b, err e) = if e == alloc_fail then (record b { vmem = false }, ok tt) else (b, err e)

-- The results of `of_config` and `hw_init` are not looked at.
unfoldable pub probe_display : Display → Bool → Bool → FbCore → M Bound (Unit {0})
probe_display d three dither k =
    let par = par_of d three dither in
    do
      ask_pointer k.vzalloc alloc_fail
      change (λ b. record b { vmem = true })
      ask_pointer k.fb_ops alloc_fail
      ask_pointer k.fb_defio alloc_fail
      ask_pointer k.framebuffer_alloc enomem
      change (λ b. record b { info = some info_565; delay = some (k.hz / d.fps) })
      ask_pointer k.buf enomem
      ask_pointer k.txbuf enomem
      change (λ b. record b { drvdata = some par })
      change (λ b. first_update par (hw_init three (of_config k b).0))
      ask_pointer (is_ok k.register_framebuffer) alloc_fail
      change (λ b. record b { registered = true; unblanked = true })

-- `ili9488_probe`, with the module's parameters
unfoldable pub probe : Bool → Bool → FbCore → Bound → Bound × Result (Unit {0})
unfolding probe_display
probe three dither k b =
    settle (probe_display (if three then display_3bit else display) three dither k b)

-- `ili9488_remove`: the clean-up of the deferred work, the unregistering and the release of the
-- description; the memory of the screen is left.
unfoldable pub remove : Bound → Bound
remove b = elim b.drvdata [
  | none ↦ record b { fault = true }
  | some par ↦ record b { delay = none; registered = false; info = none; drvdata = none }
]
