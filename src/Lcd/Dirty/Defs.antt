-- ===== src/Lcd/Dirty/Defs.antt =====
-- `ili9488_mkdirty`, `ili9488_deferred_io`, the drawing operations and `ili9488_fb_write`.
use meta_picocalc.Prelude.{
  ℕ, ◌+◌, ◌-◌, ◌/◌, ◌%◌, ◌^◌, Bool, true, false, ltb, ◌==◌, if◌then◌else◌, List, [], ◌∷◌, Option,
  Result,
}
use mathlib.Core.Option
use meta_picocalc.Lcd.Panel.{Par, Out}
use meta_picocalc.Lcd.Update.{dec, update_display}

-- The driver with `info->deferred_work`: whether the work is scheduled.
pub record Fb : Type 0 where
  pub par : Par
  pub deferred_work : Bool

-- `-1` as the bits of an `int`
abbrev pub minus_one : ℕ
minus_one = 2 ^ 32 - 1

-- `y` and `height` are the bits of two `int`s. The comparisons are unsigned: a dirty line is an
-- `unsigned int`.
unfoldable pub mkdirty : ℕ → ℕ → Fb → Fb
mkdirty y height fb =
    let par = fb.par in
    let (y, height) = if y == minus_one then (0, par.yres) else (y, height) in
    let last = (y + height + minus_one) % 2 ^ 32 in
    record {
      par = record par {
        dirty_lines_start = if ltb y par.dirty_lines_start then y else par.dirty_lines_start;
        dirty_lines_end = if ltb par.dirty_lines_end last then last else par.dirty_lines_end;
      };
      deferred_work = true;
    }

-- one page of the list, at byte `offset`, of PAGE_SIZE 4096
unfoldable pub merge_page : Par → ℕ → ℕ × ℕ → ℕ × ℕ
merge_page par offset dirty =
    let y_low = offset / par.line_length % 2 ^ 32 in
    let y_high = (offset + 4095) / par.line_length % 2 ^ 32 in
    let y_high = if ltb (dec par.yres) y_high then dec par.yres else y_high in
    (if ltb y_low dirty.0 then y_low else dirty.0, if ltb dirty.1 y_high then y_high else dirty.1)

unfoldable pub merge_pages : Par → List ℕ → ℕ × ℕ → ℕ × ℕ
merge_pages par [] dirty = dirty
merge_pages par (offset ∷ offsets) dirty = merge_pages par offsets (merge_page par offset dirty)

-- The work runs with the offsets of the pages that were written through a mapping.
unfoldable pub deferred_io : List ℕ → Fb → Option (Fb × List Out)
deferred_io pagelist fb =
    let par = fb.par in
    let clean = record par { dirty_lines_start = dec par.yres; dirty_lines_end = 0 } in
    let dirty = merge_pages clean pagelist (par.dirty_lines_start, par.dirty_lines_end) in
    Option.map (λ r. (record { par = r.0; deferred_work = false }, r.1))
      (update_display clean dirty.0 dirty.1)

-- the part of `struct fb_fillrect`, `fb_copyarea` and `fb_image` that the driver reads
pub record Area : Type 0 where
  pub dy : ℕ
  pub height : ℕ

-- `ili9488_fb_fillrect`, `ili9488_fb_copyarea` and `ili9488_fb_imageblit`, with the kernel's
-- `sys_fillrect`, `sys_copyarea` and `sys_imageblit` on the memory as a parameter
module _ (sys : List ℕ → List ℕ) where
  unfoldable pub fb_draw : Area → Fb → Fb
  fb_draw area fb =
      mkdirty area.dy area.height (record fb { par = record fb.par { vmem = sys fb.par.vmem } })

-- `ili9488_fb_write`, with the kernel's `fb_sys_write` as a parameter: the memory after it, and the
-- number of bytes that it wrote or its error
module _ (fb_sys_write : List ℕ → List ℕ × Result ℕ) where
  unfoldable pub fb_write : Fb → Fb × ℕ
  fb_write fb =
      let res = fb_sys_write fb.par.vmem in
      (mkdirty minus_one 0 (record fb { par = record fb.par { vmem = res.0 } }), 0)
