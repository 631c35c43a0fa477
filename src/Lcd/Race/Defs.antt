-- ===== src/Lcd/Race/Defs.antt =====
-- The steps that the locks of the driver and of the frame buffer core leave apart, in any order: a
-- drawing call writes pixel after pixel, then marks its lines, then schedules the work; the work
-- takes the marks, and then reads pixel after pixel for the transmit buffer.
use meta_picocalc.Prelude.{
  ℕ, ◌+◌, ◌*◌, ◌/◌, ◌≤◌, ◌<◌, ◌≡◌, true, false, ◌==◌, if◌then◌else◌, List, [], ◌∷◌, ◌⊎◌, Option,
  none, some, get_or, set,
}
use meta_picocalc.Lcd.Update.{clamp}
use meta_picocalc.Lcd.Dirty.Defs.{Fb, minus_one, mkdirty, merge_pages}
use meta_picocalc.Lcd.Dirty.Covers.{whole_screen}

-- A call of `ili9488_fb_fillrect`, `ili9488_fb_copyarea`, `ili9488_fb_imageblit` or
-- `ili9488_fb_write`: what it passes to `mkdirty`. A write passes -1.
pub record Call : Type 0 where
  pub y : ℕ
  pub height : ℕ

abbrev pub IsOnScreen : Call → Type 0
IsOnScreen c = (c.y ≡ minus_one) ⊎ (c.y + c.height ≤ 320)

-- The call may write line `l`.
abbrev pub Draws : Call → ℕ → Type 0
Draws c l = (c.y ≡ minus_one) ⊎ ((c.y ≤ l) × l < c.y + c.height)

-- Where a thread stands: outside, in the kernel's drawing routine, or past the lock of `mkdirty`.
pub data Stage : Type 0 where
  outside : Stage
  drawing : (c : Call) → Stage
  marked : (c : Call) → Stage

-- The pixels that a refresh has still to read, from `cur` to before `end`.
pub record Flight : Type 0 where
  pub cur : ℕ
  pub end : ℕ

-- `pages` are the pages that a mapping may write, which the frame buffer core hands to the next
-- refresh; `read` is what was last read of each pixel for the transmit buffer.
pub record System : Type 0 where
  pub fb : Fb
  pub stage : ℕ → Stage
  pub pages : List ℕ
  pub flight : Option Flight
  pub read : ℕ → ℕ

abbrev pub update : {A : Type 0} → (ℕ → A) → ℕ → A → ℕ → A
update f i v n = if n == i then v else f n

-- pixel `p` of the memory
abbrev pub pixel : System → ℕ → ℕ
pixel s p = get_or s.fb.par.vmem p 0

abbrev pub poke : System → ℕ → ℕ → System
poke s p v = record s {
  fb = record s.fb { par = record s.fb.par { vmem = set s.fb.par.vmem p v } };
}

-- a byte of pixel `p` lies in the page
abbrev pub InPage : ℕ → ℕ → Type 0
InPage o p = (o ≤ 2 * p + 1) × 2 * p < o + 4096

pub data Holds : List ℕ → ℕ → Type 0 where
  first : {o : ℕ} {os : List ℕ} → Holds (o ∷ os) o
  later : {o q : ℕ} {os : List ℕ} → Holds os o → Holds (q ∷ os) o

-- the lines that `deferred_io` sends, from the marks that it takes and the pages that it is handed
abbrev pub range : System → ℕ × ℕ
range s =
    let par = s.fb.par in
    let d = merge_pages (whole_screen par) s.pages (par.dirty_lines_start, par.dirty_lines_end) in
    clamp par.yres d.0 d.1

abbrev pub taken : System → System
taken s = record s {
  fb = record { par = whole_screen s.fb.par; deferred_work = false };
  pages = [];
  flight = some (record { cur = (range s).0 * 320; end = ((range s).1 + 1) * 320 });
}

pub data Step (s : System) : System → Type 0 where
  begins :
      (i : ℕ) (c : Call)
      → s.stage i ≡ outside
      → IsOnScreen c
      → Step s (record s { stage = update s.stage i (drawing c) })
  draws :
      (i : ℕ) (c : Call) (p v : ℕ) → s.stage i ≡ drawing c → Draws c (p / 320) → Step s (poke s p v)
  marks :
      (i : ℕ) (c : Call)
      → s.stage i ≡ drawing c
      → Step s (record s {
        fb = record s.fb { par = (mkdirty c.y c.height s.fb).par };
        stage = update s.stage i (marked c);
      })
  schedules :
      (i : ℕ) (c : Call)
      → s.stage i ≡ marked c
      → Step s
          (record s { fb = record s.fb { deferred_work = true }; stage = update s.stage i outside })
  -- the frame buffer core lets a mapping write a page, and schedules the work
  faults :
      (o : ℕ) → Step s (record s { fb = record s.fb { deferred_work = true }; pages = o ∷ s.pages })
  stores : (o p v : ℕ) → Holds s.pages o → InPage o p → Step s (poke s p v)
  starts : s.flight ≡ none → s.fb.deferred_work ≡ true → Step s (taken s)
  reads :
      (f : Flight)
      → s.flight ≡ some f
      → f.cur < f.end
      → Step s (record s {
        flight = some (record f { cur = f.cur + 1 });
        read = update s.read f.cur (pixel s f.cur);
      })
  ends : (f : Flight) → s.flight ≡ some f → f.end ≤ f.cur → Step s (record s { flight = none })

pub data Reach (s : System) : System → Type 0 where
  here : Reach s s
  next : {t u : System} → Reach s t → Step t u → Reach s u
