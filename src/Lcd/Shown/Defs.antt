-- ===== src/Lcd/Shown/Defs.antt =====
-- The screen with what was last sent of each line, and its steps.
use meta_picocalc.Prelude.{
  ℕ, ◌+◌, ◌-◌, ◌*◌, ◌/◌, ◌≤◌, ◌<◌, ◌≡◌, leb, ◌&&◌, if◌then◌else◌, List, [], ◌∷◌, Option, some,
  window, drop, get_or, Result,
}
use meta_picocalc.Prelude.{Bool, false, ◌∙◌, ap, sym}
use mathlib.Core.Option
use meta_picocalc.Lcd.Panel.{Out, payload}
use meta_picocalc.Lcd.Shown.Encode.{encode, width}
use meta_picocalc.Lcd.Dirty.Defs.{Fb, Area, fb_draw, fb_write, deferred_io}

-- line `l` of a memory
abbrev pub row : List ℕ → ℕ → List ℕ
row vmem l = window 0 vmem 320 (l * 320)

-- where line `l` stands in the running `cur_offset` of an update that starts at line `start`
abbrev pub place : ℕ → ℕ → ℕ
place start l = start * 640 + (l - start) * 320

-- the bytes of line `l` in a mode (3-bit or not, dithered or not), in an update that starts at line
-- `start`
abbrev pub line : Bool → Bool → ℕ → List ℕ → ℕ → List ℕ
line m d start vmem l = encode m d (place start l) (row vmem l)

-- The bytes are those of line `l` in a mode, as an update sends them that starts at
-- that line or above it; without dithering they are the same wherever it starts.
pub record IsLine (m d : Bool) (vmem : List ℕ) (l : ℕ) (bytes : List ℕ) : Type 0 where
  pub start : ℕ
  pub above : start ≤ l
  pub same : bytes ≡ line m d start vmem l
  pub plain : d ≡ false → bytes ≡ line m false 0 vmem l

-- a line of a memory that is the same there
pub IsLine-row :
    {m d : Bool} {l : ℕ} {bytes : List ℕ} (vmem vmem' : List ℕ)
    → row vmem' l ≡ row vmem l
    → IsLine m d vmem l bytes
    → IsLine m d vmem' l bytes
IsLine-row {m} {d} {l} vmem vmem' e i = record {
  start = i.start;
  above = i.above;
  same = i.same ∙ ap (encode m d (place i.start l)) (sym e);
  plain = λ h. i.plain h ∙ ap (encode m false (place 0 l)) (sym e);
}

-- `pages` are the pages written through a mapping since the last refresh, which the frame buffer core
-- collects and hands to the deferred work.
pub record Screen : Type 0 where
  pub fb : Fb
  pub pages : List ℕ
  pub shown : ℕ → List ℕ

-- The bytes of one update: column address set with four parameters, page address set with the first
-- and the last line, memory write, and `w` bytes for each line from the first on.
abbrev pub received : ℕ → List ℕ → (ℕ → List ℕ) → ℕ → List ℕ
received w bytes shown l =
    let first = get_or bytes 6 0 * 256 + get_or bytes 7 0 in
    let last = get_or bytes 8 0 * 256 + get_or bytes 9 0 in
    if leb first l && leb l last then window 0 (drop 11 bytes) w ((l - first) * w) else shown l

abbrev pub after_update : Screen → Fb × List Out → Screen
after_update s (fb, outs) = record {
  fb = fb;
  pages = [];
  shown = received (width fb.par.p_3bit_mode) (payload outs) s.shown;
}

-- the deferred work, with the pages that are pending
unfoldable pub refresh : Screen → Option Screen
refresh s = Option.map (after_update s) (deferred_io s.pages s.fb)

abbrev pub drawn : (List ℕ → List ℕ) → Area → Screen → Screen
drawn sys area s = record s { fb = fb_draw sys area s.fb }

abbrev pub written : (List ℕ → List ℕ × Result ℕ) → Screen → Screen
written sys s = record s { fb = (fb_write sys s.fb).0 }

-- A write of user space through a mapping: the memory changes, and the page is pending.
abbrev pub mapped : (List ℕ → List ℕ) → ℕ → Screen → Screen
mapped f page s = record s {
  fb = record s.fb { par = record s.fb.par { vmem = f s.fb.par.vmem } };
  pages = page ∷ s.pages;
}

-- line `l` has a byte in the page at byte `page`
abbrev pub Touches : ℕ → ℕ → Type 0
Touches page l = (b : ℕ) × (b / 640 ≡ l) × (page ≤ b) × b < page + 4096

-- The kernel's drawing routines change no line outside their area, and a mapped write none outside
-- its page; the kernel's write may change any.
pub data Step (s : Screen) : Screen → Type 0 where
  draws :
      (sys : List ℕ → List ℕ) (area : Area)
      → area.dy + area.height ≤ 320
      → ((vmem : List ℕ) (l : ℕ)
          → ¬ ((area.dy ≤ l) × l < area.dy + area.height)
          → row (sys vmem) l ≡ row vmem l)
      → Step s (drawn sys area s)
  writes : (sys : List ℕ → List ℕ × Result ℕ) → Step s (written sys s)
  maps :
      (f : List ℕ → List ℕ) (page : ℕ)
      → ((vmem : List ℕ) (l : ℕ) → ¬ Touches page l → row (f vmem) l ≡ row vmem l)
      → Step s (mapped f page s)
  refreshes : {t : Screen} → refresh s ≡ some t → Step s t

pub data Reach (s : Screen) : Screen → Type 0 where
  here : Reach s s
  next : {t u : Screen} → Reach s t → Step t u → Reach s u
