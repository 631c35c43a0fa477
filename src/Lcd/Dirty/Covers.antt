-- ===== src/Lcd/Dirty/Covers.antt =====
-- No update is lost: what is marked dirty lies in the range that the next refresh sends.
use meta_picocalc.Prelude.{
  ℕ, ◌+◌, ◌-◌, ◌/◌, ◌%◌, ◌^◌, ◌≤◌, ◌<◌, ◌≡◌, arith, false, ltb, ◌==◌, if◌then◌else◌, List, [], ◌∷◌,
  some, ap,
}
use mathlib.Core.Option
use meta_picocalc.Lcd.Command.{set_addr_win}
use meta_picocalc.Lcd.Panel.{Par, Out, gpio, cs, dc, payload}
use meta_picocalc.Lcd.Update.{dec, update_display_lem, IsReady, picture}
use meta_picocalc.Lcd.Vmem.Stream.{refilled}
use meta_picocalc.Lcd.Dirty.Defs.{Fb, minus_one, mkdirty, merge_page, merge_pages, deferred_io}
use meta_picocalc.Prelude.{inl, ◌⊎◌, inr, if_intro, ◌++◌}

-- Line `l` lies in the dirty range.
abbrev pub IsMarked : ℕ → Par → Type 0
IsMarked l par = (par.dirty_lines_start ≤ l) × (l ≤ par.dirty_lines_end)

lower : (y s l : ℕ) → (y ≤ l) ⊎ (s ≤ l) → (if ltb y s then y else s) ≤ l
lower y s l (inl h) = ground arith
lower y s l (inr h) = ground arith

upper : (t e l : ℕ) → (l ≤ t) ⊎ (l ≤ e) → l ≤ (if ltb e t then t else e)
upper t e l (inl h) = ground arith
upper t e l (inr h) = ground arith

below : (y : ℕ) → y ≤ 320 → (y == minus_one) ≡ false
below y h = ground arith

-- A mark of lines of the display marks each of them, and unmarks none.
pub mkdirty_marks :
    (y height : ℕ) (fb : Fb)
    → y + height ≤ 320
    → ((l : ℕ) → y ≤ l → l < y + height → IsMarked l (mkdirty y height fb).par)
      × ((l : ℕ) → IsMarked l fb.par → IsMarked l (mkdirty y height fb).par)
unfolding mkdirty
mkdirty_marks y height fb h =
    let e = below y (omega arith) in
    (
      λ l a b. (
        rw e (lower y fb.par.dirty_lines_start l (inl a)),
        rw e (
            upper ((y + height + minus_one) % 2 ^ 32) fb.par.dirty_lines_end l (inl (omega arith))),
      ),
      λ l a. (
        rw e (lower y fb.par.dirty_lines_start l (inr a.0)),
        rw e (upper ((y + height + minus_one) % 2 ^ 32) fb.par.dirty_lines_end l (inr a.1)),
      ),
    )

-- A mark of -1 marks every line of the display.
pub mkdirty_all :
    (fb : Fb) (height l : ℕ)
    → fb.par.yres ≡ 320
    → l < 320
    → IsMarked l (mkdirty minus_one height fb).par
unfolding mkdirty
mkdirty_all fb height l e h = rw e (
  lower 0 fb.par.dirty_lines_start l (inl (omega arith)),
  upper 319 fb.par.dirty_lines_end l (inl (omega arith)),
)

-- a line, of a range
abbrev pub IsWithin : ℕ → ℕ × ℕ → Type 0
IsWithin l d = (d.0 ≤ l) × (l ≤ d.1)

-- byte `b` of the memory lies in one of the pages
abbrev pub IsInPages : ℕ → List ℕ → Type 0
IsInPages b [] = ⊥
IsInPages b (o ∷ os) = ((o ≤ b) × b < o + 4096) ⊎ IsInPages b os

module _ (par : Par) (h : IsReady par) where
  page_keeps : (o l : ℕ) (d : ℕ × ℕ) → IsWithin l d → IsWithin l (merge_page par o d)
  unfolding merge_page
  page_keeps o l d w =
      let high = (o + 4095) / par.line_length % 2 ^ 32 in
      (
        lower (o / par.line_length % 2 ^ 32) d.0 l (inr w.0),
        upper (if ltb (dec par.yres) high then dec par.yres else high) d.1 l (inr w.1),
      )

  last_line :
      (o b : ℕ)
      → b < o + 4096
      → o ≤ b
      → b < 204800
      → b / 640 ≤ (if ltb 319 ((o + 4095) / 640 % 2 ^ 32) then 319 else (o + 4095) / 640 % 2 ^ 32)
  last_line o b h k l =
      if_intro (λ t. b / 640 ≤ t) (ltb 319 ((o + 4095) / 640 % 2 ^ 32)) (λ _. omega arith)
        (λ _. omega arith)

  page_adds :
      (o b : ℕ) (d : ℕ × ℕ)
      → o ≤ b
      → b < o + 4096
      → b < 204800
      → IsWithin (b / 640) (merge_page par o d)
  unfolding merge_page
  page_adds o b d p q r =
      simp (h.height, h.line)
        (
          lower (o / 640 % 2 ^ 32) d.0 (b / 640) (inl (omega arith)),
          upper (if ltb 319 ((o + 4095) / 640 % 2 ^ 32) then 319 else (o + 4095) / 640 % 2 ^ 32) d.1
              (b / 640) (inl (last_line o b q p r)),
        )

  pub pages_keep :
      (os : List ℕ) (l : ℕ) (d : ℕ × ℕ) → IsWithin l d → IsWithin l (merge_pages par os d)
  unfolding merge_pages
  pages_keep [] l d w = w
  pages_keep (o ∷ os) l d w = pages_keep os l (merge_page par o d) (page_keeps o l d w)

  pub pages_add :
      (os : List ℕ) (b : ℕ) (d : ℕ × ℕ)
      → IsInPages b os
      → b < 204800
      → IsWithin (b / 640) (merge_pages par os d)
  unfolding merge_pages
  pages_add [] b d w r = elim w [ ]
  pages_add (o ∷ os) b d (inl w) r =
      pages_keep os (b / 640) (merge_page par o d) (page_adds o b d w.0 w.1 r)
  pages_add (o ∷ os) b d (inr w) r = pages_add os b (merge_page par o d) w r

abbrev pub whole_screen : Par → Par
whole_screen par = record par { dirty_lines_start = dec par.yres; dirty_lines_end = 0 }

-- Neither the memory nor the marks matter to the set-up.
pub IsReady-marked :
    (par : Par) (vmem : List ℕ) (start end : ℕ)
    → IsReady par
    → IsReady (record par { vmem = vmem; dirty_lines_start = start; dirty_lines_end = end })
IsReady-marked par vmem start end h = record {
  width = h.width;
  height = h.height;
  line = h.line;
  size = h.size;
  buffered = record {
    buf = h.buffered.buf;
    there = h.buffered.there;
    size = h.buffered.size;
    room = h.buffered.room;
  };
}

-- The work, on a display as the probe sets it up, whatever was marked before and whichever pages
-- were written through a mapping: it ends, resets the marks, and sends a range of lines with their
-- contents. Every line of the display that was marked, and every line that a byte of one of the
-- pages belongs to, is in that range.
pub deferred_io_lem :
    (pagelist : List ℕ) (fb : Fb)
    → IsReady fb.par
    → (s : ℕ) × (e : ℕ) × (buf : List ℕ) × (outs : List Out) × (deferred_io pagelist fb
        ≡ some (
          record { par = refilled (whole_screen fb.par) buf; deferred_work = false },
          gpio cs 0 ∷ (set_addr_win 0 s 319 e ++ (gpio dc 1 ∷ (outs ++ (gpio cs 1 ∷ [])))),
        ))
      × (payload outs ≡ picture fb.par s (e - s + 1))
      × IsReady (refilled (whole_screen fb.par) buf)
      × ((l : ℕ) → l < 320 → IsMarked l fb.par → IsWithin l (s, e))
      × ((b : ℕ) → b < 204800 → IsInPages b pagelist → IsWithin (b / 640) (s, e))
      × (s ≤ e)
      × e < 320
unfolding deferred_io
deferred_io_lem pagelist fb h =
    let clean = whole_screen fb.par in
    let k = IsReady-marked fb.par fb.par.vmem (dec fb.par.yres) 0 h in
    let d = merge_pages clean pagelist (fb.par.dirty_lines_start, fb.par.dirty_lines_end) in
    let (s, e, buf, outs, eq, sent, ready, le, lt, keep, all) =
      update_display_lem clean d.0 d.1 k in
    (
      s,
      e,
      buf,
      outs,
      ap (Option.map (λ (r : Par × List Out). (record { par = r.0; deferred_work = false }, r.1)))
          eq,
      sent,
      ready,
      λ l a w.
          let (x, y) =
            pages_keep clean k pagelist l (fb.par.dirty_lines_start, fb.par.dirty_lines_end) w in
          all l x y a,
      λ b a w.
          let (x, y) =
            pages_add clean k pagelist b (fb.par.dirty_lines_start, fb.par.dirty_lines_end) w a in
          all (b / 640) x y (omega arith),
      le,
      lt,
    )
