-- ===== src/Lcd/Race/Covered.antt =====
-- What a call marks, and what a refresh takes.
use meta_picocalc.Prelude.{
  ℕ, ◌+◌, ◌*◌, ◌/◌, ◌≤◌, ◌<◌, ◌≡◌, arith, sym, subst, inl, inr, List, [], ◌∷◌,
}
use native.Mathlib.Decide.{dec_le}
use meta_picocalc.Lcd.Update.{IsReady, clamp_lem, clamp}
use meta_picocalc.Lcd.Dirty.Defs.{Fb, minus_one, mkdirty, merge_pages}
use meta_picocalc.Lcd.Dirty.Covers.{
  IsMarked, IsWithin, IsInPages, IsReady-marked, mkdirty_marks, mkdirty_all, pages_keep, pages_add,
  whole_screen,
}
use meta_picocalc.Lcd.Race.Defs.{
  Call, IsOnScreen, Draws, System, InPage, Holds, first, later, range,
}

pub mkdirty-IsReady : (y height : ℕ) (fb : Fb) → IsReady fb.par → IsReady (mkdirty y height fb).par
unfolding mkdirty
mkdirty-IsReady y height fb h =
    let p = (mkdirty y height fb).par in
    IsReady-marked fb.par p.vmem p.dirty_lines_start p.dirty_lines_end h

module _ (c : Call) (fb : Fb) (h : IsReady fb.par) (l : ℕ) (inside : l < 320) where
  all-IsMarked : c.y ≡ minus_one → IsMarked l (mkdirty c.y c.height fb).par
  all-IsMarked e =
      subst (λ y. IsMarked l (mkdirty y c.height fb).par) (sym e)
        (mkdirty_all fb c.height l h.height inside)

  pub call_adds : IsOnScreen c → Draws c l → IsMarked l (mkdirty c.y c.height fb).par
  call_adds (inl e) d = all-IsMarked e
  call_adds (inr on) (inl e) = all-IsMarked e
  call_adds (inr on) (inr d) = (mkdirty_marks c.y c.height fb on).0 l d.0 d.1

  pub call_keeps : IsOnScreen c → IsMarked l fb.par → IsMarked l (mkdirty c.y c.height fb).par
  call_keeps (inl e) m = all-IsMarked e
  call_keeps (inr on) m = (mkdirty_marks c.y c.height fb on).1 l m

module _ (s : System) (h : IsReady s.fb.par) where
  clean-IsReady : IsReady (whole_screen s.fb.par)
  clean-IsReady = IsReady-marked s.fb.par s.fb.par.vmem _ 0 h

  abbrev merged : ℕ × ℕ
  merged =
      merge_pages (whole_screen s.fb.par) s.pages
        (s.fb.par.dirty_lines_start, s.fb.par.dirty_lines_end)

  range_spans : (l : ℕ) → l < 320 → IsWithin l merged → IsWithin l (range s)
  range_spans l k w =
      let (_, _, _, all) = clamp_lem merged.0 merged.1 in
      let r : IsWithin l (clamp 320 merged.0 merged.1) = all l w.0 w.1 k in
      subst (λ y. IsWithin l (clamp y merged.0 merged.1)) (sym h.height) r

  pub range_marked : (l : ℕ) → l < 320 → IsMarked l s.fb.par → IsWithin l (range s)
  range_marked l k m = range_spans l k (
      pages_keep (whole_screen s.fb.par) clean-IsReady s.pages l
        (s.fb.par.dirty_lines_start, s.fb.par.dirty_lines_end) m)

  held_byte : (os : List ℕ) (o b : ℕ) → Holds os o → o ≤ b → b < o + 4096 → IsInPages b os
  held_byte [] q b m x y = elim m [ ]
  held_byte (o ∷ os) q b first x y = inl (x, y)
  held_byte (o ∷ os) q b (later m) x y = inr (held_byte os q b m x y)

  page_line :
      (o b : ℕ) → Holds s.pages o → o ≤ b → b < o + 4096 → b < 204800 → IsWithin (b / 640) (range s)
  page_line o b m x y k = range_spans (b / 640) (omega arith) (
      pages_add (whole_screen s.fb.par) clean-IsReady s.pages b
        (s.fb.par.dirty_lines_start, s.fb.par.dirty_lines_end) (held_byte s.pages o b m x y) k)

  even_line : (p : ℕ) → 2 * p / 640 ≡ p / 320
  even_line p = omega arith

  odd_line : (p : ℕ) → (2 * p + 1) / 640 ≡ p / 320
  odd_line p = omega arith

  pub range_paged :
      (o p : ℕ) → Holds s.pages o → InPage o p → p < 102400 → IsWithin (p / 320) (range s)
  range_paged o p m (x, y) k = elim (dec_le o (2 * p)) [
    | yes le ↦
        subst (λ l. IsWithin l (range s)) (even_line p) (page_line o (2 * p) m le y (omega arith))
    | no gt ↦
        subst (λ l. IsWithin l (range s)) (odd_line p)
          (page_line o (2 * p + 1) m x (omega (arith, gt)) (omega arith))
  ]
