-- ===== src/Lcd/Race/Moves.antt =====
-- Each step keeps what the invariant says.
use meta_picocalc.Prelude.{refl, ℕ, ◌≡◌, ◌<◌, ◌⊎◌, inl, subst, inr, ◌∙◌, sym, ◌/◌, true, arith, ap}
use native.Mathlib.Decide.{ℕ_discrete}
use meta_picocalc.Lcd.Dirty.Defs.{mkdirty}
use meta_picocalc.Lcd.Dirty.Covers.{IsReady-marked}
use meta_picocalc.Lcd.Race.Defs.{
  Call, IsOnScreen, Draws, outside, drawing, marked, System, update, pixel, poke,
}
use meta_picocalc.Lcd.Race.Covered.{mkdirty-IsReady, call_adds, call_keeps}
use meta_picocalc.Lcd.Race.Kept.{Excused, drawn, unscheduled, pending, paged, flying, IsKept}
use meta_picocalc.Lcd.Race.Table.{
  update_other, update_same, update_keeps, update_from, pixel-poke_other,
}

drawing-injective : (c d : Call) → drawing c ≡ drawing d → c ≡ d
drawing-injective c d e = cc

-- a state that differs in what is read and in the memory only where it does not matter
pub settle :
    (s t : System)
    → ((p : ℕ)
        → p < 102400
        → ((t.read p ≡ s.read p) × (pixel t p ≡ pixel s p))
          ⊎ ((t.read p ≡ pixel t p) ⊎ Excused t p))
    → ((p : ℕ) → p < 102400 → Excused s p → (t.read p ≡ pixel t p) ⊎ Excused t p)
    → IsKept s
    → (p : ℕ) → p < 102400
    → (t.read p ≡ pixel t p) ⊎ Excused t p
settle s t same moves k p h = elim (same p h) [
  | inl w ↦ elim (k.settled p h) [ inl e ↦ inl (w.0 ∙ e ∙ sym w.1) | inr x ↦ moves p h x ]
  | inr w ↦ w
]

begins_Excused :
    (s : System) (i p : ℕ) (c : Call)
    → s.stage i ≡ outside
    → Excused s p
    → Excused (record s { stage = update s.stage i (drawing c) }) p
begins_Excused s i p c o (drawn j d e l) =
    drawn j d (update_keeps s.stage i (drawing c) outside (drawing d) j o (λ q. cc) e) l
begins_Excused s i p c o (unscheduled j d e m) =
    unscheduled j d (update_keeps s.stage i (drawing c) outside (marked d) j o (λ q. cc) e) m
begins_Excused s i p c o (pending m d) = pending m d
begins_Excused s i p c o (paged q h b d) = paged q h b d
begins_Excused s i p c o (flying f e a b) = flying f e a b

begins_on :
    (s : System) (i j : ℕ) (c d : Call)
    → IsKept s
    → IsOnScreen c
    → update s.stage i (drawing c) j ≡ drawing d
    → IsOnScreen d
begins_on s i j c d k on e = elim (update_from s.stage i (drawing c) (drawing d) j e) [
  | inl q ↦ subst IsOnScreen (drawing-injective c d q) on
  | inr q ↦ k.on j d q
]

pub begins-IsKept :
    (s : System) (i : ℕ) (c : Call)
    → s.stage i ≡ outside
    → IsOnScreen c
    → IsKept s
    → IsKept (record s { stage = update s.stage i (drawing c) })
begins-IsKept s i c o on k =
    let t = record s { stage = update s.stage i (drawing c) } in
    record {
      ready = k.ready;
      on = λ j d e. begins_on s i j c d k on e;
      held = k.held;
      settled = settle s t (λ p h. inl (refl, refl)) (λ p h x. inr (begins_Excused s i p c o x)) k;
    }

poke_Excused : (s : System) (q v p : ℕ) → Excused s p → Excused (poke s q v) p
poke_Excused s q v p (drawn j d e l) = drawn j d e l
poke_Excused s q v p (unscheduled j d e m) = unscheduled j d e m
poke_Excused s q v p (pending m d) = pending m d
poke_Excused s q v p (paged o h b d) = paged o h b d
poke_Excused s q v p (flying f e a b) = flying f e a b

-- a write of a pixel that is excused
pub poke-IsKept : (s : System) (q v : ℕ) → Excused s q → IsKept s → IsKept (poke s q v)
poke-IsKept s q v x k = record {
  ready =
      IsReady-marked s.fb.par (poke s q v).fb.par.vmem s.fb.par.dirty_lines_start
        s.fb.par.dirty_lines_end k.ready;
  on = k.on;
  held = k.held;
  settled =
      settle s (poke s q v)
        (λ p h. elim (ℕ_discrete p q) [
          | yes e ↦ inr (inr (subst (Excused (poke s q v)) (sym e) (poke_Excused s q v q x)))
          | no n ↦ inl (refl, pixel-poke_other s q p v n)
        ])
        (λ p h y. inr (poke_Excused s q v p y)) k;
}

module _ (s : System) (i : ℕ) (c : Call) (a : s.stage i ≡ drawing c) (k : IsKept s) where
  abbrev after_marks : System
  after_marks = record s {
    fb = record s.fb { par = (mkdirty c.y c.height s.fb).par };
    stage = update s.stage i (marked c);
  }

  marks_drawn :
      (p j : ℕ) (d : Call)
      → p < 102400
      → s.stage j ≡ drawing d
      → Draws d (p / 320)
      → Excused after_marks p
  marks_drawn p j d h e l = elim (ℕ_discrete j i) [
    | yes q ↦
        let same : d ≡ c = drawing-injective d c (sym e ∙ ap s.stage q ∙ a) in
        unscheduled i c (update_same s.stage i (marked c)) (
          call_adds c s.fb k.ready (p / 320) (omega arith) (k.on i c a)
            (subst (λ x. Draws x (p / 320)) same l))
    | no q ↦ drawn j d (update_other s.stage i (marked c) j q ∙ e) l
  ]

  marks_Excused : (p : ℕ) → p < 102400 → Excused s p → Excused after_marks p
  marks_Excused p h (drawn j d e l) = marks_drawn p j d h e l
  marks_Excused p h (unscheduled j d e m) =
      unscheduled j d (update_keeps s.stage i (marked c) (drawing c) (marked d) j a (λ q. cc) e)
        (call_keeps c s.fb k.ready (p / 320) (omega arith) (k.on i c a) m)
  marks_Excused p h (pending m d) =
      pending (call_keeps c s.fb k.ready (p / 320) (omega arith) (k.on i c a) m) d
  marks_Excused p h (paged o b x d) = paged o b x d
  marks_Excused p h (flying f e x y) = flying f e x y

  marks_on : (j : ℕ) (d : Call) → update s.stage i (marked c) j ≡ drawing d → IsOnScreen d
  marks_on j d e = elim (update_from s.stage i (marked c) (drawing d) j e) [
    | inl q ↦ absurd cc
    | inr q ↦ k.on j d q
  ]

  marks-pixel : (p : ℕ) → pixel after_marks p ≡ pixel s p
  unfolding mkdirty
  marks-pixel p = refl

  pub marks-IsKept : IsKept after_marks
  marks-IsKept = record {
    ready = mkdirty-IsReady c.y c.height s.fb k.ready;
    on = marks_on;
    held = k.held;
    settled =
        settle s after_marks (λ p h. inl (refl, marks-pixel p)) (λ p h x. inr (marks_Excused p h x))
          k;
  }

module _ (s : System) (i : ℕ) (c : Call) (a : s.stage i ≡ marked c) where
  abbrev after_schedules : System
  after_schedules = record s {
    fb = record s.fb { deferred_work = true };
    stage = update s.stage i outside;
  }

  schedules_Excused : (p : ℕ) → Excused s p → Excused after_schedules p
  schedules_Excused p (drawn j d e l) =
      drawn j d (update_keeps s.stage i outside (marked c) (drawing d) j a (λ q. cc) e) l
  schedules_Excused p (unscheduled j d e m) = pending m refl
  schedules_Excused p (pending m d) = pending m refl
  schedules_Excused p (paged o b x d) = paged o b x refl
  schedules_Excused p (flying f e x y) = flying f e x y

  schedules_on :
      IsKept s → (j : ℕ) (d : Call) → update s.stage i outside j ≡ drawing d → IsOnScreen d
  schedules_on k j d e = elim (update_from s.stage i outside (drawing d) j e) [
    | inl q ↦ absurd cc
    | inr q ↦ k.on j d q
  ]

  pub schedules-IsKept : IsKept s → IsKept after_schedules
  schedules-IsKept k = record {
    ready = k.ready;
    on = schedules_on k;
    held = λ o h. refl;
    settled =
        settle s after_schedules (λ p h. inl (refl, refl)) (λ p h x. inr (schedules_Excused p x)) k;
  }
