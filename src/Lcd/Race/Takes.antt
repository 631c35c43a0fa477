-- ===== src/Lcd/Race/Takes.antt =====
-- The steps of the mapped writes and of the deferred work keep what the invariant says.
use meta_picocalc.Prelude.{
  ℕ, refl, ◌≡◌, inl, true, inr, ◌∷◌, ◌/◌, ◌≤◌, ◌+◌, ◌<◌, ◌≢◌, [], subst, sym, arith, ap, ◌⊎◌, ◌∙◌,
  ◌*◌,
}
use native.Mathlib.Decide.{ℕ_discrete}
use mathlib.Core.Option.{some-injective, some, none}
use meta_picocalc.Lcd.Dirty.Covers.{IsWithin, IsReady-marked}
use meta_picocalc.Lcd.Race.Defs.{
  Flight, System, update, pixel, Holds, later, range, taken, Step, begins, draws, marks, schedules,
  faults, stores, starts, reads, ends, Reach, here, next,
}
use meta_picocalc.Lcd.Race.Covered.{range_marked, range_paged}
use meta_picocalc.Lcd.Race.Kept.{Excused, drawn, unscheduled, pending, paged, flying, IsKept}
use meta_picocalc.Lcd.Race.Table.{update_other, update_same}
use meta_picocalc.Lcd.Race.Moves.{
  settle, begins-IsKept, poke-IsKept, marks-IsKept, schedules-IsKept,
}

module _ (s : System) (o : ℕ) where
  abbrev after_faults : System
  after_faults = record s { fb = record s.fb { deferred_work = true }; pages = o ∷ s.pages }

  faults_Excused : (p : ℕ) → Excused s p → Excused after_faults p
  faults_Excused p (drawn j d e l) = drawn j d e l
  faults_Excused p (unscheduled j d e m) = unscheduled j d e m
  faults_Excused p (pending m d) = pending m refl
  faults_Excused p (paged q b x d) = paged q (later b) x refl
  faults_Excused p (flying f e x y) = flying f e x y

  faults-IsKept : IsKept s → IsKept after_faults
  faults-IsKept k = record {
    ready = k.ready;
    on = k.on;
    held = λ q h. refl;
    settled = settle s after_faults (λ p h. inl (refl, refl)) (λ p h x. inr (faults_Excused p x)) k;
  }

module _ (s : System) (idle : s.flight ≡ none) (k : IsKept s) where
  launched : (p : ℕ) → IsWithin (p / 320) (range s) → Excused (taken s) p
  launched p w =
      flying (record { cur = (range s).0 * 320; end = ((range s).1 + 1) * 320 }) refl
        (omega (arith, w.0)) (omega (arith, w.1))

  starts_Excused : (p : ℕ) → p < 102400 → Excused s p → Excused (taken s) p
  starts_Excused p h (drawn j d e l) = drawn j d e l
  starts_Excused p h (unscheduled j d e m) =
      launched p (range_marked s k.ready (p / 320) (omega arith) m)
  starts_Excused p h (pending m d) = launched p (range_marked s k.ready (p / 320) (omega arith) m)
  starts_Excused p h (paged o b x d) = launched p (range_paged s k.ready o p b x h)
  starts_Excused p h (flying f e x y) = absurd cc

  none_held : (o : ℕ) → Holds [] o → (taken s).fb.deferred_work ≡ true
  none_held o h = elim h [ ]

  starts-IsKept : IsKept (taken s)
  starts-IsKept = record {
    ready = IsReady-marked s.fb.par s.fb.par.vmem (taken s).fb.par.dirty_lines_start 0 k.ready;
    on = k.on;
    held = none_held;
    settled = settle s (taken s) (λ p h. inl (refl, refl)) (λ p h x. inr (starts_Excused p h x)) k;
  }

module _ (s : System) (f : Flight) (on : s.flight ≡ some f) where
  abbrev after_reads : System
  after_reads = record s {
    flight = some (record f { cur = f.cur + 1 });
    read = update s.read f.cur (pixel s f.cur);
  }

  flight_lem : (g : Flight) → s.flight ≡ some g → g ≡ f
  flight_lem g e = some-injective g f (sym e ∙ on)

  reads_Excused : (p : ℕ) → p ≢ f.cur → Excused s p → Excused after_reads p
  reads_Excused p n (drawn j d e l) = drawn j d e l
  reads_Excused p n (unscheduled j d e m) = unscheduled j d e m
  reads_Excused p n (pending m d) = pending m d
  reads_Excused p n (paged q b x d) = paged q b x d
  reads_Excused p n (flying g e x y) =
      let same = flight_lem g e in
      let a : g.cur ≡ f.cur = ap (λ t. t.cur) same in
      let b : g.end ≡ f.end = ap (λ t. t.end) same in
      flying (record f { cur = f.cur + 1 }) refl (omega (arith, a, x, n)) (omega (arith, b, y))

  read_now : (p : ℕ) → p ≡ f.cur → after_reads.read p ≡ pixel after_reads p
  read_now p e =
      subst (λ q. update s.read f.cur (pixel s f.cur) q ≡ pixel s q) (sym e)
        (update_same s.read f.cur (pixel s f.cur))

  reads_settled :
      (p : ℕ)
      → p < 102400
      → IsKept s
      → (after_reads.read p ≡ pixel after_reads p) ⊎ Excused after_reads p
  reads_settled p h k = elim (ℕ_discrete p f.cur) [
    | yes e ↦ inl (read_now p e)
    | no n ↦ elim (k.settled p h) [
      | inl e ↦ inl (update_other s.read f.cur (pixel s f.cur) p n ∙ e)
      | inr x ↦ inr (reads_Excused p n x)
    ]
  ]

  reads-IsKept : IsKept s → IsKept after_reads
  reads-IsKept k = record {
    ready = k.ready;
    on = k.on;
    held = k.held;
    settled = λ p h. reads_settled p h k;
  }

  abbrev after_ends : System
  after_ends = record s { flight = none }

  ends_Excused : (p : ℕ) → f.end ≤ f.cur → Excused s p → Excused after_ends p
  ends_Excused p n (drawn j d e l) = drawn j d e l
  ends_Excused p n (unscheduled j d e m) = unscheduled j d e m
  ends_Excused p n (pending m d) = pending m d
  ends_Excused p n (paged q b x d) = paged q b x d
  ends_Excused p n (flying g e x y) =
      let same = flight_lem g e in
      let a : g.cur ≡ f.cur = ap (λ t. t.cur) same in
      let b : g.end ≡ f.end = ap (λ t. t.end) same in absurd (omega (arith, a, b, x, y, n))

  ends-IsKept : f.end ≤ f.cur → IsKept s → IsKept after_ends
  ends-IsKept n k = record {
    ready = k.ready;
    on = k.on;
    held = k.held;
    settled = settle s after_ends (λ p h. inl (refl, refl)) (λ p h x. inr (ends_Excused p n x)) k;
  }

pub Step-IsKept : {s t : System} → Step s t → IsKept s → IsKept t
Step-IsKept {s} (begins i c o on) k = begins-IsKept s i c o on k
Step-IsKept {s} (draws i c p v a d) k = poke-IsKept s p v (drawn i c a d) k
Step-IsKept {s} (marks i c a) k = marks-IsKept s i c a k
Step-IsKept {s} (schedules i c a) k = schedules-IsKept s i c a k
Step-IsKept {s} (faults o) k = faults-IsKept s o k
Step-IsKept {s} (stores o p v h b) k = poke-IsKept s p v (paged o h b (k.held o h)) k
Step-IsKept {s} (starts n d) k = starts-IsKept s n k
Step-IsKept {s} (reads f e lt) k = reads-IsKept s f e k
Step-IsKept {s} (ends f e le) k = ends-IsKept s f e le k

pub Reach-IsKept : {s t : System} → Reach s t → IsKept s → IsKept t
Reach-IsKept here k = k
Reach-IsKept (next r h) k = Step-IsKept h (Reach-IsKept r k)
