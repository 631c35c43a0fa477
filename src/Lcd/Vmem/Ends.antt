-- ===== src/Lcd/Vmem/Ends.antt =====
-- When `while (remain)` of the three `write_vmem` functions ends, and after how many batches.
use meta_picocalc.Prelude.{ℕ, zero, suc, refl, List, ◌<◌, ◌≡◌, ◌≤◌, length, ◌*◌, arith}
use mathlib.Core.Option
use native.Mathlib.Nat.{suc-mul}
use native.Mathlib.Decide.{dec_le}
use meta_picocalc.Lcd.Panel.{Out, spi}
use meta_picocalc.Lcd.Vmem.Loop.{send_loop, send_step, fuel_left}
use mathlib.Core.Option.{none, some}
use meta_picocalc.Prelude.{[], ◌+◌, min, ◌-◌, ◌∷◌, ◌∙◌, ◌⊎◌, ap, subst, inl, inr, sym}

-- `n` batches of `size` are as many as `r` pixels take
abbrev pub IsCut : ℕ → ℕ → ℕ → Type 0
IsCut size r n = (r ≤ n * size) × n * size < r + size

no_batch : (n size : ℕ) → n * size < size → n * size ≡ 0
no_batch zero size h = omega arith
no_batch (suc n) size h = absurd (omega (arith, suc-mul n size))

IsCut-step :
    (size r n : ℕ) → 0 < size → IsCut size (suc r - min size (suc r)) n → IsCut size (suc r) (suc n)
IsCut-step size r n h (a, b) = elim (dec_le size (suc r)) [
  | yes k ↦ (omega (arith, suc-mul n size, k), omega (arith, suc-mul n size, k))
  | no k ↦
      let e = no_batch n size (omega (arith, k)) in
      (omega (arith, suc-mul n size, e, k), omega (arith, suc-mul n size, e, k))
]

module _ {S : Type 0} (fill : ℕ → ℕ → S → S × List ℕ) where
  -- no fuel is enough for a batch of no pixels
  stalls : (f p r : ℕ) (s : S) → send_loop fill f 0 p (suc r) s ≡ none
  unfolding send_loop
  stalls zero p r s = refl
  stalls (suc f) p r s =
      let none_taken : min 0 (suc r) ≡ 0 = omega arith in
      let all_left : suc r - 0 ≡ suc r = omega arith in
      let append : ℕ → S × List Out → S × List Out = λ n t. (t.0, spi (fill n p s).1 ∷ t.1) in
      send_step fill f 0 p r s
      ∙ subst
          (λ n.
            Option.map (append n) (send_loop fill f 0 (p + n) (suc r - n) (fill n p s).0) ≡ none)
          (sym none_taken)
          (ap (Option.map (append 0)) (
            ap (λ k. send_loop fill f 0 (p + 0) k (fill 0 p s).0) all_left
            ∙ stalls f (p + 0) r (fill 0 p s).0))

  ends :
      (f size p r : ℕ) (s : S)
      → 0 < size
      → r < f
      → (s' : S) × (outs : List Out) × (send_loop fill f size p r s ≡ some (s', outs))
        × IsCut size r (length outs)
  unfolding send_loop
  ends zero size p r s h k = absurd (omega arith)
  ends (suc f) size p zero s h k = (s, [], refl, (omega arith, omega arith))
  ends (suc f) size p (suc r) s h k =
      let n = min size (suc r) in
      let (s', outs, e, c) =
        ends f size (p + n) (suc r - n) (fill n p s).0 h (fuel_left f size r h k) in
      (
        s',
        spi (fill n p s).1 ∷ outs,
        rw (send_step fill f size p r s, e),
        IsCut-step size r (length outs) h c,
      )

  settled :
      (f size p : ℕ) (s : S)
      → 0 < f
      → (s' : S) × (outs : List Out) × (send_loop fill f size p 0 s ≡ some (s', outs))
        × (0 ≤ length outs * size)
        × ((outs ≡ []) ⊎ (length outs * size < 0 + size))
  unfolding send_loop
  settled zero size p s k = absurd (omega arith)
  settled (suc f) size p s k = (s, [], refl, omega arith, inl refl)

  -- With more fuel than there are pixels left, the loop either ends, after as many batches as the
  -- pixels take, or its batches hold no pixel and there are pixels left: then no fuel is enough.
  pub send_loop_ends :
      (f size p r : ℕ) (s : S)
      → r < f
      → ((s' : S) × (outs : List Out) × (send_loop fill f size p r s ≡ some (s', outs))
          × (r ≤ length outs * size)
          × ((outs ≡ []) ⊎ (length outs * size < r + size)))
        ⊎ ((size ≡ 0) × 0 < r × ((g : ℕ) → send_loop fill g size p r s ≡ none))
  send_loop_ends f zero p zero s k = inl (settled f zero p s k)
  send_loop_ends f zero p (suc r) s k = inr (refl, omega arith, λ g. stalls g p r s)
  send_loop_ends f (suc n) p r s k =
      let (s', outs, e, c) = ends f (suc n) p r s (omega arith) k in inl (s', outs, e, c.0, inr c.1)
