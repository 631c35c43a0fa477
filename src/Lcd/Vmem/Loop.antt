-- ===== src/Lcd/Vmem/Loop.antt =====
-- `while (remain)` of the three `write_vmem` functions: each round fills `txbuf` from at most
-- `tx_array_size` pixels and sends a part of it.
use native.Mathlib.Nat.{add-zero}
use meta_picocalc.Prelude.{
  false, refl, ℕ, zero, suc, ◌+◌, ◌-◌, min, List, [], ◌∷◌, Option, none, some, ◌==◌, if◌then◌else◌,
  ◌<◌, ◌≤◌, ◌≡◌, ◌++◌, arith, subst, sym, ap, ap₂, ◌∙◌,
}
use meta_picocalc.Lcd.Panel.{Out, spi, payload}
use mathlib.Core.Option

-- `fill to_copy p s` is the `for` loop over `to_copy` pixels from index `p` on, with the bytes that
-- the round sends. `none` means that the fuel ran out.
module _ {S : Type 0} (fill : ℕ → ℕ → S → S × List ℕ) where
  unfoldable pub send_loop : ℕ → ℕ → ℕ → ℕ → S → Option (S × List Out)
  send_loop zero size p remain s = none
  send_loop (suc f) size p remain s =
      let to_copy = min size remain in
      let (s', bytes) = fill to_copy p s in
      let rest = send_loop f size (p + to_copy) (remain - to_copy) s' in
      if remain == 0 then some (s, []) else Option.map (λ r. (r.0, spi bytes ∷ r.1)) rest

nonzero : (r : ℕ) → (suc r == 0) ≡ false
nonzero r = ground arith

pub send_step :
    {S : Type 0} (fill : ℕ → ℕ → S → S × List ℕ) (f size p r : ℕ) (s : S)
    → let n = min size (suc r) in
      send_loop fill (suc f) size p (suc r) s
      ≡ Option.map
          (λ t. (t.0, spi (fill n p s).1 ∷ t.1))
          (send_loop fill f size (p + n) (suc r - n) (fill n p s).0)
unfolding send_loop
send_step fill f size p r s = rw (nonzero r)

min_le : (size r : ℕ) → min size (suc r) ≤ size
min_le size r = omega arith

pub fuel_left : (f size r : ℕ) → 0 < size → suc r < suc f → suc r - min size (suc r) < f
fuel_left f size r h k = omega arith

place_left : (p size r : ℕ) → p + min size (suc r) + (suc r - min size (suc r)) ≡ p + suc r
place_left p size r = omega arith

whole_left : (size r : ℕ) → min size (suc r) + (suc r - min size (suc r)) ≡ suc r
whole_left size r = omega arith

-- The rule for the loop. Let `fill` keep an invariant of the buffer, and let the bytes that it sends
-- be those that `spec` gives for the pixels it took, where `spec` of a run of pixels is that of its
-- first part followed by that of the rest, at sizes that `Fits` allows. Then the bytes of all
-- batches are `spec` of all pixels.
module _ {S : Type 0} (fill : ℕ → ℕ → S → S × List ℕ) (Inv : ℕ → S → Type 0) (spec : ℕ → ℕ → List ℕ)
    (Fits : ℕ → Type 0) (size : ℕ) (positive : 0 < size)
    (cut : (r : ℕ) → Fits r → Fits (min size r) × Fits (r - min size r))
    (fills : (n p : ℕ) (s : S)
      → n ≤ size
      → Fits n
      → Inv p s
      → ((fill n p s).1 ≡ spec n p) × Inv (p + n) (fill n p s).0)
    (split : (m n p : ℕ) → Fits m → spec m p ++ spec n (p + m) ≡ spec (m + n) p)
    (empty : (p : ℕ) → spec 0 p ≡ []) where
  pub send_loop_lem :
      (f p r : ℕ) (s : S)
      → r < f
      → Fits r
      → Inv p s
      → (s' : S) × (outs : List Out) × (send_loop fill f size p r s ≡ some (s', outs))
        × Inv (p + r) s'
        × (payload outs ≡ spec r p)
  unfolding send_loop
  send_loop_lem zero p r s h q v = absurd (omega arith)
  send_loop_lem (suc f) p zero s h q v =
      (s, [], refl, subst (λ k. Inv k s) (sym (add-zero p)) v, sym (empty p))
  send_loop_lem (suc f) p (suc r) s h q v =
      let n = min size (suc r) in
      let sent = fills n p s (min_le size r) (cut (suc r) q).0 v in
      let (s', outs, e, w, b) =
        send_loop_lem f (p + n) (suc r - n) (fill n p s).0 (fuel_left f size r positive h)
          (cut (suc r) q).1 sent.1 in
      (
        s',
        spi (fill n p s).1 ∷ outs,
        rw (send_step fill f size p r s, e),
        subst (λ k. Inv k s') (place_left p size r) w,
        ap₂ ◌++◌ sent.0 b
            ∙ split n (suc r - n) p (cut (suc r) q).0
            ∙ ap (λ k. spec k p) (whole_left size r),
      )
