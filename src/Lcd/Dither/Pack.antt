-- ===== src/Lcd/Dither/Pack.antt =====
-- The body of one round of `write_vmem_3bit_dither` and `write_vmem_3bit`: two pixels a byte. `q`
-- turns the running `cur_offset` and a pixel into three bits.
use meta_picocalc.Prelude.{
  ℕ, zero, suc, ◌+◌, ◌*◌, ◌≤◌, ◌≡◌, refl, arith, ap, ap₂, sym, ◌∙◌, List, [], ◌∷◌, ◌++◌, get_or,
  set, take, length, length-set, append_assoc, append-nil, take-set,
}
use native.Mathlib.Nat.{add-zero, zero-add}
use native.Mathlib.Numerals.{add-one}
use meta_picocalc.Lcd.Dither.Colour.{Rgb, pack, threshold, dithered, plain}

-- the two functions' choice of colour
abbrev pub q_dither : ℕ → ℕ → ℕ → Rgb
q_dither width cur v = dithered (threshold width cur) v

abbrev pub q_plain : ℕ → ℕ → Rgb
q_plain cur v = plain v

module _ (q : ℕ → ℕ → Rgb) (vmem : List ℕ) where
  -- the byte of pixels `p` and `p + 1`
  abbrev pub pair : ℕ → ℕ → ℕ
  pair cur p = pack (q cur (get_or vmem p 0)) (q (cur + 1) (get_or vmem (p + 1) 0))

  -- `n` rounds of the `for` loop left
  unfoldable pub fill3 : ℕ → ℕ → ℕ → ℕ → List ℕ → List ℕ
  fill3 zero p k cur buf = buf
  fill3 (suc n) p k cur buf = fill3 n (p + 2) (k + 1) (cur + 2) (set buf k (pair cur p))

  -- the bytes of `n` pairs of pixels from `p` on, the first of them at `cur`
  abbrev pub pairs : ℕ → ℕ → ℕ → List ℕ
  pairs zero cur p = []
  pairs (suc n) cur p = pair cur p ∷ pairs n (cur + 2) (p + 2)

  pub pairs-append :
      (m n cur p : ℕ) → pairs m cur p ++ pairs n (cur + 2 * m) (p + 2 * m) ≡ pairs (m + n) cur p
  pairs-append zero n cur p = rw (add-zero cur, add-zero p, zero-add n) refl
  pairs-append (suc m) n cur p =
      let e : (x : ℕ) → x + 2 * suc m ≡ x + 2 + 2 * m = λ x. omega arith in
      let g : suc m + n ≡ suc (m + n) = omega arith in
      rw g (
        ap (λ t. pair cur p ∷ t)
          (ap₂ (λ x y. pairs m (cur + 2) (p + 2) ++ pairs n x y) (e cur) (e p)
            ∙ pairs-append m n (cur + 2) (p + 2)))

  pub length-fill3 : (n p k cur : ℕ) (buf : List ℕ) → length (fill3 n p k cur buf) ≡ length buf
  unfolding fill3
  length-fill3 zero p k cur buf = refl
  length-fill3 (suc n) p k cur buf =
      length-fill3 n (p + 2) (k + 1) (cur + 2) (set buf k (pair cur p))
      ∙ length-set buf k (pair cur p)

  -- The loop writes its bytes one after the other, from index `k` on.
  pub fill3_lem :
      (n p k cur : ℕ) (buf : List ℕ)
      → k + n ≤ length buf
      → take (k + n) (fill3 n p k cur buf) ≡ take k buf ++ pairs n cur p
  unfolding fill3
  fill3_lem zero p k cur buf h = ap (λ t. take t buf) (omega arith) ∙ sym (append-nil (take k buf))
  fill3_lem (suc n) p k cur buf h =
      let b = pair cur p in
      let same : length (set buf k b) ≡ length buf = length-set buf k b in
      let e : k + suc n ≡ k + 1 + n = omega arith in
      rw e (
        fill3_lem n (p + 2) (k + 1) (cur + 2) (set buf k b) (omega (arith, same))
        ∙ ap (λ t. t ++ pairs n (cur + 2) (p + 2))
            (ap (λ t. take t (set buf k b)) (add-one k) ∙ take-set buf k b (omega arith))
        ∙ append_assoc (take k buf) (b ∷ []) (pairs n (cur + 2) (p + 2)))
