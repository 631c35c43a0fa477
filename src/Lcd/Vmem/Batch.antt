-- ===== src/Lcd/Vmem/Batch.antt =====
-- The body of one round of `write_vmem`.
use native.Mathlib.Numerals.{add-two}
use meta_picocalc.Prelude.{
  take-set_two, ℕ, zero, suc, ◌+◌, ◌*◌, ◌/◌, ◌%◌, ◌≤◌, ◌≡◌, refl, arith, ap, sym, ◌∙◌, List, [],
  ◌∷◌, ◌++◌, get_or, set, take, length, length-set, append_assoc, append-nil, window,
}

-- the two bytes of a pixel, `((v & 0xFF00) >> 8) & 0xFF` and `v & 0x00FF`
abbrev pub high : ℕ → ℕ
high v = v / 256 % 256

abbrev pub low : ℕ → ℕ
low v = v % 256

-- `n` rounds left: pixel `p` goes to `txbuf[k++]` and `txbuf[k++]`
unfoldable pub fill16 : List ℕ → ℕ → ℕ → ℕ → List ℕ → List ℕ
fill16 vmem zero p k buf = buf
fill16 vmem (suc n) p k buf =
    let v = get_or vmem p 0 in
    fill16 vmem n (p + 1) (k + 2) (set (set buf k (high v)) (k + 1) (low v))

-- pixels as the panel wants them
abbrev pub big_endian : List ℕ → List ℕ
big_endian [] = []
big_endian (v ∷ vs) = high v ∷ low v ∷ big_endian vs

pub big_endian-append : (xs ys : List ℕ) → big_endian (xs ++ ys) ≡ big_endian xs ++ big_endian ys
big_endian-append [] ys = refl
big_endian-append (x ∷ xs) ys = ap (λ t. high x ∷ low x ∷ t) (big_endian-append xs ys)

module _ (vmem : List ℕ) where
  pub length-fill16 : (n p k : ℕ) (buf : List ℕ) → length (fill16 vmem n p k buf) ≡ length buf
  unfolding fill16
  length-fill16 zero p k buf = refl
  length-fill16 (suc n) p k buf =
      let v = get_or vmem p 0 in
      length-fill16 n (p + 1) (k + 2) (set (set buf k (high v)) (k + 1) (low v))
      ∙ length-set (set buf k (high v)) (k + 1) (low v)
      ∙ length-set buf k (high v)

  -- The loop writes its bytes one after the other, from index `k` on.
  pub fill16_lem :
      (n p k : ℕ) (buf : List ℕ)
      → k + 2 * n ≤ length buf
      → take (k + 2 * n) (fill16 vmem n p k buf) ≡ take k buf ++ big_endian (window 0 vmem n p)
  unfolding fill16
  fill16_lem zero p k buf h = ap (λ t. take t buf) (omega arith) ∙ sym (append-nil (take k buf))
  fill16_lem (suc n) p k buf h =
      let v = get_or vmem p 0 in
      let buf' = set (set buf k (high v)) (k + 1) (low v) in
      let rest = fill16 vmem n (p + 1) (k + 2) buf' in
      let same : length buf' ≡ length buf =
        length-set (set buf k (high v)) (k + 1) (low v) ∙ length-set buf k (high v) in
      let e : k + 2 * suc n ≡ k + 2 + 2 * n = omega arith in
      rw e (
        fill16_lem n (p + 1) (k + 2) buf' (omega (arith, same))
        ∙ ap (λ t. t ++ big_endian (window 0 vmem n (p + 1)))
            (ap (λ t. take t buf') (add-two k) ∙ take-set_two buf k (high v) (low v) (omega arith))
        ∙ append_assoc (take k buf) (high v ∷ low v ∷ []) (big_endian (window 0 vmem n (p + 1))))
