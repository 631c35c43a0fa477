-- ===== src/Lcd/Shown/Rows.antt =====
-- A line of a picture is the line of the memory.
use meta_picocalc.Prelude.{
  Bool, ℕ, zero, suc, ◌+◌, ◌-◌, ◌*◌, ◌<◌, ◌≡◌, refl, arith, ap, ap₂, sym, ◌∙◌, List, [], ◌∷◌, ◌++◌,
  length, window, get_or, window-append, length-window,
}
use native.Mathlib.Nat.{suc-add, zero-add}
use meta_picocalc.Lcd.Shown.Encode.{encode, width, encode-append, length-encode}
use meta_picocalc.Lcd.Shown.Defs.{row}

window-cons : (x : ℕ) (xs : List ℕ) (n i : ℕ) → window 0 (x ∷ xs) n (suc i) ≡ window 0 xs n i
window-cons x xs zero i = refl
window-cons x xs (suc n) i =
    ap (λ t. get_or xs i 0 ∷ t)
      (ap (window 0 (x ∷ xs) n) (suc-add i 1) ∙ window-cons x xs n (i + 1))

window-prefix : (ys zs : List ℕ) → window 0 (ys ++ zs) (length ys) 0 ≡ ys
window-prefix [] zs = refl
window-prefix (y ∷ ys) zs =
    ap (λ t. y ∷ t)
      (ap (window 0 (y ∷ (ys ++ zs)) (length ys)) (zero-add 1)
        ∙ window-cons y (ys ++ zs) (length ys) 0
        ∙ window-prefix ys zs)

window-middle : (xs ys zs : List ℕ) → window 0 (xs ++ (ys ++ zs)) (length ys) (length xs) ≡ ys
window-middle [] ys zs = window-prefix ys zs
window-middle (x ∷ xs) ys zs =
    window-cons x (xs ++ (ys ++ zs)) (length ys) (length xs) ∙ window-middle xs ys zs

length-pixels :
    (m d : Bool) (cur : ℕ) (vmem : List ℕ) (n i : ℕ)
    → length (encode m d cur (window 0 vmem (n * 320) i)) ≡ n * width m
length-pixels m d cur vmem n i =
    length-encode m d n cur (window 0 vmem (n * 320) i) (length-window 0 vmem (n * 320) i)

-- a line from the middle of a longer run of lines, of which `k` are before it and `j` behind it
row_at :
    (m d : Bool) (cur : ℕ) (vmem : List ℕ) (a k j : ℕ)
    → window 0
        (encode m d cur (window 0 vmem (k * 320 + (1 * 320 + j * 320)) a))
        (1 * width m)
        (k * width m)
      ≡ encode m d (cur + k * 320) (window 0 vmem (1 * 320) (a + k * 320))
row_at m d cur vmem a k j =
    let xs = window 0 vmem (k * 320) a in
    let ys = window 0 vmem (1 * 320) (a + k * 320) in
    let zs = window 0 vmem (j * 320) (a + k * 320 + 1 * 320) in
    let mid = cur + k * 320 in
    let end = mid + 1 * 320 in
    let split : encode m d cur (window 0 vmem (k * 320 + (1 * 320 + j * 320)) a)
        ≡ encode m d cur xs ++ (encode m d mid ys ++ encode m d end zs) =
      ap (encode m d cur) (
        sym (
          ap (λ t. xs ++ t) (window-append 0 vmem (1 * 320) (j * 320) (a + k * 320))
          ∙ window-append 0 vmem (k * 320) (1 * 320 + j * 320) a))
      ∙ encode-append m d k cur xs (ys ++ zs) (length-window 0 vmem (k * 320) a)
      ∙ ap (λ t. encode m d cur xs ++ t)
          (encode-append m d 1 mid ys zs (length-window 0 vmem (1 * 320) (a + k * 320))) in
    ap (λ t. window 0 t (1 * width m) (k * width m)) split
    ∙ ap₂ (window 0 (encode m d cur xs ++ (encode m d mid ys ++ encode m d end zs)))
        (sym (length-pixels m d mid vmem 1 (a + k * 320))) (sym (length-pixels m d cur vmem k a))
    ∙ window-middle (encode m d cur xs) (encode m d mid ys) (encode m d end zs)

one_line : (m : Bool) → 1 * width m ≡ width m
one_line m = omega arith

-- line `s + k` in the bytes of `n` lines from line `s` on
pub row_lem :
    (m d : Bool) (cur : ℕ) (vmem : List ℕ) (s n k : ℕ)
    → k < n
    → window 0 (encode m d cur (window 0 vmem (n * 320) (s * 320))) (width m) (k * width m)
      ≡ encode m d (cur + k * 320) (row vmem (s + k))
row_lem m d cur vmem s n k h =
    let j = n - k - 1 in
    let long : n * 320 ≡ k * 320 + (1 * 320 + j * 320) = omega arith in
    let start : s * 320 + k * 320 ≡ (s + k) * 320 = omega arith in
    ap₂ (λ x y. window 0 (encode m d cur (window 0 vmem x (s * 320))) y (k * width m)) long
      (sym (one_line m))
    ∙ row_at m d cur vmem (s * 320) k j
    ∙ ap (λ t. encode m d (cur + k * 320) (window 0 vmem 320 t)) start
