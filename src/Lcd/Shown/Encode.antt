-- ===== src/Lcd/Shown/Encode.antt =====
-- What the panel is sent for a run of pixels in each mode: two bytes for a pixel, or one byte for
-- two, with or without dithering. `cur` is where the first pixel of the run stands in the running
-- `cur_offset` of an update, by which the dithering takes its threshold.
use meta_picocalc.Prelude.{
  ℕ, zero, suc, ◌+◌, ◌*◌, ◌≡◌, refl, arith, ap, ◌∙◌, List, [], ◌∷◌, ◌++◌, Bool, true, false, length,
  window, get_or,
}
use meta_picocalc.Lcd.Vmem.Batch.{big_endian, big_endian-append}
use meta_picocalc.Lcd.Dither.Colour.{Rgb, pack}
use meta_picocalc.Lcd.Dither.Pack.{pairs, q_plain, q_dither}

-- the bytes of a line of 320 pixels
abbrev pub width : Bool → ℕ
width true = 160
width false = 640

-- the colours of a pixel in the two 3-bit modes, on a display of 320 columns
abbrev pub colour : Bool → ℕ → ℕ → Rgb
colour true = q_dither 320
colour false = q_plain

module _ (q : ℕ → ℕ → Rgb) where
  -- the pixels of an even run, two in a byte
  abbrev pub packed : ℕ → List ℕ → List ℕ
  packed cur [] = []
  packed cur (a ∷ []) = []
  packed cur (a ∷ b ∷ xs) = pack (q cur a) (q (cur + 1) b) ∷ packed (cur + 2) xs

  packed-append :
      (j cur : ℕ) (xs ys : List ℕ)
      → length xs ≡ 2 * j
      → packed cur (xs ++ ys) ≡ packed cur xs ++ packed (cur + length xs) ys
  packed-append j cur [] ys h = ap (λ (c : ℕ). packed c ys) (omega arith)
  packed-append j cur (a ∷ []) ys h = absurd (omega (arith, h))
  packed-append zero cur (a ∷ b ∷ xs) ys h = absurd (omega (arith, h))
  packed-append (suc j) cur (a ∷ b ∷ xs) ys h =
      ap (λ t. pack (q cur a) (q (cur + 1) b) ∷ t)
        (packed-append j (cur + 2) xs ys (omega (arith, h))
          ∙ ap (λ (c : ℕ). packed (cur + 2) xs ++ packed c ys) (omega arith))

  length-packed : (j cur : ℕ) (xs : List ℕ) → length xs ≡ 2 * j → length (packed cur xs) ≡ j
  length-packed zero cur [] h = refl
  length-packed (suc j) cur [] h = absurd (omega (arith, h))
  length-packed j cur (a ∷ []) h = absurd (omega (arith, h))
  length-packed zero cur (a ∷ b ∷ xs) h = absurd (omega (arith, h))
  length-packed (suc j) cur (a ∷ b ∷ xs) h =
      ap suc (length-packed j (cur + 2) xs (omega (arith, h)))

  -- what the loops of the 3-bit writes send
  pub pairs-packed :
      (vmem : List ℕ) (n cur p : ℕ) → pairs q vmem n cur p ≡ packed cur (window 0 vmem (2 * n) p)
  pairs-packed vmem zero cur p = refl
  pairs-packed vmem (suc n) cur p =
      let two : suc (suc (2 * n)) ≡ 2 * suc n = omega arith in
      let next : p + 2 ≡ p + 1 + 1 = omega arith in
      ap (λ t. pack (q cur (get_or vmem p 0)) (q (cur + 1) (get_or vmem (p + 1) 0)) ∷ t)
        (pairs-packed vmem n (cur + 2) (p + 2)
          ∙ ap (λ i. packed (cur + 2) (window 0 vmem (2 * n) i)) next)
      ∙ ap (λ k. packed cur (window 0 vmem k p)) two

-- without dithering it does not matter where the run stands
packed_anywhere : (a b : ℕ) (xs : List ℕ) → packed q_plain a xs ≡ packed q_plain b xs
packed_anywhere a b [] = refl
packed_anywhere a b (x ∷ []) = refl
packed_anywhere a b (x ∷ y ∷ xs) =
    ap (λ t. pack (q_plain 0 x) (q_plain 0 y) ∷ t) (packed_anywhere (a + 2) (b + 2) xs)

-- the modes: 3-bit or not, dithered or not
abbrev pub encode : Bool → Bool → ℕ → List ℕ → List ℕ
encode true dither cur xs = packed (colour dither) cur xs
encode false dither cur xs = big_endian xs

length-big_endian : (xs : List ℕ) → length (big_endian xs) ≡ 2 * length xs
length-big_endian [] = refl
length-big_endian (x ∷ xs) = ap (λ n. suc (suc n)) (length-big_endian xs) ∙ omega arith

pub encode-append :
    (m d : Bool) (n cur : ℕ) (xs ys : List ℕ)
    → length xs ≡ n * 320
    → encode m d cur (xs ++ ys) ≡ encode m d cur xs ++ encode m d (cur + n * 320) ys
encode-append true d n cur xs ys h =
    packed-append (colour d) (n * 160) cur xs ys (omega (arith, h))
    ∙ ap (λ (k : ℕ). packed (colour d) cur xs ++ packed (colour d) (cur + k) ys) h
encode-append false d n cur xs ys h = big_endian-append xs ys

pub length-encode :
    (m d : Bool) (n cur : ℕ) (xs : List ℕ)
    → length xs ≡ n * 320
    → length (encode m d cur xs) ≡ n * width m
length-encode true d n cur xs h = length-packed (colour d) (n * 160) cur xs (omega (arith, h))
length-encode false d n cur xs h = length-big_endian xs ∙ omega (arith, h)

pub encode_anywhere : (m : Bool) (a b : ℕ) (xs : List ℕ) → encode m false a xs ≡ encode m false b xs
encode_anywhere true a b xs = packed_anywhere a b xs
encode_anywhere false a b xs = refl
