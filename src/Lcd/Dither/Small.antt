-- ===== src/Lcd/Dither/Small.antt =====
-- The two smaller dither matrices of picocalc_lcd/ili9488_fb.c, which the driver does not use.
use meta_picocalc.Prelude.{◌+◌, ◌%◌, ◌/◌}
use meta_picocalc.Prelude.{zero, suc, ℕ, refl, List, ◌≡◌, [], ◌∷◌, get_or, ◌*◌}

abbrev pub dither_4x4 : List (List ℕ)
dither_4x4 =
    (0 ∷ 8 ∷ 2 ∷ 10 ∷ [])
    ∷ (12 ∷ 4 ∷ 14 ∷ 6 ∷ [])
    ∷ (3 ∷ 11 ∷ 1 ∷ 9 ∷ [])
    ∷ (15 ∷ 7 ∷ 13 ∷ 5 ∷ [])
    ∷ []

abbrev pub dither_8x8 : List (List ℕ)
dither_8x8 =
    (0 ∷ 32 ∷ 8 ∷ 40 ∷ 2 ∷ 34 ∷ 10 ∷ 42 ∷ [])
    ∷ (48 ∷ 16 ∷ 56 ∷ 24 ∷ 50 ∷ 18 ∷ 58 ∷ 26 ∷ [])
    ∷ (12 ∷ 44 ∷ 4 ∷ 36 ∷ 14 ∷ 46 ∷ 6 ∷ 38 ∷ [])
    ∷ (60 ∷ 28 ∷ 52 ∷ 20 ∷ 62 ∷ 30 ∷ 54 ∷ 22 ∷ [])
    ∷ (3 ∷ 35 ∷ 11 ∷ 43 ∷ 1 ∷ 33 ∷ 9 ∷ 41 ∷ [])
    ∷ (51 ∷ 19 ∷ 59 ∷ 27 ∷ 49 ∷ 17 ∷ 57 ∷ 25 ∷ [])
    ∷ (15 ∷ 47 ∷ 7 ∷ 39 ∷ 13 ∷ 45 ∷ 5 ∷ 37 ∷ [])
    ∷ (63 ∷ 31 ∷ 55 ∷ 23 ∷ 61 ∷ 29 ∷ 53 ∷ 21 ∷ [])
    ∷ []

entry : List (List ℕ) → ℕ → ℕ → ℕ
entry m y x = get_or (get_or m y []) x 0

abbrev dither_2x2 : List (List ℕ)
dither_2x2 = (0 ∷ 2 ∷ []) ∷ (3 ∷ 1 ∷ []) ∷ []

-- `n` entries of row `y` of the matrix that refines `m`, from column `x` on
refined_row : List (List ℕ) → ℕ → ℕ → ℕ → ℕ → List ℕ
refined_row m size y zero x = []
refined_row m size y (suc n) x =
    (4 * entry m (y % size) (x % size) + entry dither_2x2 (y / size) (x / size))
    ∷ refined_row m size y n (x + 1)

refined_rows : List (List ℕ) → ℕ → ℕ → ℕ → List (List ℕ)
refined_rows m size zero y = []
refined_rows m size (suc n) y = refined_row m size y (2 * size) 0 ∷ refined_rows m size n (y + 1)

abbrev refined : List (List ℕ) → ℕ → List (List ℕ)
refined m size = refined_rows m size (2 * size) 0

-- Each matrix repeats four times the one of half its size, at four times its thresholds.
dither_lem : (dither_4x4 ≡ refined dither_2x2 2) × (dither_8x8 ≡ refined dither_4x4 4)
unfolding refined_row refined_rows entry
dither_lem = (refl, refl)
