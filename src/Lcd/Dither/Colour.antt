-- ===== src/Lcd/Dither/Colour.antt =====
-- Three bits for a pixel: a 16-bit colour against the thresholds of its place, and the code of the
-- three bits in a transmitted byte.
use meta_picocalc.Prelude.{◌∙◌, ap₂}
use meta_picocalc.Prelude.{
  ℕ, ◌+◌, ◌*◌, ◌/◌, ◌%◌, List, [], ◌∷◌, Bool, true, false, ltb, leb, get_or, if◌then◌else◌, ◌≡◌,
  ◌≤◌, ◌<◌, arith, refl,
}

-- `((v & 0xF800) >> 11) & 0xFF`, `((v & 0x07E0) >> 5) & 0xFF`, `v & 0x001F`
abbrev pub red : ℕ → ℕ
red v = v / 2048 % 32

abbrev pub green : ℕ → ℕ
green v = v / 32 % 64

abbrev pub blue : ℕ → ℕ
blue v = v % 32

pub record Rgb : Type 0 where
  pub r : Bool
  pub g : Bool
  pub b : Bool

-- the whole table, of which `threshold` reaches the first eight rows and columns
abbrev pub dither_16x16 : List (List ℕ)
dither_16x16 =
    (0 ∷ 191 ∷ 48 ∷ 239 ∷ 12 ∷ 203 ∷ 60 ∷ 251 ∷ 3 ∷ 194 ∷ 51 ∷ 242 ∷ 15 ∷ 206 ∷ 63 ∷ 254 ∷ [])
    ∷ (127 ∷ 64 ∷ 175 ∷ 112 ∷ 139 ∷ 76 ∷ 187 ∷ 124 ∷ 130 ∷ 67 ∷ 178 ∷ 115 ∷ 142 ∷ 79 ∷ 190 ∷ 127
        ∷ [])
    ∷ (32 ∷ 223 ∷ 16 ∷ 207 ∷ 44 ∷ 235 ∷ 28 ∷ 219 ∷ 35 ∷ 226 ∷ 19 ∷ 210 ∷ 47 ∷ 238 ∷ 31 ∷ 222 ∷ [])
    ∷ (159 ∷ 96 ∷ 143 ∷ 80 ∷ 171 ∷ 108 ∷ 155 ∷ 92 ∷ 162 ∷ 99 ∷ 146 ∷ 83 ∷ 174 ∷ 111 ∷ 158 ∷ 95 ∷ [])
    ∷ (8 ∷ 199 ∷ 56 ∷ 247 ∷ 4 ∷ 195 ∷ 52 ∷ 243 ∷ 11 ∷ 202 ∷ 59 ∷ 250 ∷ 7 ∷ 198 ∷ 55 ∷ 246 ∷ [])
    ∷ (135 ∷ 72 ∷ 183 ∷ 120 ∷ 131 ∷ 68 ∷ 179 ∷ 116 ∷ 138 ∷ 75 ∷ 186 ∷ 123 ∷ 134 ∷ 71 ∷ 182 ∷ 119
        ∷ [])
    ∷ (40 ∷ 231 ∷ 24 ∷ 215 ∷ 36 ∷ 227 ∷ 20 ∷ 211 ∷ 43 ∷ 234 ∷ 27 ∷ 218 ∷ 39 ∷ 230 ∷ 23 ∷ 214 ∷ [])
    ∷ (167 ∷ 104 ∷ 151 ∷ 88 ∷ 163 ∷ 100 ∷ 147 ∷ 84 ∷ 170 ∷ 107 ∷ 154 ∷ 91 ∷ 166 ∷ 103 ∷ 150 ∷ 87
        ∷ [])
    ∷ (2 ∷ 193 ∷ 50 ∷ 241 ∷ 14 ∷ 205 ∷ 62 ∷ 253 ∷ 1 ∷ 192 ∷ 49 ∷ 240 ∷ 13 ∷ 204 ∷ 61 ∷ 252 ∷ [])
    ∷ (129 ∷ 66 ∷ 177 ∷ 114 ∷ 141 ∷ 78 ∷ 189 ∷ 126 ∷ 128 ∷ 65 ∷ 176 ∷ 113 ∷ 140 ∷ 77 ∷ 188 ∷ 125
        ∷ [])
    ∷ (34 ∷ 225 ∷ 18 ∷ 209 ∷ 46 ∷ 237 ∷ 30 ∷ 221 ∷ 33 ∷ 224 ∷ 17 ∷ 208 ∷ 45 ∷ 236 ∷ 29 ∷ 220 ∷ [])
    ∷ (161 ∷ 98 ∷ 145 ∷ 82 ∷ 173 ∷ 110 ∷ 157 ∷ 94 ∷ 160 ∷ 97 ∷ 144 ∷ 81 ∷ 172 ∷ 109 ∷ 156 ∷ 93 ∷ [])
    ∷ (10 ∷ 201 ∷ 58 ∷ 249 ∷ 6 ∷ 197 ∷ 54 ∷ 245 ∷ 9 ∷ 200 ∷ 57 ∷ 248 ∷ 5 ∷ 196 ∷ 53 ∷ 244 ∷ [])
    ∷ (137 ∷ 74 ∷ 185 ∷ 122 ∷ 133 ∷ 70 ∷ 181 ∷ 118 ∷ 136 ∷ 73 ∷ 184 ∷ 121 ∷ 132 ∷ 69 ∷ 180 ∷ 117
        ∷ [])
    ∷ (42 ∷ 233 ∷ 26 ∷ 217 ∷ 38 ∷ 229 ∷ 22 ∷ 213 ∷ 41 ∷ 232 ∷ 25 ∷ 216 ∷ 37 ∷ 228 ∷ 21 ∷ 212 ∷ [])
    ∷ (169 ∷ 106 ∷ 153 ∷ 90 ∷ 165 ∷ 102 ∷ 149 ∷ 86 ∷ 168 ∷ 105 ∷ 152 ∷ 89 ∷ 164 ∷ 101 ∷ 148 ∷ 85
        ∷ [])
    ∷ []

abbrev pub matrix_size : ℕ
matrix_size = 8

-- the threshold at `cur_offset` of a picture of that width
unfoldable pub threshold : ℕ → ℕ → ℕ
threshold width cur =
    get_or (get_or dither_16x16 (cur / width % matrix_size) []) (cur % width % matrix_size) 0

-- the comparisons of `write_vmem_3bit_dither`
unfoldable pub dithered : ℕ → ℕ → Rgb
dithered thr v = record {
  r = ltb ((thr + 4) / 8) (red v);
  g = ltb ((thr + 2) / 4) (green v);
  b = ltb ((thr + 4) / 8) (blue v);
}

-- the comparisons of `write_vmem_3bit`, whose `thr` is 8
unfoldable pub plain : ℕ → Rgb
plain v = record { r = leb (8 * 2) (red v); g = leb (8 * 4) (green v); b = leb (8 * 2) (blue v) }

abbrev pub colour_red : ℕ
colour_red = 4

abbrev pub colour_green : ℕ
colour_green = 2

abbrev pub colour_blue : ℕ
colour_blue = 8

abbrev pub code : Rgb → ℕ
code c =
    (if c.r then colour_red else 0)
    + (if c.g then colour_green else 0)
    + (if c.b then colour_blue else 0)

-- `txbuf[k]` after the six conditional ORs, whose bits are all different
unfoldable pub pack : Rgb → Rgb → ℕ
pack c d = code c * 8 + code d

-- what a byte on the bus says of its two pixels
abbrev pub unpack : ℕ → Rgb × Rgb
unpack n = (
  record { r = leb 1 (n / 32 % 2); g = leb 1 (n / 16 % 2); b = leb 1 (n / 64 % 2) },
  record { r = leb 1 (n / 4 % 2); g = leb 1 (n / 2 % 2); b = leb 1 (n / 8 % 2) },
)

abbrev rgb : Bool → Bool → Bool → Rgb
rgb r g b = record { r = r; g = g; b = b }

code_lt : (c : Rgb) → code c < 16
code_lt c = ground arith

code-rgb :
    (r g b : Bool) (n : ℕ)
    → n ≡ code (rgb r g b)
    → rgb (leb 1 (n / 4 % 2)) (leb 1 (n / 2 % 2)) (leb 1 (n / 8 % 2)) ≡ rgb r g b
code-rgb true true true n e = rw (e) refl
code-rgb true true false n e = rw (e) refl
code-rgb true false true n e = rw (e) refl
code-rgb true false false n e = rw (e) refl
code-rgb false true true n e = rw (e) refl
code-rgb false true false n e = rw (e) refl
code-rgb false false true n e = rw (e) refl
code-rgb false false false n e = rw (e) refl

code_even : (c : Rgb) → code c % 2 ≡ 0
code_even c = ground arith

abbrev bits : ℕ → Rgb
bits n = rgb (leb 1 (n / 4 % 2)) (leb 1 (n / 2 % 2)) (leb 1 (n / 8 % 2))

bits-code : (c : Rgb) → bits (code c) ≡ c
bits-code c = code-rgb c.r c.g c.b (code c) refl

module _ (a b : ℕ) (even : a % 2 ≡ 0) (small : b < 16) where
  upper : (a * 8 + b) / 32 % 2 ≡ a / 4 % 2
  upper = omega arith

  middle : (a * 8 + b) / 16 % 2 ≡ a / 2 % 2
  middle = omega arith

  top : (a * 8 + b) / 64 % 2 ≡ a / 8 % 2
  top = omega arith

  low_4 : (a * 8 + b) / 4 % 2 ≡ b / 4 % 2
  low_4 = omega arith

  low_2 : (a * 8 + b) / 2 % 2 ≡ b / 2 % 2
  low_2 = omega arith

  low_8 : (a * 8 + b) / 8 % 2 ≡ b / 8 % 2
  low_8 = omega arith

  unpack-bits : unpack (a * 8 + b) ≡ (bits a, bits b)
  unpack-bits = rw (upper, middle, top, low_4, low_2, low_8) refl

-- Both pixels of a packed byte can be read back from it, and a packed byte is below 128.
pub unpack-pack : (c d : Rgb) → (unpack (pack c d) ≡ (c, d)) × pack c d < 128
unfolding pack
unpack-pack c d = (
  unpack-bits (code c) (code d) (code_even c) (code_lt d)
      ∙ ap₂ (λ x y. (x, y)) (bits-code c) (bits-code d),
  omega (arith, code_lt c, code_lt d, code_even c),
)

-- A black pixel stays black.
pub dithered_black : (thr : ℕ) → dithered thr 0 ≡ rgb false false false
unfolding dithered
dithered_black thr = ground arith

ltb_grows : (t a b : ℕ) → a ≤ b → ltb t a ≡ true → ltb t b ≡ true
ltb_grows t a b h e = ground arith

-- At one place of the matrix, a channel that is at least as bright keeps its bit on.
pub dithered_grows :
    (thr v w : ℕ)
    → (red v ≤ red w → (dithered thr v).r ≡ true → (dithered thr w).r ≡ true)
      × (green v ≤ green w → (dithered thr v).g ≡ true → (dithered thr w).g ≡ true)
      × (blue v ≤ blue w → (dithered thr v).b ≡ true → (dithered thr w).b ≡ true)
unfolding dithered
dithered_grows thr v w = (
  λ h e. ltb_grows _ (red v) (red w) h e,
  λ h e. ltb_grows _ (green v) (green w) h e,
  λ h e. ltb_grows _ (blue v) (blue w) h e,
)

-- White comes out white exactly at thresholds below 244 (red and blue) and 250 (green).
pub dithered_white :
    (thr : ℕ)
    → thr < 256
    → ((dithered thr 0xFFFF).r ≡ ltb thr 244)
      × ((dithered thr 0xFFFF).g ≡ ltb thr 250)
      × ((dithered thr 0xFFFF).b ≡ ltb thr 244)
unfolding dithered
dithered_white thr h = (ground arith, ground arith, ground arith)

-- The display is 320 pixels wide, a line is 640 bytes, and `cur_offset` of an update that starts at
-- line `start` begins at `start * 640`. A pixel in column `x`, `y` lines below the start, is then
-- compared with the matrix row of line `2 * start + y`, not of its own line `start + y`.
threshold_phase :
    (start y x : ℕ)
    → x < 320
    → threshold 320 (start * 640 + (y * 320 + x))
      ≡ get_or (get_or dither_16x16 ((2 * start + y) % matrix_size) []) (x % matrix_size) 0
unfolding threshold
threshold_phase start y x h =
    let line : (start * 640 + (y * 320 + x)) / 320 ≡ 2 * start + y = omega arith in
    let column : (start * 640 + (y * 320 + x)) % 320 ≡ x = omega arith in rw (line, column) refl
