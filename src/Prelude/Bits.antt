-- ===== src/Prelude/Bits.antt =====
-- Laws of the bitwise or of disjoint fields, for every width, and exhaustive tables for bytes.
pub use Prim.Native.Nat.{bit_or}
use Prim.Native.Nat.{ℕ, zero, suc, ◌+◌, ◌*◌, ◌/◌, ◌%◌, ◌^◌, ◌≤◌, ◌<◌, max, digits, bit_or-bitwise}
use mathlib.Core.Path.{◌≡◌, refl, ap, ◌∙◌}
use mathlib.Core.Bool.{Bool, true, false, ◌&&◌}
use native.Mathlib.Decide.{dec_lt}
use native.Mathlib.Nat.{pow-suc}
use native.Mathlib.Omega.{arith}

-- `(x & mask) >> lo`, where `mask` has `n` ones from bit `lo` on
abbrev pub field : ℕ → ℕ → ℕ → ℕ
field x lo n = x / 2 ^ lo % 2 ^ n

-- a test of the `n` numbers from `i` on
unfoldable pub holds_from : (ℕ → Bool) → ℕ → ℕ → Bool
holds_from test i zero = true
holds_from test i (suc n) = test i && holds_from test (i + 1) n

both : (b c : Bool) → (b && c) ≡ true → (b ≡ true) × (c ≡ true)
both true true e = (refl, refl)
both true false e = (refl, e)
both false true e = (e, refl)
both false false e = (e, e)

pub holds_from_sound :
    (test : ℕ → Bool) (i n x : ℕ) → holds_from test i n ≡ true → i ≤ x → x < i + n → test x ≡ true
unfolding holds_from
holds_from_sound test i zero x e l h = absurd (omega arith)
holds_from_sound test i (suc n) x e l h =
    let (here, rest) = both (test i) (holds_from test (i + 1) n) e in
    elim (dec_lt i x) [
      | yes k ↦ holds_from_sound test (i + 1) n x rest (omega arith) (omega arith)
      | no k ↦ ap test (omega arith) ∙ here
    ]

abbrev or_digits : ℕ → ℕ → ℕ → ℕ
or_digits n a b = digits (λ y. y) max n a b

-- Fuel beyond the first operand changes nothing.
or_digits_fuel : (n m a b : ℕ) → a ≤ n → a ≤ m → or_digits n a b ≡ or_digits m a b
or_digits_fuel zero zero a b p q = refl
or_digits_fuel (suc n) (suc m) zero b p q = refl
or_digits_fuel zero (suc m) zero b p q = refl
or_digits_fuel (suc n) zero zero b p q = refl
or_digits_fuel zero m (suc a) b p q = absurd (omega arith)
or_digits_fuel (suc n) zero (suc a) b p q = absurd (omega arith)
or_digits_fuel (suc n) (suc m) (suc a) b p q =
    ap (λ t. t * 2 + max (suc a % 2) (b % 2))
      (or_digits_fuel n m (suc a / 2) (b / 2) (omega arith) (omega arith))

-- The lowest digit of an or is the or of the lowest digits.
bit_or-lowest : (a b : ℕ) → bit_or a b ≡ bit_or (a / 2) (b / 2) * 2 + max (a % 2) (b % 2)
bit_or-lowest zero b = omega (arith, bit_or-bitwise 0 b, bit_or-bitwise 0 (b / 2))
bit_or-lowest (suc a) b =
    let half = suc a / 2 in
    let less = or_digits_fuel a half half (b / 2) (omega arith) (omega arith) in
    omega (arith, less, bit_or-bitwise half (b / 2), bit_or-bitwise (suc a) b)

bit_or-zero_below : (n a : ℕ) → a ≤ n → bit_or a 0 ≡ a
bit_or-zero_below n zero h = refl
bit_or-zero_below zero (suc a) h = absurd (omega arith)
bit_or-zero_below (suc n) (suc a) h =
    omega (arith, bit_or-lowest (suc a) 0, bit_or-zero_below n (suc a / 2) (omega arith))

-- `(hi << k) | lo` is a sum when `lo` fits in `k` bits.
pub bit_or-shifted : (k hi lo : ℕ) → lo < 2 ^ k → bit_or (hi * 2 ^ k) lo ≡ hi * 2 ^ k + lo
bit_or-shifted zero hi lo h =
    ground (arith, bit_or-zero_below (hi * 2 ^ 0) (hi * 2 ^ 0) (omega arith))
bit_or-shifted (suc k) hi lo h = omega (
  arith,
  ap (λ (t : ℕ). hi * t) (pow-suc 2 k),
  pow-suc 2 k,
  bit_or-lowest (hi * 2 ^ suc k) lo,
  halves,
  bit_or-shifted k hi (lo / 2) (omega (arith, pow-suc 2 k)),
)
  where
    halves : bit_or (hi * 2 ^ suc k / 2) (lo / 2) ≡ bit_or (hi * 2 ^ k) (lo / 2)
    halves = ap (λ t. bit_or t (lo / 2)) (omega (arith, ap (λ (t : ℕ). hi * t) (pow-suc 2 k)))
