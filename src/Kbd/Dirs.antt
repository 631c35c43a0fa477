-- ===== src/Kbd/Dirs.antt =====
-- The byte `mouse_move_dir`: one bit for each arrow key that is held in mouse mode.
use Prim.Native.Nat.{bit_and, bit_or}
use meta_picocalc.Prelude.{
  ℕ, ◌-◌, ◌<◌, ◌≡◌, refl, arith, Bool, true, false, ◌&&◌, ◌||◌, not, ltb, ◌==◌,
}
use meta_picocalc.Prelude.Bits.{holds_from, holds_from_sound}

pub data Dir : Type 0 where
  left right up down : Dir

-- MOUSE_MOVE_LEFT and so on
abbrev pub mask : Dir → ℕ
mask left = 2
mask right = 4
mask up = 8
mask down = 16

-- `dir & m`, as a test
unfoldable pub has : ℕ → ℕ → Bool
has d m = not (bit_and d m == 0)

-- `dir |= m` and `dir &= ~m` on a `uint8_t`
unfoldable pub raise : ℕ → ℕ → ℕ
raise d m = bit_or d m

unfoldable pub lower : ℕ → ℕ → ℕ
lower d m = bit_and d (255 - m)

abbrev pub same : Dir → Dir → Bool
same left left = true
same right right = true
same up up = true
same down down = true
same _ _ = false

abbrev agree : Bool → Bool → Bool
agree true b = b
agree false b = not b

agree→eq : (a b : Bool) → agree a b ≡ true → a ≡ b
agree→eq a b h = ground arith

abbrev every : (Dir → Bool) → Bool
every f = f left && f right && f up && f down

every_sound : (f : Dir → Bool) → every f ≡ true → (a : Dir) → f a ≡ true
every_sound f h left = ground arith
every_sound f h right = ground arith
every_sound f h up = ground arith
every_sound f h down = ground arith

abbrev raise_ok : ℕ → Dir → Dir → Bool
raise_ok d a b = agree (has (raise d (mask a)) (mask b)) (same a b || has d (mask b))

abbrev lower_ok : ℕ → Dir → Dir → Bool
lower_ok d a b = agree (has (lower d (mask a)) (mask b)) (not (same a b) && has d (mask b))

-- every byte and every pair of keys
raise_table : holds_from (λ d. every (λ a. every (raise_ok d a))) 0 256 ≡ true
unfolding holds_from has raise
raise_table = refl

lower_table : holds_from (λ d. every (λ a. every (lower_ok d a))) 0 256 ≡ true
unfolding holds_from has lower
lower_table = refl

range_table :
    holds_from (λ d. every (λ a. ltb (raise d (mask a)) 256 && ltb (lower d (mask a)) 256)) 0 256
    ≡ true
unfolding holds_from raise lower
range_table = refl

-- Setting one key's bit sets that bit and keeps the others.
pub has-raise :
    (d : ℕ) (a b : Dir) → d < 256 → has (raise d (mask a)) (mask b) ≡ (same a b || has d (mask b))
has-raise d a b h = agree→eq _ _ (
    every_sound (raise_ok d a)
      (every_sound (λ a. every (raise_ok d a))
        (holds_from_sound _ 0 256 d raise_table (omega arith) h) a)
      b)

-- Clearing one key's bit clears that bit and keeps the others.
pub has-lower :
    (d : ℕ) (a b : Dir)
    → d < 256
    → has (lower d (mask a)) (mask b) ≡ (not (same a b) && has d (mask b))
has-lower d a b h = agree→eq _ _ (
    every_sound (lower_ok d a)
      (every_sound (λ a. every (lower_ok d a))
        (holds_from_sound _ 0 256 d lower_table (omega arith) h) a)
      b)

pub dir_range : (d : ℕ) (a : Dir) → d < 256 → (raise d (mask a) < 256) × (lower d (mask a) < 256)
dir_range d a h = ground (
  arith,
  every_sound (λ a. ltb (raise d (mask a)) 256 && ltb (lower d (mask a)) 256)
      (holds_from_sound _ 0 256 d range_table (omega arith) h) a,
)
