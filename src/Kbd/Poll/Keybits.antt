-- ===== src/Kbd/Poll/Keybits.antt =====
-- What the input device declares of a table: every code of it but KEY_RESERVED.
use meta_picocalc.Prelude.{
  ℕ, zero, suc, ◌%◌, ◌<◌, ◌≡◌, ◌≢◌, refl, arith, Bool, true, false, List, [], ◌∷◌, get_or, ltb,
  if◌then◌else◌,
}
use meta_picocalc.Kbd.Poll.Defs.{set_bit, set_bits, capabilities}

-- `keycodes[scancode]`
abbrev pub lookup : List ℕ → ℕ → ℕ
lookup t s = get_or t s 0

-- every code fits the byte that the event handler puts it in
abbrev pub AllBytes : List ℕ → Type 0
AllBytes [] = Unit
AllBytes (k ∷ ks) = (k < 256) × AllBytes ks

abbrev pub are_bytes : List ℕ → Bool
are_bytes [] = true
are_bytes (k ∷ ks) = if ltb k 256 then are_bytes ks else false

pub are_bytes-AllBytes : (t : List ℕ) → are_bytes t ≡ true → AllBytes t
are_bytes-AllBytes [] h = tt
are_bytes-AllBytes (k ∷ ks) h = (ground (arith, h), are_bytes-AllBytes ks (ground (arith, h)))

lookup_byte : (t : List ℕ) (s : ℕ) → AllBytes t → lookup t s < 256
lookup_byte [] s h = omega arith
lookup_byte (k ∷ ks) zero h = h.0
lookup_byte (k ∷ ks) (suc s) h = lookup_byte ks s h.1

set_bits_keep : (ks : List ℕ) (f : ℕ → Bool) (k : ℕ) → f k ≡ true → set_bits ks f k ≡ true
set_bits_keep [] f k h = h
set_bits_keep (x ∷ xs) f k h = set_bits_keep xs (set_bit x true f) k (ground (arith, h))

set_bits-lookup :
    (t : List ℕ) (f : ℕ → Bool) (s : ℕ) → lookup t s ≢ 0 → set_bits t f (lookup t s) ≡ true
set_bits-lookup [] f s h = absurd (h refl)
set_bits-lookup (k ∷ ks) f zero h = set_bits_keep ks (set_bit k true f) k (ground arith)
set_bits-lookup (k ∷ ks) f (suc s) h = set_bits-lookup ks (set_bit k true f) s h

pub capabilities_left : (t : List ℕ) → capabilities t 0x110 ≡ true
unfolding capabilities
capabilities_left t = refl

pub capabilities_right : (t : List ℕ) → capabilities t 0x111 ≡ true
unfolding capabilities
capabilities_right t = refl

declared_code : (t : List ℕ) (s : ℕ) → lookup t s ≢ 0 → capabilities t (lookup t s) ≡ true
unfolding capabilities
declared_code t s z = ground (arith, set_bits-lookup t (λ _. false) s z)

pub capabilities_declare :
    (t : List ℕ)
    → AllBytes t
    → (s : ℕ) → lookup t s % 256 ≢ 0
    → capabilities t (lookup t s % 256) ≡ true
capabilities_declare t h s z =
    let e : lookup t s % 256 ≡ lookup t s = omega (arith, lookup_byte t s h) in
    rw e (declared_code t s (rw e at z))
