-- ===== src/Prelude/Outcome.antt =====
-- What a kernel call returns: a value, or the errno that the C code carries as a negative number.
use Prim.Native.Nat.{ℕ}

pub data Result {ℓ} (A : Type ℓ) : Type ℓ where
  ok : A → Result A
  err : ℕ → Result A

-- errno values that the drivers return themselves (Linux ABI)
abbrev pub einval : ℕ
einval = 22

abbrev pub enomem : ℕ
enomem = 12

abbrev pub eio : ℕ
eio = 5
