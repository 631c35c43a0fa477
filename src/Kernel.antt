-- ===== src/Kernel.antt =====
-- Code that calls the kernel in a chain and stops at the first call that fails: what a probe does.
-- A call's answer is a parameter of the probe, and its state says what the driver holds.
use meta_picocalc.Prelude.{ℕ, Bool, true, false, Result, ok, err}

-- The state is kept also where the code returns an error.
abbrev pub M : Type 0 → Type 0 → Type 0
M S A = S → S × Result A

module _ {S A B : Type 0} where
  abbrev pub and_then : S × Result A → (A → M S B) → S × Result B
  and_then (s, ok a) k = k a s
  and_then (s, err e) k = (s, err e)

  infixl 5 ◌>>=◌ ◌>>◌
  abbrev pub ◌>>=◌ : M S A → (A → M S B) → M S B
  ◌>>=◌ m k s = and_then (m s) k

  abbrev pub ◌>>◌ : M S A → M S B → M S B
  ◌>>◌ m k s = and_then (m s) (λ _. k)

module _ {S : Type 0} where
  abbrev pub done : M S (Unit {0})
  done s = (s, ok tt)

  abbrev pub change : (S → S) → M S (Unit {0})
  change f s = (f s, ok tt)

  -- a call that answers with a pointer or NULL, and the error that the driver makes of NULL
  abbrev pub ask_pointer : Bool → ℕ → M S (Unit {0})
  ask_pointer true e s = (s, ok tt)
  ask_pointer false e s = (s, err e)

-- a call that answers with a value or an error
abbrev pub ask : {S A : Type 0} → Result A → M S A
ask r s = (s, r)

abbrev pub is_ok : {A : Type 0} → Result A → Bool
is_ok (ok a) = true
is_ok (err e) = false

-- `goto error`: a clean-up after the first failure in a part of the code
module _ {S A : Type 0} (cleanup : S → S) where
  abbrev pub or_clean_up : S × Result A → S × Result A
  or_clean_up (s, ok a) = (s, ok a)
  or_clean_up (s, err e) = (cleanup s, err e)

  abbrev pub guarded : M S A → M S A
  guarded m s = or_clean_up (m s)
