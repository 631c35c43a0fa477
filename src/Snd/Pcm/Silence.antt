-- ===== src/Snd/Pcm/Silence.antt =====
-- Buffers of silence, and parameters that both drivers allow, for the tests.
use meta_picocalc.Prelude.{
  true, false, zero, suc, ℕ, replicate, length-replicate, if◌then◌else◌, Bool, List, arith, err,
  ◌≡◌, ltb, ok, enomem, ◌≤◌, length, subst,
}
use meta_picocalc.Snd.Cursor.{IsBytes}
use meta_picocalc.Snd.Pcm.Hardware.{Params}
use meta_picocalc.Snd.Pcm.Session.{Pages}

-- a buffer as long as asked, up to 8192 bytes
abbrev pub silence : Pages
silence n = if ltb 8192 n then err enomem else ok (replicate n 128)

bytes : (n : ℕ) → IsBytes (replicate n 128)
bytes zero = tt
bytes (suc n) = (omega arith, bytes n)

given :
    (b : Bool) (n : ℕ) (area : List ℕ)
    → (if b then err enomem else ok (replicate n 128)) ≡ ok area
    → (n ≤ length area) × IsBytes area
given true n area e = absurd cc
given false n area e =
    let same : replicate n 128 ≡ area = cc in
    subst (λ t. (n ≤ length t) × IsBytes t) same
      (omega (arith, length-replicate {A = ℕ} n 128), bytes n)

pub silence_enough :
    (n : ℕ) (area : List ℕ) → silence n ≡ ok area → (n ≤ length area) × IsBytes area
silence_enough n area e = given (ltb 8192 n) n area e

abbrev pub params : Params
params = record { rate = 8000; channels = 1; period_size = 4; periods = 4 }
