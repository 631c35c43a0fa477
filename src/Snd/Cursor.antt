-- ===== src/Snd/Cursor.antt =====
-- What the sound drivers share: the PCM runtime of the sound core as they read it, and the ring
-- cursor `if (++p >= size) p = 0` of their timer callbacks.
use native.Mathlib.Decide.{dec_lt}
use native.Mathlib.Nat.{mod-eq_of_lt, mod_self}
use meta_picocalc.Prelude.{
  ℕ, zero, suc, ◌+◌, ◌%◌, ◌^◌, ◌≤◌, ◌<◌, ◌≡◌, ap, ◌⊎◌, List, [], ◌∷◌, arith, leb, if◌then◌else◌,
  get_or, Bool, true, false,
}

-- the fields of `snd_pcm_runtime` that a callback reads; a sample is a byte (SNDRV_PCM_FMTBIT_U8,
-- mono)
pub record Runtime : Type 0 where
  pub dma_area : List ℕ
  pub buffer_size : ℕ
  pub period_size : ℕ

abbrev pub u32 : ℕ → ℕ
u32 n = n % 2 ^ 32

-- `SNDRV_PCM_TRIGGER_*`; `other` stands for every command that falls to the default
pub data Cmd : Type 0 where
  start stop other : Cmd

-- `++p >= size` sets `p` to 0
unfoldable pub bump : ℕ → ℕ → ℕ
bump p size = let q = u32 (p + 1) in if leb size q then 0 else q

-- whether the increment came round
unfoldable pub came_round : ℕ → ℕ → Bool
came_round p size = leb size (u32 (p + 1))

abbrev pub IsBytes : List ℕ → Type 0
IsBytes [] = Unit
IsBytes (x ∷ xs) = (x < 256) × IsBytes xs

pub IsBytes-get_or : (xs : List ℕ) (i : ℕ) → IsBytes xs → get_or xs i 0 < 256
IsBytes-get_or [] i h = omega arith
IsBytes-get_or (x ∷ xs) zero h = h.0
IsBytes-get_or (x ∷ xs) (suc i) h = IsBytes-get_or xs i h.1

-- what the sound core guarantees of a prepared stream: sizes are positive and fit the hardware limits
pub record IsPrepared (rt : Runtime) : Type 0 where
  pub bytes : IsBytes rt.dma_area
  pub some_buffer : 0 < rt.buffer_size
  pub small_buffer : rt.buffer_size ≤ 2 ^ 13
  pub some_period : 0 < rt.period_size
  pub small_period : rt.period_size ≤ 2 ^ 12

pub bump-lt : (p size : ℕ) → 0 < size → bump p size < size
unfolding bump
bump-lt p size h = ground arith

-- Inside a ring of at most 2^31 places the cursor counts modulo its size.
pub bump-eq-mod : (p size : ℕ) → p < size → size ≤ 2 ^ 31 → bump p size ≡ (p + 1) % size
unfolding bump
bump-eq-mod p size h k = elim (dec_lt (p + 1) size) [
  | yes q ↦ ground (arith, mod-eq_of_lt q)
  | no q ↦
      let full : p + 1 ≡ size = omega arith in
      ground (arith, mod_self size, ap (λ (t : ℕ). t % size) full)
]

pub bump-came_round :
    (p size : ℕ)
    → p < size
    → size ≤ 2 ^ 31
    → ((came_round p size ≡ true) × (bump p size ≡ 0) × (p + 1 ≡ size))
      ⊎ ((came_round p size ≡ false) × (bump p size ≡ p + 1))
unfolding bump came_round
bump-came_round p size h k = ground arith
