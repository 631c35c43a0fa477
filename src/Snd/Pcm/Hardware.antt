-- ===== src/Snd/Pcm/Hardware.antt =====
-- `struct snd_pcm_hardware`, and the parameters that the sound core lets through for it.
use meta_picocalc.Prelude.{zero, suc, ℕ, ◌≡◌, ◌≤◌, List, ◌*◌, ◌<◌}
use native.Mathlib.Nat.{suc-mul}
use meta_picocalc.Snd.Cursor.{Runtime, IsBytes, IsPrepared}
use meta_picocalc.Prelude.{◌^◌, arith}

pub data Info : Type 0 where
  mmap mmap_valid interleaved half_duplex : Info

pub data Format : Type 0 where
  fmtbit_u8 : Format

pub record Hardware : Type 0 where
  pub info : List Info
  pub formats : List Format
  pub rates : List ℕ
  pub rate_min : ℕ
  pub rate_max : ℕ
  pub channels_min : ℕ
  pub channels_max : ℕ
  pub buffer_bytes_max : ℕ
  pub period_bytes_min : ℕ
  pub period_bytes_max : ℕ
  pub periods_min : ℕ
  pub periods_max : ℕ

-- what user space settles on with the sound core; a sample is one byte in every format above
pub record Params : Type 0 where
  pub rate : ℕ
  pub channels : ℕ
  pub period_size : ℕ
  pub periods : ℕ

abbrev pub period_bytes : Params → ℕ
period_bytes p = p.period_size * p.channels

abbrev pub buffer_size : Params → ℕ
buffer_size p = p.periods * p.period_size

-- `params_buffer_bytes`
abbrev pub buffer_bytes : Params → ℕ
buffer_bytes p = buffer_size p * p.channels

-- The sound core refuses parameters outside the limits of the hardware.
pub record IsAllowed (hw : Hardware) (p : Params) : Type 0 where
  pub rate_from : hw.rate_min ≤ p.rate
  pub rate_to : p.rate ≤ hw.rate_max
  pub channels_from : hw.channels_min ≤ p.channels
  pub channels_to : p.channels ≤ hw.channels_max
  pub buffer_to : buffer_bytes p ≤ hw.buffer_bytes_max
  pub period_from : hw.period_bytes_min ≤ period_bytes p
  pub period_to : period_bytes p ≤ hw.period_bytes_max
  pub periods_from : hw.periods_min ≤ p.periods
  pub periods_to : p.periods ≤ hw.periods_max

-- the limits on which the drivers' arithmetic rests
pub record IsSmall (hw : Hardware) : Type 0 where
  pub mono_from : hw.channels_min ≡ 1
  pub mono_to : hw.channels_max ≡ 1
  pub buffer : hw.buffer_bytes_max ≤ 2 ^ 13
  pub some_period : 0 < hw.period_bytes_min
  pub period : hw.period_bytes_max ≤ 2 ^ 12
  pub some_periods : 0 < hw.periods_min

abbrev pub runtime_of : List ℕ → Params → Runtime
runtime_of area p = record {
  dma_area = area;
  buffer_size = buffer_size p;
  period_size = p.period_size;
}

product_positive : (a b : ℕ) → 0 < a → 0 < b → 0 < a * b
product_positive zero b h k = absurd (omega arith)
product_positive (suc a) b h k = omega (arith, suc-mul a b)

module _ (hw : Hardware) (p : Params) (small : IsSmall hw) (allowed : IsAllowed hw p) where
  mono : p.channels ≡ 1
  mono = omega (arith, small, allowed)

  pub buffer_bytes_mono : buffer_bytes p ≡ buffer_size p
  buffer_bytes_mono = rw mono (omega arith)

  period_bytes_mono : period_bytes p ≡ p.period_size
  period_bytes_mono = rw mono (omega arith)

  positive : 0 < buffer_size p
  positive =
      product_positive p.periods p.period_size (omega (arith, small, allowed))
        (omega (arith, small, allowed, period_bytes_mono))

  pub runtime_of-IsPrepared : (area : List ℕ) → IsBytes area → IsPrepared (runtime_of area p)
  runtime_of-IsPrepared area b = record {
    bytes = b;
    some_buffer = positive;
    small_buffer = omega (arith, small, allowed, buffer_bytes_mono);
    some_period = omega (arith, small, allowed, period_bytes_mono);
    small_period = omega (arith, small, allowed, period_bytes_mono);
  }
