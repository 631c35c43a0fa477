-- ===== src/Snd/Pcm/Session.antt =====
-- A substream as the sound core and a driver see it.
use meta_picocalc.Prelude.{none, some, ℕ, Bool, Option, List, false, true, [], Result, ok, err}
use meta_picocalc.Snd.Cursor.{Runtime}
use meta_picocalc.Snd.Pcm.Hardware.{Hardware, Params, buffer_size}

-- `snd_pcm_lib_malloc_pages`: the buffer that the substream then has, or an error
abbrev pub Pages : Type 0
Pages = ℕ → Result (List ℕ)

-- SNDRV_PCM_STATE_*, and `closed` before the open; a stream that was stopped is set up
pub data State : Type 0 where
  closed opened setup prepared running : State

-- the core holds a buffer for it
abbrev pub has_buffer : State → Bool
has_buffer closed = false
has_buffer opened = false
has_buffer setup = true
has_buffer prepared = true
has_buffer running = true

abbrev pub is_running : State → Bool
is_running running = true
is_running closed = false
is_running opened = false
is_running setup = false
is_running prepared = false

abbrev pub is_closed : State → Bool
is_closed closed = true
is_closed opened = false
is_closed setup = false
is_closed prepared = false
is_closed running = false

-- `hw`, `dma_area` and the sizes are fields of `ss->runtime`, which the core keeps from the open to
-- the close; `ss` says whether the driver has stored the substream.
pub record Session (Dev : Type 0) : Type 0 where
  pub dev : Dev
  pub ss : Bool
  pub state : State
  pub hw : Option Hardware
  pub dma_area : Option (List ℕ)
  pub buffer_size : ℕ
  pub period_size : ℕ

abbrev pub area_of : Option (List ℕ) → List ℕ
area_of none = []
area_of (some area) = area

module _ {Dev : Type 0} where
  -- what the timer callbacks read
  abbrev pub runtime : Session Dev → Runtime
  runtime s = record {
    dma_area = area_of s.dma_area;
    buffer_size = s.buffer_size;
    period_size = s.period_size;
  }

  -- the core sets the sizes after a hw_params that succeeds
  abbrev pub sized : Params → Session Dev → Session Dev
  sized p s = record s { state = setup; buffer_size = buffer_size p; period_size = p.period_size }

  -- `snd_pcm_lib_malloc_pages` with its answer, and `snd_pcm_lib_free_pages`
  abbrev pub malloc_pages : Session Dev → Result (List ℕ) → Session Dev × Result (Unit {0})
  malloc_pages s (ok area) = (record s { dma_area = some area }, ok tt)
  malloc_pages s (err e) = (s, err e)

  abbrev pub free_pages : Session Dev → Session Dev × Result (Unit {0})
  free_pages s = (record s { dma_area = none }, ok tt)
