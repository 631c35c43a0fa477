-- ===== src/Snd/Pcm/Buffer.antt =====
-- Which states of a substream hold a buffer, and that it is fit to be played.
use meta_picocalc.Prelude.{ℕ, refl, List, ◌≡◌, some, ◌≤◌, length, false, true, Bool}
use mathlib.Core.Option.{Option}
use meta_picocalc.Snd.Cursor.{Runtime, IsPrepared}
use meta_picocalc.Snd.Pcm.Session.{
  State, closed, opened, setup, prepared, running, has_buffer, is_running, is_closed,
}

-- the buffer holds as many bytes as the runtime says, and the runtime is fit to be played
pub record HasBuffer (dma_area : Option (List ℕ)) (rt : Runtime) : Type 0 where
  pub area : List ℕ
  pub there : dma_area ≡ some area
  pub room : rt.buffer_size ≤ length area
  pub fit : IsPrepared rt

pub running_has_buffer : (st : State) → is_running st ≡ true → has_buffer st ≡ true
running_has_buffer running e = refl
running_has_buffer closed e = cc
running_has_buffer opened e = cc
running_has_buffer setup e = refl
running_has_buffer prepared e = refl

pub buffer_not_closed : (st : State) → has_buffer st ≡ true → is_closed st ≡ false
buffer_not_closed closed e = cc
buffer_not_closed opened e = refl
buffer_not_closed setup e = refl
buffer_not_closed prepared e = refl
buffer_not_closed running e = refl

pub running_not_closed : (st : State) → is_running st ≡ true → is_closed st ≡ false
running_not_closed st e = buffer_not_closed st (running_has_buffer st e)

pub running_only : (st : State) → is_running st ≡ true → st ≡ running
running_only running e = refl
running_only closed e = cc
running_only opened e = cc
running_only setup e = cc
running_only prepared e = cc

pub must_run : (b on : Bool) → (b ≡ false → on ≡ false) → on ≡ true → b ≡ true
must_run true on h e = refl
must_run false on h e = let o = h refl in cc
