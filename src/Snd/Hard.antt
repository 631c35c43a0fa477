-- ===== src/Snd/Hard.antt =====
-- picocalc_snd-pwm/picocalc_snd_pwm.c: PCM samples played by a hardware PWM channel, which one
-- high-resolution timer reprograms at the sample rate. The PWM core is outside: a `pwm_config` is
-- an entry of the list `configs`, newest first.
mod Defs
mod Stream
mod Playback
mod Life
mod Pcm
mod PcmTests
mod PlaybackTests
mod Tests
unfoldable pub use Defs.*
pub use Stream.*
pub use Playback.*
