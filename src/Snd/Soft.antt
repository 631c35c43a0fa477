-- ===== src/Snd/Soft.antt =====
-- picocalc_snd-softpwm/picocalc_snd_softpwm.c: PCM samples played by toggling a GPIO from two
-- high-resolution timers. `tm1` starts each PWM cycle, `tm2` ends its high phase and fetches the
-- next sample. The timer core is outside: a timer is armed with its relative expiry, or not, and
-- which armed timer fires next is up to the environment.
mod Defs
mod Invariant
mod Stall
mod Cycle
mod Clock
mod Wave
mod Player
mod Playback
mod PlaybackTests
mod Life
mod Pcm
mod PcmTests
mod Tests
unfoldable pub use Defs.*
pub use Invariant.*
pub use Stall.*
unfoldable pub use Cycle.*
