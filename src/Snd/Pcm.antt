-- ===== src/Snd/Pcm.antt =====
-- The PCM operations that picocalc_snd_softpwm.c and picocalc_snd_pwm.c have in common, and how the
-- sound core calls them: open, hw_params, prepare, trigger, hw_free, close, with timers in between.
pub mod Hardware
pub mod Session
pub mod Driver
pub mod Steps
pub mod Buffer
pub mod Kept
pub mod Safety
pub mod Overlap
pub mod Suspend
pub mod Silence
