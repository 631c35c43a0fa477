-- ===== src/Snd.antt =====
-- The two sound drivers: picocalc_snd-softpwm (a GPIO driven by two timers) and picocalc_snd-pwm
-- (a hardware PWM channel and one timer). Both walk the same PCM ring, sample by sample.
pub mod Cursor
pub mod Ring
pub mod Pcm
pub mod Register
pub mod Soft
pub mod Hard
