-- ===== src/Kbd/Poll.antt =====
-- What the two keyboard drivers share around their handlers: `input_probe`, `kbd_timer_function` and
-- `input_shutdown`, over the context `C` of the driver.
pub mod Defs
pub mod Keybits
pub mod Bound
pub mod Races
