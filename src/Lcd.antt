-- ===== src/Lcd.antt =====
-- picocalc_lcd/ili9488_fb.c: a frame buffer in memory, refreshed over SPI to an ILI9488 panel.
-- Output to the panel is a list of GPIO levels, SPI transfers and delays, in order.
pub mod Panel
pub mod Command
pub mod Vmem
pub mod Dither
pub mod Update
pub mod Dirty
pub mod Palette
pub mod Gray
pub mod Probe
pub mod Grey
pub mod Shown
pub mod Race
pub mod ProbeTests
pub mod Tests
