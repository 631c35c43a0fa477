-- ===== src/Lcd/Race.antt =====
-- Drawing calls, mapped writes and the refresh of picocalc_lcd/ili9488_fb.c, interleaved.
mod Defs
mod Covered
mod Kept
mod Table
mod Moves
mod Takes
mod Quiet
mod Tests
unfoldable pub use Defs.*
pub use Quiet.*
