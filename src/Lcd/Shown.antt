-- ===== src/Lcd/Shown.antt =====
-- What the panel has last been sent for each line, against the memory, over drawing, mapped writes
-- and refreshes of picocalc_lcd/ili9488_fb.c in every mode.
mod Defs
mod Encode
mod Rows
mod Sent
mod Faithful
mod Boot
mod Tests
unfoldable pub use Defs.*
pub use Sent.*
pub use Faithful.*
