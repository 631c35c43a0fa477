-- ===== src/Kbd/Mfd.antt =====
-- picocalc_mfd_kbd/picocalc_mfd_kbd.c: the keyboard as a child of the MFD.
mod Codes
mod Defs
mod Handler
mod Delivery
mod DeliveryTests
mod Mouse
mod Reports
mod Keys
mod Declared
mod Life
mod Tests
mod LifeTests
unfoldable pub use Codes.*
unfoldable pub use Defs.*
pub use Handler.*
pub use Mouse.*
pub use Reports.*
pub use Keys.*
pub use Declared.*
