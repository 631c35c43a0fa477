-- ===== src/Kbd/Legacy.antt =====
-- The stand-alone keyboard driver,
-- meta-picocalc-bsp-rockchip/recipes-kernel/linux/files/picocalc/picocalc_kbd/picocalc_kbd.c.
pub mod Codes
pub mod Defs
pub mod Shift
pub mod Keeps
pub mod Handler
mod Delivery
pub mod Reports
pub mod Declared
pub mod Sysfs
pub mod Life
mod Tests
mod LifeTests
mod DeliveryTests
