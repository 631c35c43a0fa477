-- ===== src/Mfd.antt =====
-- The multi-function device and its children on the register map, under
-- meta-picocalc-bsp-rockchip/recipes-kernel/linux/files/picocalc: picocalc_mfd/picocalc_mfd.c,
-- picocalc_mfd_bms/picocalc_mfd_bms.c, picocalc_mfd_bkl/picocalc_mfd_bkl.c and
-- picocalc_mfd_led/picocalc_mfd_led.c.
pub mod Core
pub mod Battery
pub mod Backlight
pub mod Led
pub mod Children
pub mod Lights
pub mod Blanked
mod Tests
mod LightsTests
