-- ===== src/Lcd/Dirty.antt =====
-- Which lines are to be sent: the dirty range of
-- meta-picocalc-bsp-rockchip/recipes-kernel/linux/files/picocalc/picocalc_lcd/ili9488_fb.c.
pub mod Defs
pub mod Covers
pub mod Draw
