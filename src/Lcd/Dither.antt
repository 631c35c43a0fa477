-- ===== src/Lcd/Dither.antt =====
-- The 3-bit modes: `write_vmem_3bit_dither` and `write_vmem_3bit` of
-- meta-picocalc-bsp-rockchip/recipes-kernel/linux/files/picocalc/picocalc_lcd/ili9488_fb.c.
pub mod Colour
pub mod Small
pub mod Pack
pub mod Stream
