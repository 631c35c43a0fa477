-- ===== src/Lcd/Grey.antt =====
-- A grey screen, set up as the probe of picocalc_lcd/ili9488_fb.c does it, for the tests.
use meta_picocalc.Prelude.{ℕ, refl, arith, false, some, replicate, length-replicate}
use meta_picocalc.Lcd.Panel.{Par}
use meta_picocalc.Lcd.Update.{IsReady}

abbrev pub grey : Par
grey = record {
  vmem = replicate 102400 0x8410;
  txbuf = some (replicate 307200 0);
  txbuf_len = 307200;
  xres = 320;
  yres = 320;
  line_length = 640;
  p_3bit_mode = false;
  p_dither = false;
  dirty_lines_start = 319;
  dirty_lines_end = 0;
}

pub grey-IsReady : IsReady grey
grey-IsReady = record {
  width = refl;
  height = refl;
  line = refl;
  size = refl;
  buffered = record {
    buf = replicate 307200 0;
    there = refl;
    size = length-replicate {A = ℕ} 307200 0;
    room = omega arith;
  };
}
