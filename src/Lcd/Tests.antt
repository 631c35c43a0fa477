-- ===== src/Lcd/Tests.antt =====
-- The display driver on small concrete inputs.
use meta_picocalc.Prelude.{
  ℕ, ◌+◌, ◌≡◌, refl, arith, List, [], ◌∷◌, ◌++◌, some, true, false, replicate, length-replicate,
  ◌≤◌, map, ◌*◌, ◌<◌, length, ◌-◌, get_or,
}
use meta_picocalc.Prelude.Bits.{field}
use meta_picocalc.Lcd.Panel.{Par, Out, gpio, cs, dc, payload}
use meta_picocalc.Lcd.Command.{set_addr_win}
use meta_picocalc.Lcd.Vmem.Loop.{send_loop}
use meta_picocalc.Lcd.Vmem.Ends.{send_loop_ends}
use meta_picocalc.Lcd.Vmem.Stream.{round16, write_vmem, refilled, write_vmem_streams, IsBuffered}
use meta_picocalc.Lcd.Dither.Pack.{pairs, q_dither}
use meta_picocalc.Lcd.Dither.Stream.{write_3bit, write_3bit_streams}
use meta_picocalc.Lcd.Update.{IsReady, picture, update_display, update_display_lem}
use meta_picocalc.Lcd.Dirty.Defs.{Fb, deferred_io}
use meta_picocalc.Lcd.Dirty.Covers.{
  deferred_io_lem, IsReady-marked, IsMarked, IsWithin, IsInPages, whole_screen,
}
use meta_picocalc.Lcd.Dirty.Draw.{Draw}
use meta_picocalc.Lcd.Palette.{setcolreg, is_rgb565, setcolreg_lem, Info, truecolor}
use meta_picocalc.Prelude.{◌/◌, ◌≢◌, ◌⊎◌, none}

-- A buffer of 12 bytes takes four pixels at once.
abbrev small : Par
small = record {
  vmem = 0xF800 ∷ 0x07E0 ∷ 0x001F ∷ 0xFFFF ∷ 0x1234 ∷ 0x4321 ∷ [];
  txbuf = some (replicate 12 0);
  txbuf_len = 12;
  xres = 320;
  yres = 320;
  line_length = 640;
  p_3bit_mode = true;
  p_dither = true;
  dirty_lines_start = 319;
  dirty_lines_end = 0;
}

small-IsBuffered : IsBuffered small
small-IsBuffered = record { buf = replicate 12 0; there = refl; size = refl; room = omega arith }

-- six pixels in batches of four
send_loop_ends_example :
    ((s : List ℕ) × (outs : List Out) × (send_loop (round16 small.vmem) 7 4 0 6 (replicate 12 0)
        ≡ some (s, outs))
      × (6 ≤ length outs * 4)
      × ((outs ≡ []) ⊎ (length outs * 4 < 6 + 4)))
    ⊎ ((◌≡◌ {A = ℕ} 4 0)
        × (0 < 6)
        × ((g : ℕ) → send_loop (round16 small.vmem) g 4 0 6 (replicate 12 0) ≡ none))
send_loop_ends_example = send_loop_ends (round16 small.vmem) 7 4 0 6 (replicate 12 0) (omega arith)

-- the state after the probe, with a memory of 102400 grey pixels
abbrev screen : Par
screen = record {
  vmem = replicate 102400 0x8410;
  txbuf = some (replicate 307200 0);
  txbuf_len = 307200;
  xres = 320;
  yres = 320;
  line_length = 640;
  p_3bit_mode = true;
  p_dither = true;
  dirty_lines_start = 319;
  dirty_lines_end = 0;
}

screen-IsReady : IsReady screen
screen-IsReady = record {
  width = refl;
  height = refl;
  line = refl;
  size = refl;
  buffered = record {
    buf = replicate 307200 0;
    there = refl;
    size = length-replicate {A = ℕ} 307200 0;
    room = omega arith;
  };
}

-- the work pending after a write through a mapping, with lines 5 to 9 marked
abbrev pending : Fb
pending = record {
  par = record screen { dirty_lines_start = 5; dirty_lines_end = 9 };
  deferred_work = true;
}

pending-IsReady : IsReady pending.par
pending-IsReady = IsReady-marked screen screen.vmem 5 9 screen-IsReady

-- two calls: one clears the memory, the other scrolls it by a line
abbrev calls : List Draw
calls =
    ((λ v. map (λ _. 0) v), record { dy = 10; height = 20 })
    ∷ ((λ v. v ++ (0 ∷ [])), record { dy = 0; height = 320 })
    ∷ []

abbrev info : Info
info = is_rgb565 (record {
  visual = truecolor;
  red = record { offset = 0; len = 8 };
  green = record { offset = 0; len = 8 };
  blue = record { offset = 0; len = 8 };
  transp = record { offset = 0; len = 0 };
  pseudo_palette = replicate 16 7;
})

write_vmem_streams_example :
    (buf : List ℕ) × (outs : List Out) × (write_vmem small 2 10
      ≡ some (refilled small buf, gpio dc 1 ∷ outs))
    × (payload outs ≡ 0x07 ∷ 0xE0 ∷ 0x00 ∷ 0x1F ∷ 0xFF ∷ 0xFF ∷ 0x12 ∷ 0x34 ∷ 0x43 ∷ 0x21 ∷ [])
    × (length buf ≡ 12)
write_vmem_streams_example = write_vmem_streams small 2 10 small-IsBuffered

write_3bit_streams_example :
    (buf : List ℕ) × (outs : List Out) × (write_3bit (q_dither 320) small 0 12
      ≡ some (refilled small buf, gpio dc 1 ∷ outs))
    × (payload outs ≡ pairs (q_dither 320) small.vmem 3 0 0)
    × (length buf ≡ 12)
write_3bit_streams_example =
    write_3bit_streams (q_dither 320) small 0 12 small-IsBuffered refl refl refl

update_display_lem_example :
    (s : ℕ) × (e : ℕ) × (buf : List ℕ) × (outs : List Out) × (update_display screen 400 2
      ≡ some (
        refilled screen buf,
        gpio cs 0 ∷ (set_addr_win 0 s 319 e ++ (gpio dc 1 ∷ (outs ++ (gpio cs 1 ∷ [])))),
      ))
    × (payload outs ≡ picture screen s (e - s + 1))
    × IsReady (refilled screen buf)
    × (s ≤ e)
    × e < 320
    × (400 ≤ 2 → 2 < 320 → (s ≡ 400) × (e ≡ 2))
    × ((l : ℕ) → 400 ≤ l → l ≤ 2 → l < 320 → (s ≤ l) × (l ≤ e))
update_display_lem_example = update_display_lem screen 400 2 screen-IsReady

deferred_io_lem_example :
    (s : ℕ) × (e : ℕ) × (buf : List ℕ) × (outs : List Out) × (deferred_io (8192 ∷ 0 ∷ []) pending
      ≡ some (
        record { par = refilled (whole_screen pending.par) buf; deferred_work = false },
        gpio cs 0 ∷ (set_addr_win 0 s 319 e ++ (gpio dc 1 ∷ (outs ++ (gpio cs 1 ∷ [])))),
      ))
    × (payload outs ≡ picture pending.par s (e - s + 1))
    × IsReady (refilled (whole_screen pending.par) buf)
    × ((l : ℕ) → l < 320 → IsMarked l pending.par → IsWithin l (s, e))
    × ((b : ℕ) → b < 204800 → IsInPages b (8192 ∷ 0 ∷ []) → IsWithin (b / 640) (s, e))
    × (s ≤ e)
    × e < 320
deferred_io_lem_example = deferred_io_lem (8192 ∷ 0 ∷ []) pending pending-IsReady

setcolreg_lem_example :
    let r = setcolreg 3 0xFFFF 0x8000 0x1234 0 info in
    let v = get_or r.0.pseudo_palette 3 0 in
    (r.1 ≡ 0)
    × (field v 11 5 ≡ 31)
    × (field v 5 6 ≡ 32)
    × (field v 0 5 ≡ 2)
    × ((j : ℕ) → j ≢ 3 → get_or r.0.pseudo_palette j 0 ≡ get_or info.pseudo_palette j 0)
setcolreg_lem_example =
    setcolreg_lem 3 0xFFFF 0x8000 0x1234 0 info (omega arith) (omega arith) (omega arith)
      (omega arith) refl
