-- ===== src/Kbd/Valid.antt =====
-- Well-formed contexts: what the functions that both keyboard drivers have keep of them.
use meta_picocalc.Prelude.{ℕ, ◌<◌, ◌≡◌, arith, length}
use meta_picocalc.Kbd.Dirs.{Dir, dir_range}
use meta_picocalc.Kbd.Fifo.{Item, Ctx, fifo_size}
use meta_picocalc.Kbd.Pointer.{arrow, move_pointer}

pub record IsValid (c : Ctx) : Type 0 where
  pub room : length c.key_fifo_data ≡ fifo_size
  pub dir_byte : c.mouse_move_dir < 256

pub arrow-dir :
    (d : Dir) (now : ℕ) (ev : Item) (c : Ctx)
    → c.mouse_move_dir < 256
    → (arrow d now ev c).mouse_move_dir < 256
unfolding arrow
arrow-dir d now ev c h = ground (arith, dir_range c.mouse_move_dir d h)

pub arrow-data :
    (d : Dir) (now : ℕ) (ev : Item) (c : Ctx) → (arrow d now ev c).key_fifo_data ≡ c.key_fifo_data
unfolding arrow
arrow-data d now ev c = ground arith

pub move_pointer-IsValid :
    (now : ℕ) (c : Ctx) → IsValid c → IsValid (record (move_pointer now c).0 { key_fifo_count = 0 })
unfolding move_pointer
move_pointer-IsValid now c v = ground arith
