-- ===== src/Kbd/Pointer.antt =====
-- Mouse mode: what an arrow key does to the held directions, and how `input_workqueue_handler`
-- turns those into pointer movement. Both drivers have this code in the same words.
use meta_picocalc.Prelude.{
  ℕ, ◌+◌, ◌-◌, ◌*◌, ◌%◌, ◌^◌, Bool, List, [], ◌∷◌, ◌++◌, leb, if◌then◌else◌, ◌==◌,
}
use meta_picocalc.Prelude.Int.{ℤ, pos, sub_ℕ}
use meta_picocalc.Kbd.Dirs.{Dir, left, right, up, down, mask, has, raise, lower}
use meta_picocalc.Kbd.Fifo.{Ctx, Item, key_state_pressed, key_state_released}

-- What the drivers hand to the input core, in order.
pub data Report : Type 0 where
  msc_scan : ℕ → Report
  key : ℕ → Bool → Report
  rel_x rel_y : ℤ → Report
  sync : Report

abbrev pub is_pressed : Item → Bool
is_pressed ev = ev.state == key_state_pressed

-- only the left key's release takes the time
abbrev pub released_at : Dir → ℕ → Ctx → ℕ
released_at left now c = now
released_at _ now c = c.last_keypress_at

-- the body of one `case` of the arrow keys; `now` is the boot clock
unfoldable pub arrow : Dir → ℕ → Item → Ctx → Ctx
arrow d now ev c =
    if ev.state == key_state_pressed
    then record c {
      last_keypress_at = if has c.mouse_move_dir (mask d) then c.last_keypress_at else now;
      mouse_move_dir = raise c.mouse_move_dir (mask d);
    }
    else if ev.state == key_state_released
    then record c {
      last_keypress_at = released_at d now c;
      mouse_move_dir = lower c.mouse_move_dir (mask d);
    }
    else c

abbrev pub mouse_fast_move_thr_time : ℕ
mouse_fast_move_thr_time = 150000000

-- `int8_t` 1, 2 or 4 by the time that a key has been held (64-bit unsigned difference)
unfoldable pub step_of : ℕ → ℕ
step_of press_time =
    if leb press_time mouse_fast_move_thr_time
    then 1
    else if leb press_time (3 * mouse_fast_move_thr_time)
    then 2
    else 4

abbrev pub neg : ℕ → ℤ
neg n = sub_ℕ 0 n

-- the four tests of the handler, in its order
unfoldable pub moves : ℕ → ℕ → List Report
moves dir s =
    (if has dir (mask left) then rel_x (neg s) ∷ [] else [])
    ++ ((if has dir (mask right) then rel_x (pos s) ∷ [] else [])
        ++ ((if has dir (mask down) then rel_y (pos s) ∷ [] else [])
            ++ (if has dir (mask up) then rel_y (neg s) ∷ [] else [])))

-- the handler's block under `if (ctx->mouse_mode)`
unfoldable pub move_pointer : ℕ → Ctx → Ctx × List Report
move_pointer now c =
    let s = step_of ((now + 2 ^ 64 - c.last_keypress_at) % 2 ^ 64) in
    if c.mouse_mode then (record c { mouse_move_step = s }, moves c.mouse_move_dir s) else (c, [])
