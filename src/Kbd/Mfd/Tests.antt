-- ===== src/Kbd/Mfd/Tests.antt =====
-- Runs of the MFD keyboard driver over a bus that is a script of reads.
use meta_picocalc.Prelude.{
  ℕ, ◌+◌, ◌%◌, ◌≡◌, refl, arith, true, false, List, [], ◌∷◌, ◌++◌, length, Result, ok, err,
  replicate, ◌==◌, if◌then◌else◌, ◌^◌, ◌-◌,
}
use meta_picocalc.Prelude.Int.{negsuc, sub_ℕ}
use meta_picocalc.Regmap.{Regmap}
use meta_picocalc.Kbd.Dirs.{has}
use meta_picocalc.Kbd.Fifo.{Ctx, blank_item, drain, read_fifo}
use meta_picocalc.Kbd.Pointer.{key, msc_scan, rel_x, sync, move_pointer, moves, step_of}
use meta_picocalc.Kbd.Mfd.Defs.{
  key_report_event, process, input_workqueue_handler, input_fw_read_fifo, kbd_read_i2c_2u8,
  fifo_reg,
}
use meta_picocalc.Kbd.Mfd.Handler.{report_all, handler_lem}
use meta_picocalc.Kbd.Valid.{IsValid}
use meta_picocalc.Kbd.Mfd.Mouse.{move_pointer_lem, total_x, total_y, amount}

-- The bus answers a read with the next entry of a script; register 9 alone is read here.
abbrev pub Script : Type 0
Script = List (Result (ℕ × ℕ))

abbrev pub answer : Script → Script × Result (ℕ × ℕ)
answer [] = ([], ok (0, 0))
answer (r ∷ rs) = (rs, r)

abbrev pub scripted : Regmap
scripted = record {
  Bus = Script;
  read = λ b reg. (b, err 5);
  bulk_read = λ b reg. answer b;
  write = λ b reg v. (b, ok tt);
}

abbrev pub fresh : Ctx
fresh = record {
  key_fifo_count = 0;
  key_fifo_data = replicate 31 blank_item;
  last_keypress_at = 0;
  mouse_mode = false;
  mouse_move_dir = 0;
  mouse_move_step = 1;
}

pub fresh-IsValid : IsValid fresh
fresh-IsValid = record { room = refl; dir_byte = omega arith }

abbrev moving : Ctx
moving = record fresh { mouse_mode = true; mouse_move_dir = 2 }

moving-IsValid : IsValid moving
moving-IsValid = record { room = refl; dir_byte = omega arith }

-- 'a' is key 30, 'b' is key 48
abbrev pub table : ℕ → ℕ
table s = if s == b'a' then 30 else if s == b'b' then 48 else 0

abbrev pub clock : ℕ → ℕ
clock i = 1000 + i

abbrev pub typing : Script
typing = ok (1, b'a') ∷ ok (3, b'a') ∷ err 5 ∷ ok (1, b'b') ∷ []

-- the bus fails after two items: both are handled, and the third waits for the next run
typing_runs :
    let (b, c, out) = input_workqueue_handler scripted table clock typing fresh in
    (b ≡ ok (1, b'b') ∷ [])
    × (out ≡ msc_scan 97 ∷ key 30 true ∷ msc_scan 97 ∷ key 30 false ∷ sync ∷ [])
unfolding input_workqueue_handler input_fw_read_fifo read_fifo process key_report_event move_pointer
typing_runs = (refl, refl)

left_moves :
    (input_workqueue_handler scripted table clock [] moving).2 ≡ rel_x (negsuc 0) ∷ sync ∷ []
unfolding input_workqueue_handler input_fw_read_fifo read_fifo process move_pointer moves has
    step_of
left_moves = refl

handler_lem_example :
    let (b', items) = drain (kbd_read_i2c_2u8 scripted fifo_reg) 31 typing in
    let (c2, events) =
      report_all table clock 0 items (input_fw_read_fifo scripted typing fresh).1 in
    let (c3, motion) = move_pointer (clock (length items)) c2 in
    input_workqueue_handler scripted table clock typing fresh
    ≡ (b', record c3 { key_fifo_count = 0 }, events ++ (motion ++ sync ∷ []))
handler_lem_example = handler_lem table clock scripted typing fresh fresh-IsValid

move_pointer_lem_example :
    let (c', out) = move_pointer 1000 moving in
    let s = step_of ((1000 + 2 ^ 64 - 0) % 2 ^ 64) in
    (total_x out ≡ sub_ℕ (amount (has 2 4) s) (amount (has 2 2) s))
    × (total_y out ≡ sub_ℕ (amount (has 2 16) s) (amount (has 2 8) s))
    × (c'.mouse_move_dir ≡ 2)
    × (c'.mouse_mode ≡ true)
move_pointer_lem_example = move_pointer_lem 1000 moving
