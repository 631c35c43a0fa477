-- ===== src/Kbd/Mfd/DeliveryTests.antt =====
-- Keys typed before and after a run of the work handler.
use meta_picocalc.Prelude.{
  ℕ, ◌*◌, ◌≤◌, ◌≡◌, refl, arith, ap, List, [], ◌∷◌, ◌++◌, length, Result, ok, err,
}
use meta_picocalc.Regmap.{Regmap}
use meta_picocalc.Kbd.Queue.{items, IsQueue}
use meta_picocalc.Kbd.Mfd.Defs.{
  kbd_read_i2c_2u8, fifo_reg, input_workqueue_handler, input_fw_read_fifo,
}
use meta_picocalc.Kbd.Fifo.{read_fifo, fifo_loop}
use meta_picocalc.Kbd.Fifo.{Item}
use meta_picocalc.Kbd.Delivery.{
  HaveHandled, Typing, works, polls, Reach, here, next, types, handles,
}
use meta_picocalc.Kbd.Mfd.Delivery.{consumer, delivers}
use meta_picocalc.Kbd.Fifo.{Ctx}
use meta_picocalc.Kbd.Mfd.Tests.{fresh, fresh-IsValid, table, clock}

abbrev pop : List (ℕ × ℕ) → List (ℕ × ℕ) × Result (ℕ × ℕ)
pop [] = ([], ok (0, 0))
pop (x ∷ xs) = (xs, ok x)

-- a firmware that is its queue
abbrev firmware : Regmap
firmware = record {
  Bus = List (ℕ × ℕ);
  read = λ b reg. (b, err 5);
  bulk_read = λ b reg. pop b;
  write = λ b reg v. (b, ok tt);
}

firmware-IsQueue : IsQueue (kbd_read_i2c_2u8 firmware fifo_reg) (λ b. b)
unfolding kbd_read_i2c_2u8
firmware-IsQueue = record {
  pops = λ b x xs e. (ap (λ t. (pop t).1) e, ap (λ t. (pop t).0) e);
  ends = λ b e. (0, ap (λ t. (pop t).1) e, ap (λ t. (pop t).0) e);
}

abbrev empty : Typing (List (ℕ × ℕ)) Ctx
empty = record { bus = []; ctx = fresh; typed = []; log = [] }

-- 'a' typed, a run of the handler, and then 'b' typed
abbrev first_keys : List (ℕ × ℕ)
first_keys = (1, b'a') ∷ (3, b'a') ∷ []

abbrev ran : Typing (List (ℕ × ℕ)) Ctx
ran = works (consumer firmware table) clock (record empty { bus = first_keys; typed = first_keys })

abbrev waiting : Typing (List (ℕ × ℕ)) Ctx
waiting = record ran { bus = ran.bus ++ ((1, b'b') ∷ []); typed = ran.typed ++ ((1, b'b') ∷ []) }

waiting-Reach : Reach (consumer firmware table) (λ b. b) firmware-IsQueue empty waiting
waiting-Reach =
    next
      (next (next here (types first_keys first_keys refl (λ e. cc, (λ e. cc, tt)))) (handles clock))
      (types waiting.bus ((1, b'b') ∷ []) refl (λ e. cc, tt))

short : length waiting.bus ≤ 2 * 31
unfolding works input_workqueue_handler input_fw_read_fifo read_fifo fifo_loop kbd_read_i2c_2u8
short = omega arith

delivers_example :
    let e = polls (consumer firmware table) clock 2 waiting in
    ((handled : List Item) × HaveHandled
        (consumer firmware table)
        fresh
        waiting.log
        handled
        waiting.ctx
      × (handled ++ items waiting.bus ≡ items waiting.typed))
    × HaveHandled (consumer firmware table) fresh e.log (items waiting.typed) e.ctx
delivers_example =
    delivers firmware (λ b. b) firmware-IsQueue table [] fresh waiting clock 2 refl fresh-IsValid
      waiting-Reach short
