-- ===== src/Kbd/Legacy/DeliveryTests.antt =====
-- Keys typed before and after a run of the stand-alone driver's work handler.
use meta_picocalc.Prelude.{
  ℕ, ◌+◌, ◌/◌, ◌%◌, ◌≡◌, refl, arith, ap, List, [], ◌∷◌, ◌++◌, Result, ok, err,
}
use meta_picocalc.Kbd.Fifo.{read_fifo, fifo_loop}
use meta_picocalc.Kbd.Valid.{IsValid}
use meta_picocalc.Kbd.Queue.{items, IsQueue}
use meta_picocalc.Kbd.Fifo.{Item}
use meta_picocalc.Kbd.Delivery.{
  HaveHandled, Typing, works, polls, Reach, here, next, types, handles,
}
use meta_picocalc.Kbd.Legacy.Defs.{
  Kbd, Smbus, kbd_read_i2c_2u8, input_workqueue_handler, input_fw_read_fifo,
}
use meta_picocalc.Kbd.Legacy.Delivery.{consumer, legacy_delivers}
use meta_picocalc.Kbd.Legacy.Tests.{typing, table}
use meta_picocalc.Prelude.{◌∙◌}

abbrev clock : ℕ → ℕ
clock n = 1000 + n

-- a firmware that is its queue of words, the state in the low byte
abbrev pop : List ℕ → List ℕ × Result ℕ
pop [] = ([], ok 0)
pop (w ∷ ws) = (ws, ok w)

abbrev firmware : Smbus
firmware = record {
  Bus = List ℕ;
  read_byte_data = λ b reg. (b, err 5);
  write_byte_data = λ b reg v. (b, ok tt);
  read_word_data = λ b reg. pop b;
}

abbrev entries : List ℕ → List (ℕ × ℕ)
entries [] = []
entries (w ∷ ws) = (w % 256, w / 256 % 256) ∷ entries ws

-- what a read gives of the entries, and which are left
abbrev popped : List (ℕ × ℕ) → List (ℕ × ℕ) × Result (ℕ × ℕ)
popped [] = ([], ok (0, 0))
popped (x ∷ xs) = (xs, ok x)

kbd_read_i2c_2u8-popped :
    (ws : List ℕ)
    → (entries (kbd_read_i2c_2u8 firmware 0x09 ws).0 ≡ (popped (entries ws)).0)
      × ((kbd_read_i2c_2u8 firmware 0x09 ws).1 ≡ (popped (entries ws)).1)
unfolding kbd_read_i2c_2u8
kbd_read_i2c_2u8-popped [] = (refl, refl)
kbd_read_i2c_2u8-popped (w ∷ ws) = (refl, refl)

firmware-IsQueue : IsQueue (kbd_read_i2c_2u8 firmware 0x09) entries
firmware-IsQueue = record {
  pops = λ b x xs e.
      let (left, got) = kbd_read_i2c_2u8-popped b in
      (got ∙ ap (λ t. (popped t).1) e, left ∙ ap (λ t. (popped t).0) e);
  ends = λ b e.
      let (left, got) = kbd_read_i2c_2u8-popped b in
      (0, got ∙ ap (λ t. (popped t).1) e, left ∙ ap (λ t. (popped t).0) e);
}

typing-IsValid : IsValid typing.ctx
typing-IsValid = omega arith

abbrev empty : Typing (List ℕ) Kbd
empty = record { bus = []; ctx = typing; typed = []; log = [] }

-- 'a' typed
abbrev first_keys : List ℕ
first_keys = 0x6101 ∷ 0x6103 ∷ []

abbrev ran : Typing (List ℕ) Kbd
ran =
    works (consumer firmware table) clock
      (record empty { bus = first_keys; typed = entries first_keys })

-- after a run of the handler, 'b' pressed
abbrev waiting : Typing (List ℕ) Kbd
waiting = record ran { bus = 0x6201 ∷ []; typed = ran.typed ++ ((1, 0x62) ∷ []) }

waiting-Reach : Reach (consumer firmware table) entries firmware-IsQueue empty waiting
unfolding works input_workqueue_handler input_fw_read_fifo read_fifo fifo_loop kbd_read_i2c_2u8
waiting-Reach =
    next
      (next (next here (types first_keys (entries first_keys) refl (λ e. cc, (λ e. cc, tt))))
        (handles clock))
      (types (0x6201 ∷ []) ((1, 0x62) ∷ []) refl (λ e. cc, tt))

legacy_delivers_example :
    let e = polls (consumer firmware table) clock 1 waiting in
    ((handled : List Item) × HaveHandled
        (consumer firmware table)
        typing
        waiting.log
        handled
        waiting.ctx
      × (handled ++ items (entries waiting.bus) ≡ items waiting.typed))
    × HaveHandled (consumer firmware table) typing e.log (items waiting.typed) e.ctx
legacy_delivers_example =
    legacy_delivers firmware entries firmware-IsQueue table [] typing waiting clock 1 refl
      typing-IsValid waiting-Reach (omega arith)
