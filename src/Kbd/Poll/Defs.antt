-- ===== src/Kbd/Poll/Defs.antt =====
-- The polling of the controller: a timer that queues the work, from the probe to the shutdown. The
-- timer core and the work queue are outside: an armed timer may fire, and a pending work may run.
use meta_picocalc.Prelude.{
  ℕ, ◌≡◌, Bool, true, false, ◌==◌, if◌then◌else◌, List, [], ◌∷◌, Result, enomem, ◌&&◌, ◌||◌, not,
}
use meta_picocalc.Kernel.{M, ◌>>◌, change, ask, ask_pointer}

-- what the kernel answers during `input_probe`
pub record InputCore : Type 0 where
  pub kzalloc : Bool
  pub kmemdup : Bool
  pub allocate_device : Bool
  pub register_device : Result (Unit {0})

-- The context with what belongs to it: its memory (allocated or not), whether `g_ctx` points to it,
-- the input device with its `keybit` map, the timer and the work. `fault` records a use of the null
-- pointer or of freed memory.
pub record Driver (C : Type 0) : Type 0 where
  pub ctx : C
  pub memory : Bool
  pub g_ctx : Bool
  pub keybit : ℕ → Bool
  pub registered : Bool
  pub timer : Bool
  pub work : Bool
  pub fault : Bool

-- `__set_bit` and `__clear_bit`
abbrev pub set_bit : ℕ → Bool → (ℕ → Bool) → ℕ → Bool
set_bit k b f n = if n == k then b else f n

abbrev pub set_bits : List ℕ → (ℕ → Bool) → ℕ → Bool
set_bits [] f = f
set_bits (k ∷ ks) f = set_bits ks (set_bit k true f)

-- The key capabilities: every code of the table but KEY_RESERVED, and the two buttons (BTN_LEFT is
-- 0x110 and BTN_RIGHT 0x111).
unfoldable pub capabilities : List ℕ → ℕ → Bool
capabilities keycodes =
    set_bit 0x111 true (set_bit 0x110 true (set_bit 0 false (set_bits keycodes (λ _. false))))

module _ {C : Type 0} where
  -- before the probe
  abbrev pub absent : C → Driver C
  absent c = record {
    ctx = c;
    memory = false;
    g_ctx = false;
    keybit = λ _. false;
    registered = false;
    timer = false;
    work = false;
    fault = false;
  }

  -- after a probe that returned 0
  abbrev pub polling : List ℕ → C → Driver C
  polling keycodes c = record {
    ctx = c;
    memory = true;
    g_ctx = true;
    keybit = capabilities keycodes;
    registered = true;
    timer = true;
    work = false;
    fault = false;
  }

  -- `init` is the zeroed context with the boot time in `last_keypress_at`.
  unfoldable pub input_probe : InputCore → List ℕ → C → M (Driver C) (Unit {0})
  unfolding capabilities
  input_probe k keycodes init = do
    ask_pointer k.kzalloc enomem
    change (λ d. record d { memory = true; g_ctx = true })
    ask_pointer k.kmemdup enomem
    change (λ d. record d { ctx = init })
    ask_pointer k.allocate_device enomem
    change (λ d. record d { keybit = capabilities keycodes; timer = true })
    ask k.register_device
    change (λ d. record d { registered = true })

  -- `schedule_work(&g_ctx->work_struct)`, then `mod_timer`
  unfoldable pub kbd_timer_function : Driver C → Driver C
  kbd_timer_function d =
      if d.g_ctx
      then (if d.memory then record d { work = true; timer = true } else record d { fault = true })
      else record d { fault = true }

  -- The work with `run` for the handler. It reaches the context through its own address, but stores
  -- the time of a key press through `g_ctx`; `stores` says whether an item with a key makes it do so.
  unfoldable pub run_work : (C → C) → Bool → Driver C → Driver C
  run_work run stores d =
      if d.memory && (d.g_ctx || not stores)
      then record d { ctx = run d.ctx; work = false }
      else record d { work = false; fault = true }

  unfoldable pub input_shutdown : Driver C → Driver C
  input_shutdown d = record d { timer = false; g_ctx = false }

  -- The driver core releases what is managed, after a probe that failed or a remove.
  abbrev pub release : Driver C → Driver C
  release d = record d { memory = false; registered = false }

  -- The timer fires, or the work runs, with one of the handlers that `Runs` allows.
  module _ (Runs : (C → C) → Type 0) where
    pub data Step (d : Driver C) : Driver C → Type 0 where
      fires : d.timer ≡ true → Step d (kbd_timer_function (record d { timer = false }))
      works :
          (run : C → C) (stores : Bool) → Runs run → d.work ≡ true → Step d (run_work run stores d)

    pub data Reach (d : Driver C) : Driver C → Type 0 where
      here : Reach d d
      next : {e f : Driver C} → Reach d e → Step e f → Reach d f
