-- ===== src/Kbd/Fifo.antt =====
-- The firmware's key FIFO: `struct key_fifo_item`, the context that both drivers keep, and the
-- loop of `input_fw_read_fifo` over any way of reading two bytes from a register.
use native.Mathlib.Numerals.{add-one}
use meta_picocalc.Prelude.{
  ℕ, zero, suc, ◌+◌, ◌%◌, ◌≤◌, ◌<◌, ◌≡◌, refl, arith, ap, sym, ◌∙◌, Bool, List, [], ◌∷◌, ◌++◌, ◌==◌,
  if◌then◌else◌, set, Bool-cases, inl, inr, length, take, length-set, take-set, append_assoc,
  append-nil, Result, ok, err,
}

abbrev pub fifo_size : ℕ
fifo_size = 31

-- `state` is a bit field of four bits
pub record Item : Type 0 where
  pub state : ℕ
  pub scancode : ℕ

-- enum pico_key_state
abbrev pub key_state_pressed : ℕ
key_state_pressed = 1

abbrev pub key_state_hold : ℕ
key_state_hold = 2

abbrev pub key_state_released : ℕ
key_state_released = 3

-- The fields of `struct kbd_ctx` that the input path uses, with the file's variable
-- `mouse_move_step`.
pub record Ctx : Type 0 where
  pub key_fifo_count : ℕ
  pub key_fifo_data : List Item
  pub last_keypress_at : ℕ
  pub mouse_mode : Bool
  pub mouse_move_dir : ℕ
  pub mouse_move_step : ℕ

abbrev pub blank_item : Item
blank_item = record { state = 0; scancode = 0 }

-- What a read of register 9 stores: the first byte is cut to the four bits of `state`.
abbrev pub item_of : ℕ → ℕ → Item
item_of d0 d1 = record { state = d0 % 16; scancode = d1 }

module _ {Bus : Type 0} (read2 : Bus → Bus × Result (ℕ × ℕ)) where
  -- the loop with `n` rounds left, at index `idx`
  unfoldable pub fifo_loop : ℕ → ℕ → Bus → Ctx → Bus × Ctx
  fifo_loop zero idx b c = (b, c)
  fifo_loop (suc n) idx b c =
      let (b', r) = read2 b in
      elim r [
        | err e ↦ (b', c)
        | ok (d0, d1) ↦
            let rest = fifo_loop n (idx + 1) b' (record c {
              key_fifo_data = set c.key_fifo_data idx (item_of d0 d1);
              key_fifo_count = (c.key_fifo_count + 1) % 256;
            }) in
            if d0 == 0 then (b', c) else rest
      ]

  unfoldable pub read_fifo : Bus → Ctx → Bus × Ctx
  unfolding fifo_loop
  read_fifo b c = fifo_loop fifo_size 0 b (record c { key_fifo_count = 0 })

  -- What the firmware hands over: the items read before an error, an empty FIFO or `n` items.
  unfoldable pub drain : ℕ → Bus → Bus × List Item
  drain zero b = (b, [])
  drain (suc n) b =
      let (b', r) = read2 b in
      elim r [
        | err e ↦ (b', [])
        | ok (d0, d1) ↦
            let rest = drain n b' in if d0 == 0 then (b', []) else (rest.0, item_of d0 d1 ∷ rest.1)
      ]

  pub length-drain : (n : ℕ) (b : Bus) → length (drain n b).1 ≤ n
  unfolding drain
  length-drain zero b = omega arith
  length-drain (suc n) b = ground (arith, length-drain n (read2 b).0)

  -- What the loop leaves in the context, with `idx` items already stored.
  record Loaded (idx : ℕ) (c : Ctx) (d : Bus × List Item) (out : Bus × Ctx) : Type 0 where
    bus : out.0 ≡ d.0
    size : length out.1.key_fifo_data ≡ length c.key_fifo_data
    count : out.1.key_fifo_count ≡ idx + length d.1
    items : take (idx + length d.1) out.1.key_fifo_data ≡ take idx c.key_fifo_data ++ d.1
    rest :
        out.1
        ≡ record c { key_fifo_data = out.1.key_fifo_data; key_fifo_count = out.1.key_fifo_count }

  abbrev store : ℕ → ℕ → ℕ → Ctx → Ctx
  store idx d0 d1 c = record c {
    key_fifo_data = set c.key_fifo_data idx (item_of d0 d1);
    key_fifo_count = (c.key_fifo_count + 1) % 256;
  }

  stop_here : (idx : ℕ) (b : Bus) (c : Ctx) → c.key_fifo_count ≡ idx → Loaded idx c (b, []) (b, c)
  stop_here idx b c k = record {
    bus = refl;
    size = refl;
    count = omega arith;
    items = ap (λ t. take t c.key_fifo_data) (omega arith) ∙ sym (append-nil _);
    rest = refl;
  }

  store_one :
      (idx : ℕ) (c : Ctx) (d0 d1 : ℕ) (ds : Bus × List Item) (out : Bus × Ctx)
      → idx < length c.key_fifo_data
      → Loaded (idx + 1) (store idx d0 d1 c) ds out
      → Loaded idx c (ds.0, item_of d0 d1 ∷ ds.1) out
  store_one idx c d0 d1 ds out h l = record {
    bus = l.bus;
    size = l.size ∙ length-set c.key_fifo_data idx (item_of d0 d1);
    count = omega (arith, l.count);
    items =
        ap (λ t. take t out.1.key_fifo_data) (omega arith)
        ∙ l.items
        ∙ ap (λ t. t ++ ds.1)
            (ap (λ t. take t (set c.key_fifo_data idx (item_of d0 d1))) (add-one idx)
              ∙ take-set c.key_fifo_data idx (item_of d0 d1) h)
        ∙ append_assoc (take idx c.key_fifo_data) (item_of d0 d1 ∷ []) ds.1;
    rest = l.rest;
  }

  Loaded-step :
      (n idx : ℕ) (b : Bus) (c : Ctx) (r : Result (ℕ × ℕ))
      → (read2 b).1 ≡ r
      → idx + suc n ≤ length c.key_fifo_data
      → c.key_fifo_count ≡ idx
      → idx + suc n < 256
      → ((c' : Ctx)
          → idx + 1 + n ≤ length c'.key_fifo_data
          → c'.key_fifo_count ≡ idx + 1
          → Loaded (idx + 1) c' (drain n (read2 b).0) (fifo_loop n (idx + 1) (read2 b).0 c'))
      → Loaded idx c (drain (suc n) b) (fifo_loop (suc n) idx b c)
  unfolding drain fifo_loop
  Loaded-step n idx b c (err e) q h k l ih = rw (q, drain, fifo_loop) (stop_here idx _ c k)
  Loaded-step n idx b c (ok (d0, d1)) q h k l ih = elim (Bool-cases (d0 == 0)) [
    | inl z ↦ rw (q, drain, fifo_loop) (rw z (stop_here idx _ c k))
    | inr z ↦
        rw (q, drain, fifo_loop)
          (rw z (
            store_one idx c d0 d1 _ _ (omega arith) (
              ih (store idx d0 d1 c) (omega (arith, length-set c.key_fifo_data idx (item_of d0 d1)))
                (omega arith))))
  ]

  fifo_loop-Loaded :
      (n idx : ℕ) (b : Bus) (c : Ctx)
      → idx + n ≤ length c.key_fifo_data
      → c.key_fifo_count ≡ idx
      → idx + n < 256
      → Loaded idx c (drain n b) (fifo_loop n idx b c)
  unfolding drain fifo_loop
  fifo_loop-Loaded zero idx b c h k l = stop_here idx b c k
  fifo_loop-Loaded (suc n) idx b c h k l =
      Loaded-step n idx b c (read2 b).1 refl h k l
        (λ c' h' k'. fifo_loop-Loaded n (idx + 1) (read2 b).0 c' h' k' (omega arith))

  -- In a context with room for 31 items, the FIFO read stores in order exactly the items that the
  -- firmware hands over, at most 31, counts them, asks the bus for no more than those and the read
  -- that ended the loop, and changes nothing else of the context.
  pub read_fifo_lem :
      (b : Bus) (c : Ctx)
      → length c.key_fifo_data ≡ fifo_size
      → let (b', c') = read_fifo b c in
        let (b'', items) = drain fifo_size b in
        (b' ≡ b'')
        × (c'.key_fifo_count ≡ length items)
        × (take (length items) c'.key_fifo_data ≡ items)
        × (length c'.key_fifo_data ≡ fifo_size)
        × (c' ≡ record c { key_fifo_data = c'.key_fifo_data; key_fifo_count = c'.key_fifo_count })
  unfolding read_fifo
  read_fifo_lem b c h =
      let l =
        fifo_loop-Loaded fifo_size 0 b (record c { key_fifo_count = 0 }) (omega arith) refl
          (omega arith) in
      let e : 0 + length (drain fifo_size b).1 ≡ length (drain fifo_size b).1 = omega arith in
      (l.bus, l.count ∙ e, rw e at l.items, l.size ∙ h, l.rest)
