-- ===== src/Lcd/Vmem/Stream.antt =====
-- What `write_vmem` puts on the bus, whatever the size of its batches.
use meta_picocalc.Prelude.{
  ℕ, ◌+◌, ◌*◌, ◌/◌, ◌≤◌, ◌<◌, ◌≡◌, refl, arith, ap, sym, ◌∙◌, List, [], ◌∷◌, take, length, window,
  window-append, Option, none, some,
}
use mathlib.Core.Option
use meta_picocalc.Lcd.Panel.{Par, Out, gpio, spi, dc, payload}
use meta_picocalc.Lcd.Vmem.Batch.{
  fill16, length-fill16, fill16_lem, big_endian, big_endian-append, high, low,
}
use meta_picocalc.Lcd.Vmem.Loop.{send_loop, send_loop_lem}

-- the pixels in memory order, as the unbuffered write sends them (little-endian machine)
abbrev pub raw : List ℕ → List ℕ
raw [] = []
raw (v ∷ vs) = low v ∷ high v ∷ raw vs

-- one round: fill, then send `to_copy * 2` bytes
unfoldable pub round16 : List ℕ → ℕ → ℕ → List ℕ → List ℕ × List ℕ
round16 vmem n p buf = let buf' = fill16 vmem n p 0 buf in (buf', take (n * 2) buf')

-- `write_vmem`, from byte `offset` of the memory on; one round more than pixels is enough fuel
unfoldable pub write_vmem : Par → ℕ → ℕ → Option (Par × List Out)
write_vmem par offset len =
    let remain = len / 2 in
    let p = offset / 2 in
    elim par.txbuf [
      | none ↦ some (par, gpio dc 1 ∷ spi (raw (window 0 par.vmem remain p)) ∷ [])
      | some buf ↦
          Option.map (λ r. (record par { txbuf = some r.0 }, gpio dc 1 ∷ r.1))
            (send_loop (round16 par.vmem) (remain + 1) (par.txbuf_len / 3) p remain buf)
    ]

-- the transmit buffer as the probe allocates it
pub record IsBuffered (par : Par) : Type 0 where
  pub buf : List ℕ
  pub there : par.txbuf ≡ some buf
  pub size : length buf ≡ par.txbuf_len
  pub room : 3 ≤ par.txbuf_len

module _ (vmem : List ℕ) where
  round16_lem :
      (size n p : ℕ) (b : List ℕ) {l : ℕ}
      → 2 * size ≤ length b
      → n ≤ size
      → length b ≡ l
      → ((round16 vmem n p b).1 ≡ big_endian (window 0 vmem n p))
        × (length (round16 vmem n p b).0 ≡ l)
  unfolding round16
  round16_lem size n p b h k q =
      let e : n * 2 ≡ 0 + 2 * n = omega arith in
      (rw e (fill16_lem vmem n p 0 b (omega arith)), length-fill16 vmem n p 0 b ∙ q)

module _ (vmem : List ℕ) (size : ℕ) (buf : List ℕ) (positive : 0 < size)
    (room : 2 * size ≤ length buf) where
  stream16 :
      (r p : ℕ)
      → (buf' : List ℕ) × (outs : List Out) × (send_loop (round16 vmem) (r + 1) size p r buf
          ≡ some (buf', outs))
        × (length buf' ≡ length buf)
        × (payload outs ≡ big_endian (window 0 vmem r p))
  stream16 r p =
      send_loop_lem (round16 vmem) (λ _ b. length b ≡ length buf)
        (λ n p. big_endian (window 0 vmem n p)) (λ _. Unit {0}) size positive (λ _ _. (tt, tt))
        (λ n p b h _ e. round16_lem vmem size n p b (omega (arith, e)) h e)
        (λ m n p _.
          sym (big_endian-append (window 0 vmem m p) (window 0 vmem n (p + m)))
          ∙ ap big_endian (window-append 0 vmem m n p))
        (λ _. refl) (r + 1) p r buf (omega arith) tt refl

-- The driver after a write: only the transmit buffer has changed.
abbrev pub refilled : Par → List ℕ → Par
refilled par buf = record par { txbuf = some buf }

-- With a transmit buffer of the length that it is said to have, at least 3, `write_vmem` ends,
-- changes nothing but the contents of that buffer, and puts on the bus the `len / 2` pixels from
-- byte `offset` on, each with its high byte first, however many batches that takes.
pub write_vmem_streams :
    (par : Par) (offset len : ℕ)
    → IsBuffered par
    → (buf : List ℕ) × (outs : List Out) × (write_vmem par offset len
        ≡ some (refilled par buf, gpio dc 1 ∷ outs))
      × (payload outs ≡ big_endian (window 0 par.vmem (len / 2) (offset / 2)))
      × (length buf ≡ par.txbuf_len)
unfolding write_vmem
write_vmem_streams par offset len b =
    let r = len / 2 in
    let (buf', outs, e, w, sent) =
      stream16 par.vmem (par.txbuf_len / 3) b.buf (omega (arith, b.room)) (omega (arith, b.size)) r
        (offset / 2) in
    (
      buf',
      outs,
      rw (b.there)
          (ap (Option.map (λ (t : List ℕ × List Out). (refilled par t.0, gpio dc 1 ∷ t.1))) e),
      sent,
      w ∙ b.size,
    )
