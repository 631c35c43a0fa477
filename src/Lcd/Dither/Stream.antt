-- ===== src/Lcd/Dither/Stream.antt =====
-- `write_vmem_3bit_dither` and `write_vmem_3bit`, and what they put on the bus.
use meta_picocalc.Prelude.{
  ℕ, ◌+◌, ◌-◌, ◌*◌, ◌/◌, ◌%◌, ◌≤◌, ◌<◌, ◌≡◌, refl, arith, ap, ap₂, sym, ◌∙◌, List, [], ◌∷◌, ◌++◌,
  take, length, window, min, Option, none, some,
}
use mathlib.Core.Option
use native.Mathlib.Nat.{zero-add}
use meta_picocalc.Lcd.Panel.{Par, Out, gpio, spi, dc, payload}
use meta_picocalc.Lcd.Vmem.Stream.{IsBuffered, raw, refilled}
use meta_picocalc.Lcd.Vmem.Loop.{send_loop, send_loop_lem}
use meta_picocalc.Lcd.Dither.Colour.{Rgb}
use meta_picocalc.Lcd.Dither.Pack.{
  fill3, length-fill3, fill3_lem, pairs, pairs-append, q_dither, q_plain,
}
use meta_picocalc.Prelude.{inl, ◌⊎◌, inr}

module _ (q : ℕ → ℕ → Rgb) (vmem : List ℕ) where
  -- One round over `n` pixels from index `p`: `i` steps by two below `n`, and `n / 2` bytes are sent.
  -- The state is the buffer and `cur_offset`.
  unfoldable pub round3 : ℕ → ℕ → List ℕ × ℕ → (List ℕ × ℕ) × List ℕ
  round3 n p s =
      let rounds = (n + 1) / 2 in
      let buf = fill3 q vmem rounds p 0 s.1 s.0 in ((buf, s.1 + 2 * rounds), take (n / 2) buf)

unfoldable pub write_3bit : (ℕ → ℕ → Rgb) → Par → ℕ → ℕ → Option (Par × List Out)
write_3bit q par offset len =
    let remain = len / 2 in
    let p = offset / 2 in
    elim par.txbuf [
      | none ↦ some (par, gpio dc 1 ∷ spi (raw (window 0 par.vmem remain p)) ∷ [])
      | some buf ↦
          Option.map (λ r. (record par { txbuf = some r.0.0 }, gpio dc 1 ∷ r.1))
            (send_loop (round3 q par.vmem) (remain + 1) (par.txbuf_len / 3) p remain (buf, offset))
    ]

abbrev pub write_vmem_3bit_dither : Par → ℕ → ℕ → Option (Par × List Out)
write_vmem_3bit_dither par = write_3bit (q_dither par.xres) par

abbrev pub write_vmem_3bit : Par → ℕ → ℕ → Option (Par × List Out)
write_vmem_3bit = write_3bit q_plain

abbrev IsEven : ℕ → Type 0
IsEven n = n % 2 ≡ 0

compare_cases : (a b : ℕ) → (a ≤ b) ⊎ (b ≤ a)
compare_cases a b = ground arith

min_left : (a b : ℕ) → a ≤ b → min a b ≡ a
min_left a b h = omega arith

min_right : (a b : ℕ) → b ≤ a → min a b ≡ b
min_right a b h = omega arith

IsEven-minus : (r size : ℕ) → IsEven size → IsEven r → IsEven (r - size)
IsEven-minus r size h k = omega arith

self_minus : (r : ℕ) → IsEven (r - r)
self_minus r = omega arith

IsEven-cut : (size r : ℕ) → IsEven size → IsEven r → IsEven (min size r) × IsEven (r - min size r)
IsEven-cut size r h k = elim (compare_cases size r) [
  | inl le ↦ (rw (min_left size r le) h, rw (min_left size r le) (IsEven-minus r size h k))
  | inr le ↦ (rw (min_right size r le) k, rw (min_right size r le) (self_minus r))
]

module _ (q : ℕ → ℕ → Rgb) (vmem : List ℕ) (shift : ℕ) where
  abbrev spec : ℕ → ℕ → List ℕ
  spec n p = pairs q vmem (n / 2) (p + shift) p

  split : (m n p : ℕ) → IsEven m → spec m p ++ spec n (p + m) ≡ spec (m + n) p
  split m n p h =
      let a : p + shift + 2 * (m / 2) ≡ p + m + shift = omega arith in
      let b : p + 2 * (m / 2) ≡ p + m = omega arith in
      let c : m / 2 + n / 2 ≡ (m + n) / 2 = omega arith in
      ap₂ (λ x y. spec m p ++ pairs q vmem (n / 2) x y) (sym a) (sym b)
      ∙ pairs-append q vmem (m / 2) (n / 2) (p + shift) p
      ∙ ap (λ t. pairs q vmem t (p + shift) p) c

  abbrev Inv : ℕ → ℕ → List ℕ × ℕ → Type 0
  Inv l p s = (length s.0 ≡ l) × (s.1 ≡ p + shift)

  round3_lem :
      (l size n p : ℕ) (s : List ℕ × ℕ)
      → size ≤ l
      → n ≤ size
      → IsEven n
      → Inv l p s
      → ((round3 q vmem n p s).1 ≡ spec n p) × Inv l (p + n) (round3 q vmem n p s).0
  unfolding round3
  round3_lem l size n p s h k e v =
      let m = (n + 1) / 2 in
      let same : n / 2 ≡ m = omega arith in
      let fits : 0 + m ≤ length s.0 = omega (arith, v.0) in
      (
        rw same (
            ap (λ k. take k (fill3 q vmem m p 0 s.1 s.0)) (sym (zero-add m))
            ∙ fill3_lem q vmem m p 0 s.1 s.0 fits
            ∙ ap (λ c. pairs q vmem m c p) v.1),
        (length-fill3 q vmem m p 0 s.1 s.0 ∙ v.0, omega (arith, v.1, e)),
      )

  stream3 :
      (size : ℕ) (buf : List ℕ)
      → 0 < size
      → IsEven size
      → size ≤ length buf
      → (r p : ℕ) → IsEven r
      → (s : List ℕ × ℕ) × (outs : List Out) × (send_loop
            (round3 q vmem)
            (r + 1)
            size
            p
            r
            (buf, p + shift)
          ≡ some (s, outs))
        × Inv (length buf) (p + r) s
        × (payload outs ≡ spec r p)
  stream3 size buf positive even room r p h =
      send_loop_lem (round3 q vmem) (Inv (length buf)) spec IsEven size positive
        (λ r k. IsEven-cut size r even k)
        (λ n p s k e v. round3_lem (length buf) size n p s room k e v) split (λ _. refl) (r + 1) p r
        (buf, p + shift) (omega arith) h (refl, refl)

-- With a transmit buffer of the length that it is said to have, of which a third is even, and at
-- least 3, a 3-bit write of an even number of pixels from an even byte offset on ends, changes
-- nothing but the contents of that buffer, and puts on the bus one byte for two pixels, in order,
-- however many batches that takes. Pixel `i` of the write is quantised as the pixel at place
-- `offset + i`.
pub write_3bit_streams :
    (q : ℕ → ℕ → Rgb) (par : Par) (offset len : ℕ)
    → IsBuffered par
    → par.txbuf_len / 3 % 2 ≡ 0
    → offset % 2 ≡ 0
    → len / 2 % 2 ≡ 0
    → (buf : List ℕ) × (outs : List Out) × (write_3bit q par offset len
        ≡ some (refilled par buf, gpio dc 1 ∷ outs))
      × (payload outs ≡ pairs q par.vmem (len / 4) offset (offset / 2))
      × (length buf ≡ par.txbuf_len)
unfolding write_3bit
write_3bit_streams q par offset len b even aligned pixels =
    let p = offset / 2 in
    let start : p + p ≡ offset = omega arith in
    let quarter : len / 2 / 2 ≡ len / 4 = omega arith in
    let (s, outs, e, w, sent) =
      stream3 q par.vmem p (par.txbuf_len / 3) b.buf (omega (arith, b.room)) even
        (omega (arith, b.size)) (len / 2) p pixels in
    let loop = send_loop (round3 q par.vmem) (len / 2 + 1) (par.txbuf_len / 3) p (len / 2) in
    (
      s.0,
      outs,
      rw (b.there) (
          ap (Option.map (λ (t : (List ℕ × ℕ) × List Out). (refilled par t.0.0, gpio dc 1 ∷ t.1)))
            (ap (λ o. loop (b.buf, o)) (sym start) ∙ e)),
      sent ∙ ap₂ (λ n o. pairs q par.vmem n o p) quarter start,
      w.0 ∙ b.size,
    )
