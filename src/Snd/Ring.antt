-- ===== src/Snd/Ring.antt =====
-- A PCM ring as a window on the stream that user space writes: what is written ahead stands in the
-- ring until it is played.
use meta_picocalc.Prelude.{
  ℕ, zero, suc, refl, ◌<◌, List, set, ◌+◌, arith, length, get_or, ◌≤◌, ◌%◌, ◌++◌, ◌∷◌, [], ◌≢◌, ◌≡◌,
  ◌∙◌, length-set, length-append, get_or-set_other, ◌-◌, ap, sym, subst, get_or-set,
}
use native.Mathlib.Nat.{mod-add-mod, mod-eq_of_lt, mod-lt, mod-eq-sub-mod}
use native.Mathlib.Decide.{dec_lt}
use meta_picocalc.Snd.Cursor.{Runtime, IsPrepared, IsBytes}

-- places of the stream less than a ring apart are different places of the ring
pub places_apart : (i d size : ℕ) → 0 < d → d < size → (i + d) % size ≢ i % size
places_apart i d size h k e =
    let r = i % size in
    let in_ring : r < size = mod-lt i (omega (arith, h, k)) in
    let same : (r + d) % size ≡ r = mod-add-mod i size d ∙ e in
    elim (dec_lt (r + d) size) [
      | yes q ↦ omega (arith, same, mod-eq_of_lt q, h)
      | no q ↦
          let wraps : (r + d) % size ≡ (r + d - size) % size = mod-eq-sub-mod (omega (arith, q)) in
          let lands : (r + d - size) % size ≡ r + d - size =
            mod-eq_of_lt (omega (arith, in_ring, k, q)) in
          omega (arith, same, wraps, lands, in_ring, k, h, q)
    ]

pub IsBytes-set : (xs : List ℕ) (i v : ℕ) → v < 256 → IsBytes xs → IsBytes (set xs i v)
IsBytes-set [] i v h b = b
IsBytes-set (x ∷ xs) zero v h b = (h, b.1)
IsBytes-set (x ∷ xs) (suc i) v h b = (b.0, IsBytes-set xs i v h b.1)

pub get_or-append : (xs ys : List ℕ) (i : ℕ) → i < length xs → get_or (xs ++ ys) i 0 ≡ get_or xs i 0
get_or-append [] ys i h = absurd (omega (arith, h))
get_or-append (x ∷ xs) ys zero h = refl
get_or-append (x ∷ xs) ys (suc i) h = get_or-append xs ys i (omega (arith, h))

pub get_or-last : (xs : List ℕ) (v : ℕ) → get_or (xs ++ (v ∷ [])) (length xs) 0 ≡ v
get_or-last [] v = refl
get_or-last (x ∷ xs) v = get_or-last xs v

-- From place `pos` of the stream on, what is written stands in the ring.
pub record IsAhead (rt : Runtime) (stream : List ℕ) (pos : ℕ) : Type 0 where
  pub fit : IsPrepared rt
  pub room : rt.buffer_size ≤ length rt.dma_area
  pub within : length stream ≤ pos + rt.buffer_size
  pub stands :
      (i : ℕ)
      → pos ≤ i
      → i < length stream
      → get_or rt.dma_area (i % rt.buffer_size) 0 ≡ get_or stream i 0

-- user space writes the next sample
abbrev pub written : Runtime → List ℕ → ℕ → Runtime
written rt stream v = record rt { dma_area = set rt.dma_area (length stream % rt.buffer_size) v }

module _ (rt : Runtime) (stream : List ℕ) (pos : ℕ) (a : IsAhead rt stream pos) where
  module _ (v : ℕ) (byte : v < 256) (free : length stream < pos + rt.buffer_size)
      (behind : pos ≤ length stream) where
    written_stands :
        (i : ℕ)
        → pos ≤ i
        → i < length (stream ++ (v ∷ []))
        → get_or (written rt stream v).dma_area (i % rt.buffer_size) 0
          ≡ get_or (stream ++ (v ∷ [])) i 0
    written_stands i h k =
        let n = length stream in
        let size = rt.buffer_size in
        elim (dec_lt i n) [
          | yes q ↦
              get_or-set_other rt.dma_area (n % size) (i % size) v 0 (λ e.
                places_apart i (n - i) size (omega (arith, q))
                  (omega (arith, free, h, a.fit.some_buffer))
                  (ap (λ (t : ℕ). t % size) (omega (arith, q)) ∙ sym e))
              ∙ a.stands i h q
              ∙ sym (get_or-append stream (v ∷ []) i q)
          | no q ↦
              let last : i ≡ n = omega (arith, q, k, length-append stream (v ∷ [])) in
              subst
                (λ j.
                  get_or (set rt.dma_area (n % size) v) (j % size) 0
                  ≡ get_or (stream ++ (v ∷ [])) j 0)
                (sym last)
                (get_or-set rt.dma_area (n % size) v 0
                    (omega (arith, mod-lt n a.fit.some_buffer, a.room))
                  ∙ sym (get_or-last stream v))
        ]

    pub written-IsAhead : IsAhead (written rt stream v) (stream ++ (v ∷ [])) pos
    written-IsAhead = record {
      fit = record {
        bytes = IsBytes-set rt.dma_area (length stream % rt.buffer_size) v byte a.fit.bytes;
        some_buffer = a.fit.some_buffer;
        small_buffer = a.fit.small_buffer;
        some_period = a.fit.some_period;
        small_period = a.fit.small_period;
      };
      room = omega (arith, a.room, length-set rt.dma_area (length stream % rt.buffer_size) v);
      within = omega (arith, free, length-append stream (v ∷ []));
      stands = written_stands;
    }

  pub next-IsAhead : IsAhead rt stream (suc pos)
  next-IsAhead = record {
    fit = a.fit;
    room = a.room;
    within = omega (arith, a.within);
    stands = λ i h k. a.stands i (omega (arith, h)) k;
  }
