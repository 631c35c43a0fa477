-- ===== src/Kbd/Queue.antt =====
-- The firmware's key queue behind the FIFO register, and what a drain takes from it.
use meta_picocalc.Prelude.{
  ℕ, zero, suc, ◌+◌, ◌≤◌, ◌≡◌, ◌≢◌, refl, arith, ap, List, [], ◌∷◌, ◌++◌, length, take, drop,
  Result, ok, false, ◌==◌,
}
use meta_picocalc.Kbd.Fifo.{Item, item_of, drain}

-- no entry has the state 0, which stands for the end of the queue
abbrev pub IsReal : List (ℕ × ℕ) → Type 0
IsReal [] = Unit {0}
IsReal ((d0, d1) ∷ xs) = (d0 ≢ 0) × IsReal xs

abbrev pub items : List (ℕ × ℕ) → List Item
items [] = []
items ((d0, d1) ∷ xs) = item_of d0 d1 ∷ items xs

-- The firmware's documented FIFO register: a read takes the first entry off the queue, and gives the
-- state 0 when there is none.
pub record IsQueue {Bus : Type 0} (read2 : Bus → Bus × Result (ℕ × ℕ)) (queue : Bus → List (ℕ × ℕ))
    : Type 0 where
  pub pops :
      (b : Bus) (x : ℕ × ℕ) (xs : List (ℕ × ℕ))
      → queue b ≡ x ∷ xs
      → ((read2 b).1 ≡ ok x) × (queue (read2 b).0 ≡ xs)
  pub ends :
      (b : Bus) → queue b ≡ [] → (d1 : ℕ) × ((read2 b).1 ≡ ok (0, d1)) × (queue (read2 b).0 ≡ [])

module _ {Bus : Type 0} (read2 : Bus → Bus × Result (ℕ × ℕ)) (queue : Bus → List (ℕ × ℕ))
    (fw : IsQueue read2 queue) where
  -- a drain takes the first entries
  pub drain_queue :
      (n : ℕ) (b : Bus) (xs : List (ℕ × ℕ))
      → queue b ≡ xs
      → IsReal xs
      → (queue (drain read2 n b).0 ≡ drop n xs) × ((drain read2 n b).1 ≡ items (take n xs))
  unfolding drain
  drain_queue zero b xs e r = (e, refl)
  drain_queue (suc n) b [] e r = let (d1, h, q) = fw.ends b e in rw (h, drain) (q, refl)
  drain_queue (suc n) b ((d0, d1) ∷ xs) e (s, r) =
      let (h, q) = fw.pops b (d0, d1) xs e in
      let (i, j) = drain_queue n (read2 b).0 xs q r in
      let z : (d0 == 0) ≡ false = ground (arith, s) in
      rw (h, drain) (rw z (i, ap (λ t. item_of d0 d1 ∷ t) j))

pub no_entry : (xs : List (ℕ × ℕ)) → length xs ≤ 0 → xs ≡ []
no_entry [] h = refl
no_entry (x ∷ xs) h = absurd (omega (arith, h))

pub items-append : (xs ys : List (ℕ × ℕ)) → items (xs ++ ys) ≡ items xs ++ items ys
items-append [] ys = refl
items-append ((d0, d1) ∷ xs) ys = ap (λ t. item_of d0 d1 ∷ t) (items-append xs ys)

pub items-take : (n : ℕ) (xs : List (ℕ × ℕ)) → items (take n xs) ++ items (drop n xs) ≡ items xs
items-take zero xs = refl
items-take (suc n) [] = refl
items-take (suc n) ((d0, d1) ∷ xs) = ap (λ t. item_of d0 d1 ∷ t) (items-take n xs)

pub IsReal-append : (xs ys : List (ℕ × ℕ)) → IsReal xs → IsReal ys → IsReal (xs ++ ys)
IsReal-append [] ys h k = k
IsReal-append ((d0, d1) ∷ xs) ys h k = (h.0, IsReal-append xs ys h.1 k)

pub IsReal-drop : (n : ℕ) (xs : List (ℕ × ℕ)) → IsReal xs → IsReal (drop n xs)
IsReal-drop zero xs h = h
IsReal-drop (suc n) [] h = h
IsReal-drop (suc n) ((d0, d1) ∷ xs) h = IsReal-drop n xs h.1

pub length-drop_le : (n k : ℕ) (xs : List (ℕ × ℕ)) → length xs ≤ n + k → length (drop n xs) ≤ k
length-drop_le zero k xs h = omega (arith, h)
length-drop_le (suc n) k [] h = omega arith
length-drop_le (suc n) k (x ∷ xs) h = length-drop_le n k xs (omega (arith, h))
