-- ===== src/Kbd/Batch.antt =====
-- The loop of `input_workqueue_handler` over the items of the FIFO, in both keyboard drivers, for an
-- event handler of either.
use meta_picocalc.Prelude.{
  ℕ, zero, suc, ◌+◌, ◌≤◌, ◌≡◌, refl, arith, ap, ◌∙◌, List, [], ◌∷◌, ◌++◌, length, take, get_or,
}
use native.Mathlib.Nat.{suc-add, zero-add}
use meta_picocalc.Kbd.Fifo.{Item, blank_item}
use meta_picocalc.Kbd.Pointer.{Report}

abbrev window : List Item → ℕ → ℕ → List Item
window d zero i = []
window d (suc n) i = get_or d i blank_item ∷ window d n (i + 1)

window-cons : (x : Item) (xs : List Item) (n i : ℕ) → window (x ∷ xs) n (suc i) ≡ window xs n i
window-cons x xs zero i = refl
window-cons x xs (suc n) i =
    ap (λ t. get_or xs i blank_item ∷ t)
      (ap (window (x ∷ xs) n) (suc-add i 1) ∙ window-cons x xs n (i + 1))

window-take : (n : ℕ) (d : List Item) → n ≤ length d → window d n 0 ≡ take n d
window-take zero d h = refl
window-take (suc n) [] h = absurd (omega arith)
window-take (suc n) (x ∷ xs) h =
    ap (λ t. x ∷ t)
      (ap (window (x ∷ xs) n) (zero-add 1) ∙ window-cons x xs n 0 ∙ window-take n xs (omega arith))

-- The handler gets the index of the item in the batch, which says when it is handled.
module _ {S : Type 0} (event : ℕ → Item → S → S × List Report) where
  -- the events of a list, one after the other; the first is the `i`th of its batch
  abbrev pub report_items : ℕ → List Item → S → S × List Report
  report_items i [] c = (c, [])
  report_items i (ev ∷ evs) c =
      let (c', out) = event i ev c in
      let (c'', rest) = report_items (i + 1) evs c' in (c'', out ++ rest)

  pub report_items-keeps :
      (P : S → Type 0) (keeps : (i : ℕ) (ev : Item) (c : S) → P c → P (event i ev c).0) (i : ℕ)
      (evs : List Item) (c : S)
      → P c
      → P (report_items i evs c).0
  report_items-keeps P keeps i [] c p = p
  report_items-keeps P keeps i (ev ∷ evs) c p =
      report_items-keeps P keeps (i + 1) evs (event i ev c).0 (keeps i ev c p)

  module _ (store : S → List Item) where
    -- the loop with `n` rounds left at index `idx` of the store
    abbrev pub for_items : ℕ → ℕ → S → S × List Report
    for_items zero idx c = (c, [])
    for_items (suc n) idx c =
        let (c', out) = event idx (get_or (store c) idx blank_item) c in
        let (c'', rest) = for_items n (idx + 1) c' in (c'', out ++ rest)

    for_items-window :
        (keeps : (i : ℕ) (ev : Item) (c : S) → store (event i ev c).0 ≡ store c) (n i : ℕ) (c : S)
        (d : List Item)
        → store c ≡ d
        → for_items n i c ≡ report_items i (window d n i) c
    for_items-window keeps zero i c d e = refl
    for_items-window keeps (suc n) i c d e = simp e (
        rw (
          for_items-window keeps n (i + 1) (event i (get_or d i blank_item) c).0 d
            (keeps i (get_or d i blank_item) c ∙ e)))

    -- With the items at the start of the store, the loop over as many rounds handles those.
    pub for_items-take :
        (keeps : (i : ℕ) (ev : Item) (c : S) → store (event i ev c).0 ≡ store c) (items : List Item)
        (c : S)
        → length items ≤ length (store c)
        → take (length items) (store c) ≡ items
        → for_items (length items) 0 c ≡ report_items 0 items c
    for_items-take keeps items c h e =
        for_items-window keeps (length items) 0 c (store c) refl
        ∙ ap (λ t. report_items 0 t c) (window-take (length items) (store c) h ∙ e)
