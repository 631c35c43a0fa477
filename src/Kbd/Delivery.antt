-- ===== src/Kbd/Delivery.antt =====
-- From the firmware's queue to the handler of an event, over any number of runs of a work handler
-- with keys typed in between, for the handler of either keyboard driver.
use meta_picocalc.Prelude.{
  ℕ, zero, suc, ◌*◌, ◌≤◌, ◌≡◌, refl, arith, ap, sym, ◌∙◌, List, [], ◌∷◌, ◌++◌, length, take, drop,
  Result, append_assoc, append-nil, subst,
}
use meta_picocalc.Kbd.Fifo.{Item, fifo_size, drain}
use meta_picocalc.Kbd.Pointer.{Report}
use meta_picocalc.Kbd.Queue.{
  IsReal, items, IsQueue, drain_queue, no_entry, items-append, items-take, IsReal-append,
  IsReal-drop, length-drop_le,
}

-- One run of a work handler: the boot times that it read, its state before and after, and what it handed
-- to the input core.
pub record Run (S : Type 0) : Type 0 where
  pub clock : ℕ → ℕ
  pub before : S
  pub after : S
  pub reports : List Report

-- `typed` are the entries that the firmware has queued so far, and `log` the runs of the handler.
pub record Typing (Bus S : Type 0) : Type 0 where
  pub bus : Bus
  pub ctx : S
  pub typed : List (ℕ × ℕ)
  pub log : List (Run S)

-- A work handler over a way of reading two bytes from the FIFO register: `run` is what it makes of
-- the bus and of its state, and what it reports. `Handles` says that a run has, in its state and its
-- reports, handled just the given items. The law is what the handler's correctness comes to here.
pub record Consumer {Bus : Type 0} (read2 : Bus → Bus × Result (ℕ × ℕ)) (S : Type 0) : Type 1 where
  pub run : (ℕ → ℕ) → Bus → S → Bus × S × List Report
  pub Handles : List Item → Run S → Type 0
  pub IsOk : S → Type 0
  pub drains :
      (clock : ℕ → ℕ) (b : Bus) (s : S)
      → IsOk s
      → let (b', s', reports) = run clock b s in
        (b' ≡ (drain read2 fifo_size b).0)
        × Handles
            (drain read2 fifo_size b).1
            (record { clock = clock; before = s; after = s'; reports = reports })
        × IsOk s'

module _ {Bus S : Type 0} {read2 : Bus → Bus × Result (ℕ × ℕ)} (h : Consumer read2 S) where
  -- The runs of a log take the state from `c` to `d`, each from where the one before it has left it,
  -- and have handled the items, split among them in order.
  abbrev pub HaveHandled : S → List (Run S) → List Item → S → Type 0
  HaveHandled c [] xs d = (xs ≡ []) × (d ≡ c)
  HaveHandled c (r ∷ rs) xs d =
      (first : List Item) × (rest : List Item) × (xs ≡ first ++ rest)
      × (r.before ≡ c)
      × h.Handles first r
      × HaveHandled r.after rs rest d

  HaveHandled-append :
      (rs : List (Run S)) (c d : S) (xs ys : List Item) (r : Run S)
      → HaveHandled c rs xs d
      → r.before ≡ d
      → h.Handles ys r
      → HaveHandled c (rs ++ (r ∷ [])) (xs ++ ys) r.after
  HaveHandled-append [] c d xs ys r (none, same) e k = (
    ys,
    [],
    ap (λ (t : List Item). t ++ ys) none ∙ sym (append-nil ys),
    e ∙ same,
    k,
    (refl, refl),
  )
  HaveHandled-append (q ∷ rs) c d xs ys r (first, rest, split, from, does, more) e k = (
    first,
    rest ++ ys,
    ap (λ (t : List Item). t ++ ys) split ∙ append_assoc first rest ys,
    from,
    does,
    HaveHandled-append rs q.after d rest ys r more e k,
  )

  abbrev ran : (ℕ → ℕ) → Typing Bus S → Bus × S × List Report → Typing Bus S
  ran clock s (b, c, reports) = record s {
    bus = b;
    ctx = c;
    log = s.log ++ (record { clock = clock; before = s.ctx; after = c; reports = reports } ∷ []);
  }

  -- a run of the work handler
  unfoldable pub works : (ℕ → ℕ) → Typing Bus S → Typing Bus S
  works clock s = ran clock s (h.run clock s.bus s.ctx)

  unfoldable pub polls : (ℕ → ℕ) → ℕ → Typing Bus S → Typing Bus S
  polls clock zero s = s
  polls clock (suc n) s = polls clock n (works clock s)

module _ {Bus S : Type 0} {read2 : Bus → Bus × Result (ℕ × ℕ)} (h : Consumer read2 S)
    (queue : Bus → List (ℕ × ℕ)) (fw : IsQueue read2 queue) where
  pub data Step (s : Typing Bus S) : Typing Bus S → Type 0 where
    types :
        (b : Bus) (new : List (ℕ × ℕ))
        → queue b ≡ queue s.bus ++ new
        → IsReal new
        → Step s (record s { bus = b; typed = s.typed ++ new })
    handles : (clock : ℕ → ℕ) → Step s (works h clock s)

  pub data Reach (s : Typing Bus S) : Typing Bus S → Type 0 where
    here : Reach s s
    next : {t u : Typing Bus S} → Reach s t → Step t u → Reach s u

  -- from a state `c` on, what has been handled and what is queued is what was typed
  record IsDelivering (c : S) (s : Typing Bus S) : Type 0 where
    valid : h.IsOk s.ctx
    real : IsReal (queue s.bus)
    handled : List Item
    done : HaveHandled h c s.log handled s.ctx
    all : handled ++ items (queue s.bus) ≡ items s.typed

  module _ (c : S) where
    works_queue :
        (clock : ℕ → ℕ) (s : Typing Bus S)
        → IsReal (queue s.bus)
        → h.IsOk s.ctx
        → queue (works h clock s).bus ≡ drop fifo_size (queue s.bus)
    unfolding works
    works_queue clock s r v =
        let (q, i) = drain_queue read2 queue fw fifo_size s.bus (queue s.bus) refl r in
        ap queue (h.drains clock s.bus s.ctx v).0 ∙ q

    works_done :
        (clock : ℕ → ℕ) (s : Typing Bus S) (k : IsDelivering c s)
        → HaveHandled h c
            (works h clock s).log
            (k.handled ++ items (take fifo_size (queue s.bus)))
            (works h clock s).ctx
    unfolding works
    works_done clock s k =
        let (q, i) = drain_queue read2 queue fw fifo_size s.bus (queue s.bus) refl k.real in
        let (b', c', reports) = h.run clock s.bus s.ctx in
        let r : Run S = record { clock = clock; before = s.ctx; after = c'; reports = reports } in
        HaveHandled-append h s.log c s.ctx k.handled _ r k.done refl
          (subst (λ xs. h.Handles xs r) i (h.drains clock s.bus s.ctx k.valid).1)

    works_ctx : (clock : ℕ → ℕ) (s : Typing Bus S) → h.IsOk s.ctx → h.IsOk (works h clock s).ctx
    unfolding works
    works_ctx clock s v = (h.drains clock s.bus s.ctx v).2

    works_typed : (clock : ℕ → ℕ) (s : Typing Bus S) → (works h clock s).typed ≡ s.typed
    unfolding works
    works_typed clock s = refl

    works-IsDelivering :
        (clock : ℕ → ℕ) (s : Typing Bus S) → IsDelivering c s → IsDelivering c (works h clock s)
    works-IsDelivering clock s k =
        let xs = queue s.bus in
        let q = works_queue clock s k.real k.valid in
        record {
          valid = works_ctx clock s k.valid;
          real = subst IsReal (sym q) (IsReal-drop fifo_size xs k.real);
          handled = k.handled ++ items (take fifo_size xs);
          done = works_done clock s k;
          all =
              ap (λ t. (k.handled ++ items (take fifo_size xs)) ++ items t) q
              ∙ append_assoc k.handled (items (take fifo_size xs)) (items (drop fifo_size xs))
              ∙ ap (λ t. k.handled ++ t) (items-take fifo_size xs)
              ∙ k.all
              ∙ ap items (sym (works_typed clock s));
        }

    types-IsDelivering :
        (s : Typing Bus S) (b : Bus) (new : List (ℕ × ℕ))
        → queue b ≡ queue s.bus ++ new
        → IsReal new
        → IsDelivering c s
        → IsDelivering c (record s { bus = b; typed = s.typed ++ new })
    types-IsDelivering s b new e r k = record {
      valid = k.valid;
      real = subst IsReal (sym e) (IsReal-append (queue s.bus) new k.real r);
      handled = k.handled;
      done = k.done;
      all =
          ap (λ t. k.handled ++ items t) e
          ∙ ap (λ t. k.handled ++ t) (items-append (queue s.bus) new)
          ∙ sym (append_assoc k.handled (items (queue s.bus)) (items new))
          ∙ ap (λ t. t ++ items new) k.all
          ∙ sym (items-append s.typed new);
    }

    Step-IsDelivering : {s t : Typing Bus S} → Step s t → IsDelivering c s → IsDelivering c t
    Step-IsDelivering {s} (types b new e r) k = types-IsDelivering s b new e r k
    Step-IsDelivering {s} (handles clock) k = works-IsDelivering clock s k

    Reach-IsDelivering : {s t : Typing Bus S} → Reach s t → IsDelivering c s → IsDelivering c t
    Reach-IsDelivering here k = k
    Reach-IsDelivering (next r step) k = Step-IsDelivering step (Reach-IsDelivering r k)

    -- when the queue is empty, all is handled
    polls_lem :
        (clock : ℕ → ℕ) (n : ℕ) (s : Typing Bus S)
        → IsDelivering c s
        → length (queue s.bus) ≤ n * fifo_size
        → let e = polls h clock n s in HaveHandled h c e.log (items s.typed) e.ctx
    unfolding polls
    polls_lem clock zero s k short =
        let whole : k.handled ≡ items s.typed =
          sym (append-nil k.handled)
          ∙ ap (λ t. k.handled ++ items t) (sym (no_entry (queue s.bus) (omega (arith, short))))
          ∙ k.all in
        subst (λ xs. HaveHandled h c s.log xs s.ctx) whole k.done
    polls_lem clock (suc n) s k short =
        let q = works_queue clock s k.real k.valid in
        let left = length-drop_le fifo_size (n * fifo_size) (queue s.bus) (omega (arith, short)) in
        let e = polls h clock n (works h clock s) in
        subst (λ xs. HaveHandled h c e.log xs e.ctx) (ap items (works_typed clock s))
          (polls_lem clock n (works h clock s) (works-IsDelivering clock s k)
            (omega (arith, ap (λ x. length x) q, left)))

  -- nothing but what was typed is handled, in order, and enough runs handle all of it
  pub delivery_lem :
      (b : Bus) (c : S) (t : Typing Bus S) (clock : ℕ → ℕ) (n : ℕ)
      → queue b ≡ []
      → h.IsOk c
      → Reach (record { bus = b; ctx = c; typed = []; log = [] }) t
      → length (queue t.bus) ≤ n * fifo_size
      → let e = polls h clock n t in
        ((handled : List Item) × HaveHandled h c t.log handled t.ctx
          × (handled ++ items (queue t.bus) ≡ items t.typed))
        × HaveHandled h c e.log (items t.typed) e.ctx
  delivery_lem b c t clock n e v r short =
      let start : IsDelivering c (record { bus = b; ctx = c; typed = []; log = [] }) = record {
        valid = v;
        real = subst IsReal (sym e) tt;
        handled = [];
        done = (refl, refl);
        all = ap items e;
      } in
      let k = Reach-IsDelivering c r start in
      ((k.handled, k.done, k.all), polls_lem c clock n t k short)
