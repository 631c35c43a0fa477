-- ===== src/Lcd/Shown/Sent.antt =====
-- What a refresh sends: every line that is marked or on a pending page, as it is in the memory.
use meta_picocalc.Prelude.{
  ℕ, ◌+◌, ◌-◌, ◌*◌, ◌/◌, ◌%◌, ◌≤◌, ◌<◌, ◌≡◌, refl, arith, ap, subst, ◌∙◌, false, leb, ◌&&◌,
  if◌then◌else◌, if_intro, List, [], ◌∷◌, ◌++◌, append-nil, ◌⊎◌, inl, inr, some, window,
}
use mathlib.Core.Option
use meta_picocalc.Lcd.Panel.{Par, Out, gpio, cs, dc, payload, payload-append}
use meta_picocalc.Prelude.{true, Bool, sym}
use meta_picocalc.Lcd.Shown.Encode.{encode, encode_anywhere, colour, width, packed, pairs-packed}
use meta_picocalc.Lcd.Vmem.Stream.{refilled}
use meta_picocalc.Lcd.Command.{set_addr_win}
use meta_picocalc.Lcd.Update.{IsReady, picture}
use meta_picocalc.Lcd.Dirty.Covers.{IsMarked, IsWithin, IsInPages, deferred_io_lem, whole_screen}
use meta_picocalc.Lcd.Shown.Defs.{
  Screen, IsLine, row, place, line, after_update, received, refresh, Touches,
}
use meta_picocalc.Lcd.Shown.Rows.{row_lem}

-- line `l` has a byte in one of the pages
abbrev pub IsPending : ℕ → List ℕ → Type 0
IsPending l [] = ⊥
IsPending l (p ∷ ps) = Touches p l ⊎ IsPending l ps

pending_byte : (l : ℕ) (ps : List ℕ) → IsPending l ps → (b : ℕ) × (b / 640 ≡ l) × IsInPages b ps
pending_byte l [] h = elim h [ ]
pending_byte l (p ∷ ps) (inl (b, e, x, y)) = (b, e, inl (x, y))
pending_byte l (p ∷ ps) (inr h) = let (b, e, i) = pending_byte l ps h in (b, e, inr i)

-- A screen in a mode (3-bit or not, dithered or not), set up as the probe does it, on which the
-- bytes last sent for each line that is neither marked nor on a pending page are those of the line.
pub record IsFaithful (m d : Bool) (s : Screen) : Type 0 where
  pub ready : IsReady s.fb.par
  pub three : s.fb.par.p_3bit_mode ≡ m
  pub dither : s.fb.par.p_dither ≡ d
  pub same :
      (l : ℕ)
      → l < 320
      → ¬ IsMarked l s.fb.par
      → ¬ IsPending l s.pages
      → IsLine s.fb.par.p_3bit_mode s.fb.par.p_dither s.fb.par.vmem l (s.shown l)

abbrev pub frame : ℕ → ℕ → List Out → List Out
frame s e outs = gpio cs 0 ∷ (set_addr_win 0 s 319 e ++ (gpio dc 1 ∷ (outs ++ (gpio cs 1 ∷ []))))

-- an update sends its lines, and leaves the others as they were
pub received_lem :
    (w s e l : ℕ) (outs : List Out) (shown : ℕ → List ℕ)
    → s < 320
    → e < 320
    → received w (payload (frame s e outs)) shown l
      ≡ (if leb s l && leb l e then window 0 (payload outs) w ((l - s) * w) else shown l)
unfolding set_addr_win
received_lem w s e l outs shown h k =
    let first : s / 256 % 256 * 256 + s % 256 % 256 ≡ s = omega arith in
    let last : e / 256 % 256 * 256 + e % 256 % 256 ≡ e = omega arith in
    let pixels : payload (outs ++ (gpio cs 1 ∷ [])) ≡ payload outs =
      payload-append outs (gpio cs 1 ∷ []) ∙ append-nil (payload outs) in
    rw (first, last, pixels) refl

picture_lem :
    (par : Par) (s n : ℕ) (m d : Bool)
    → par.xres ≡ 320
    → par.p_3bit_mode ≡ m
    → par.p_dither ≡ d
    → picture par s n ≡ encode m d (s * 640) (window 0 par.vmem (n * 320) (s * 320))
picture_lem par s n false d w h k = rw h refl
picture_lem par s n true true w h k =
    let long : 2 * (n * 160) ≡ n * 320 = omega arith in
    rw (h, k, w)
      (pairs-packed (colour true) par.vmem (n * 160) (s * 640) (s * 320)
        ∙ ap (λ t. packed (colour true) (s * 640) (window 0 par.vmem t (s * 320))) long)
picture_lem par s n true false w h k =
    let long : 2 * (n * 160) ≡ n * 320 = omega arith in
    rw (h, k)
      (pairs-packed (colour false) par.vmem (n * 160) (s * 640) (s * 320)
        ∙ ap (λ t. packed (colour false) (s * 640) (window 0 par.vmem t (s * 320))) long)

sent_bytes :
    (par : Par) (s e l : ℕ) (bytes : List ℕ)
    → IsReady par
    → bytes ≡ picture par s (e - s + 1)
    → s ≤ l
    → l ≤ e
    → let m = par.p_3bit_mode in
      window 0 bytes (width m) ((l - s) * width m) ≡ line m par.p_dither s par.vmem l
sent_bytes par s e l bytes r h a b =
    let m = par.p_3bit_mode in
    let d = par.p_dither in
    ap (λ t. window 0 t (width m) ((l - s) * width m))
      (h ∙ picture_lem par s (e - s + 1) m d r.width refl refl)
    ∙ row_lem m d (s * 640) par.vmem s (e - s + 1) (l - s) (omega arith)
    ∙ ap (λ i. encode m d (place s l) (row par.vmem i)) (omega arith)

-- without dithering a line is the same wherever the update starts
plain_line :
    (m d : Bool) (s l : ℕ) (vmem : List ℕ) → d ≡ false → line m d s vmem l ≡ line m false 0 vmem l
plain_line m d s l vmem e =
    ap (λ x. line m x s vmem l) e ∙ encode_anywhere m (place s l) (place 0 l) (row vmem l)

pub sent_line :
    (par : Par) (s e l : ℕ) (bytes : List ℕ)
    → IsReady par
    → bytes ≡ picture par s (e - s + 1)
    → s ≤ l
    → l ≤ e
    → let m = par.p_3bit_mode in
      IsLine m par.p_dither par.vmem l (window 0 bytes (width m) ((l - s) * width m))
sent_line par s e l bytes r h a b =
    let same = sent_bytes par s e l bytes r h a b in
    record {
      start = s;
      above = a;
      same = same;
      plain = λ e. same ∙ plain_line par.p_3bit_mode par.p_dither s l par.vmem e;
    }

-- a line of the range shows what was sent, another one what it showed
pub shown_line :
    (P : List ℕ → Type 0) (s e l : ℕ) (x y : List ℕ)
    → ((s ≤ l) → (l ≤ e) → P x)
    → (¬ ((s ≤ l) × (l ≤ e)) → P y)
    → P (if leb s l && leb l e then x else y)
shown_line P s e l x y p q =
    if_intro P (leb s l && leb l e) (λ h. p (ground (arith, h)) (ground (arith, h)))
      (λ h. q (λ w. ground (arith, h, w)))

-- A refresh of a faithful screen ends; it keeps the memory, and then every line of the display is the
-- one that was last sent.
pub refresh_lem :
    {m d : Bool} (s : Screen)
    → IsFaithful m d s
    → (t : Screen) × (refresh s ≡ some t)
      × IsFaithful m d t
      × (t.fb.par.vmem ≡ s.fb.par.vmem)
      × ((l : ℕ)
          → l < 320
          → IsLine t.fb.par.p_3bit_mode t.fb.par.p_dither t.fb.par.vmem l (t.shown l))
unfolding refresh
refresh_lem s f =
    let (a, e, buf, outs, eq, sent, ready, marks, pages, le, lt) =
      deferred_io_lem s.pages s.fb f.ready in
    let t : Screen = record {
      fb = record { par = refilled (whole_screen s.fb.par) buf; deferred_work = false };
      pages = [];
      shown = received (width s.fb.par.p_3bit_mode) (payload (frame a e outs)) s.shown;
    } in
    let within : (l : ℕ) → l < 320 → IsPending l s.pages → IsWithin l (a, e) = λ l k p.
      let (b, line_of, i) = pending_byte l s.pages p in
      subst (λ x. IsWithin x (a, e)) line_of (pages b (omega (arith, line_of, k)) i) in
    let all : (l : ℕ)
        → l < 320
        → IsLine s.fb.par.p_3bit_mode s.fb.par.p_dither s.fb.par.vmem l (t.shown l) =
      λ l k.
        subst (IsLine s.fb.par.p_3bit_mode s.fb.par.p_dither s.fb.par.vmem l)
          (sym (
            received_lem (width s.fb.par.p_3bit_mode) a e l outs s.shown (omega (arith, le, lt))
              lt))
          (shown_line (IsLine s.fb.par.p_3bit_mode s.fb.par.p_dither s.fb.par.vmem l) a e l _ _
            (sent_line s.fb.par a e l (payload outs) f.ready sent)
            (λ w. f.same l k (λ m. w (marks l k m)) (λ p. w (within l k p)))) in
    (
      t,
      ap (Option.map (after_update s)) eq,
      record { ready = ready; three = f.three; dither = f.dither; same = λ l k _ _. all l k },
      refl,
      all,
    )
