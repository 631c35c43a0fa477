-- ===== src/Snd/Pcm/Safety.antt =====
-- While a device is on, its substream is open and holds the buffer that it plays from.
use meta_picocalc.Prelude.{ℕ, refl, List, ◌≡◌, ok, ◌≤◌, length, false, true, Bool}
use meta_picocalc.Snd.Cursor.{IsBytes}
use meta_picocalc.Snd.Pcm.Session.{Session, Pages, running, is_running, runtime}
use meta_picocalc.Snd.Pcm.Driver.{Driver, IsLawful}
use meta_picocalc.Snd.Pcm.Steps.{
  Step, opens, configures, fails, prepares, starts, stops, frees, closes, writes, ticks, Reach,
  here, next, fresh,
}
use meta_picocalc.Snd.Pcm.Buffer.{
  HasBuffer, running_has_buffer, buffer_not_closed, running_not_closed, running_only, must_run,
}
use meta_picocalc.Snd.Pcm.Kept.{
  IsSafe, opens-IsSafe, configures-IsSafe, released-IsSafe, fails-IsSafe, prepares-IsSafe,
  starts-IsSafe, stops-IsSafe, closes-IsSafe, writes-IsSafe,
}

module _ {Dev : Type 0} (d : Driver Dev) (laws : IsLawful d) (pages : Pages)
    (enough : (n : ℕ) (area : List ℕ) → pages n ≡ ok area → (n ≤ length area) × IsBytes area) where
  ticks-IsSafe :
      (s : Session Dev) (e : Dev) (b : Bool)
      → is_running s.state ≡ b
      → d.Tick (runtime s) s.dev e
      → IsSafe d s
      → IsSafe d (record s { dev = e })
  ticks-IsSafe s e true r t k =
      let (on, playing) = k.on r in
      let (played, still) =
        laws.plays (runtime s) s.dev e (k.ready (running_has_buffer s.state r)).fit playing on t in
      record {
        announced = k.announced;
        stored = k.stored;
        ready = k.ready;
        steady = laws.steady (runtime s) e played;
        off = λ q. absurd cc;
        on = λ _. (still, played);
      }
  ticks-IsSafe s e false r t k =
      let (steady, off) = laws.rests (runtime s) s.dev e k.steady (k.off r) t in
      record {
        announced = k.announced;
        stored = k.stored;
        ready = k.ready;
        steady = steady;
        off = λ _. off;
        on = λ q. absurd cc;
      }

  Step-IsSafe : {s t : Session Dev} → Step d pages s t → IsSafe d s → IsSafe d t
  Step-IsSafe {s} (opens e) k = opens-IsSafe d laws pages enough s e k
  Step-IsSafe {s} (configures hw p area c r e a q) k =
      configures-IsSafe d laws pages enough s hw p area c r e a q k
  Step-IsSafe {s} (fails p e c r q) k = fails-IsSafe d laws pages enough s p e c r q k
  Step-IsSafe {s} (prepares e) k = prepares-IsSafe d laws pages enough s e k
  Step-IsSafe {s} (starts e o) k = starts-IsSafe d laws pages enough s e k
  Step-IsSafe {s} (stops e) k = stops-IsSafe d laws pages enough s e k
  Step-IsSafe {s} (frees b r) k =
      released-IsSafe d laws pages enough s (buffer_not_closed s.state b) r k
  Step-IsSafe {s} (closes e) k = closes-IsSafe d laws pages enough s e k
  Step-IsSafe {s} (writes old new e l b) k = writes-IsSafe d laws pages enough s old new e l b k
  Step-IsSafe {s} (ticks e t) k = ticks-IsSafe s e (is_running s.state) refl t k

  fresh-IsSafe : (dev : Dev) → d.IsSteady dev → d.is_on dev ≡ false → IsSafe d (fresh dev)
  fresh-IsSafe dev steady off = record {
    announced = λ h q. absurd cc;
    stored = λ q. absurd cc;
    ready = λ q. absurd cc;
    steady = steady;
    off = λ _. off;
    on = λ q. absurd cc;
  }

  Reach-IsSafe : {s t : Session Dev} → Reach d pages s t → IsSafe d s → IsSafe d t
  Reach-IsSafe here k = k
  Reach-IsSafe (next r h) k = Step-IsSafe h (Reach-IsSafe r k)

  -- a device that is on plays from the buffer of an open substream
  pub session_lem :
      (dev : Dev) (s : Session Dev)
      → d.IsSteady dev
      → d.is_on dev ≡ false
      → Reach d pages (fresh dev) s
      → d.is_on s.dev ≡ true
      → (s.state ≡ running)
        × (s.ss ≡ true)
        × HasBuffer s.dma_area (runtime s)
        × d.IsPlaying (runtime s) s.dev
  session_lem dev s steady off r on =
      let k = Reach-IsSafe r (fresh-IsSafe dev steady off) in
      let runs = must_run (is_running s.state) (d.is_on s.dev) k.off on in
      (
        running_only s.state runs,
        k.stored (running_not_closed s.state runs),
        k.ready (running_has_buffer s.state runs),
        (k.on runs).1,
      )
