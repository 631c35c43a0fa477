-- ===== src/Snd/Pcm/Kept.antt =====
-- What the core's calls and user space keep.
use meta_picocalc.Prelude.{
  ℕ, refl, List, ◌≡◌, ok, some, ◌≤◌, length, subst, false, sym, true, arith, ap, ◌∙◌, err,
}
use mathlib.Core.Option.{some-injective, none}
use meta_picocalc.Snd.Cursor.{IsBytes, start, stop}
use meta_picocalc.Snd.Pcm.Hardware.{
  Hardware, Params, IsAllowed, buffer_bytes, buffer_bytes_mono, runtime_of, runtime_of-IsPrepared,
}
use meta_picocalc.Snd.Pcm.Session.{
  Session, Pages, closed, opened, setup, prepared, running, has_buffer, is_running, is_closed,
  runtime, sized,
}
use meta_picocalc.Snd.Pcm.Driver.{Driver, IsLawful}
use meta_picocalc.Snd.Pcm.Buffer.{HasBuffer}

pub record IsSafe {Dev : Type 0} (d : Driver Dev) (s : Session Dev) : Type 0 where
  pub announced : (h : Hardware) → s.hw ≡ some h → d.hw ≡ h
  pub stored : is_closed s.state ≡ false → s.ss ≡ true
  pub ready : has_buffer s.state ≡ true → HasBuffer s.dma_area (runtime s)
  pub steady : d.IsSteady s.dev
  pub off : is_running s.state ≡ false → d.is_on s.dev ≡ false
  pub on : is_running s.state ≡ true → (d.is_on s.dev ≡ true) × d.IsPlaying (runtime s) s.dev

module _ {Dev : Type 0} (d : Driver Dev) (laws : IsLawful d) (pages : Pages)
    (enough : (n : ℕ) (area : List ℕ) → pages n ≡ ok area → (n ≤ length area) × IsBytes area) where
  pub opens-IsSafe :
      (s : Session Dev)
      → s.state ≡ closed
      → IsSafe d s
      → IsSafe d (record (d.pcm_open s).0 { state = opened })
  opens-IsSafe s e k =
      subst (λ r. IsSafe d (record r.0 { state = opened })) (sym (laws.open_lem s))
        (record {
          announced = λ h q. some-injective d.hw h q;
          stored = λ q. refl;
          ready = λ q. absurd cc;
          steady = k.steady;
          off = λ q. k.off (ap is_running e);
          on = λ q. absurd cc;
        })

  configures-HasBuffer :
      (s : Session Dev) (hw : Hardware) (p : Params) (area : List ℕ)
      → d.hw ≡ hw
      → IsAllowed hw p
      → pages (buffer_bytes p) ≡ ok area
      → HasBuffer (some area) (runtime_of area p)
  configures-HasBuffer s hw p area e a q =
      let allowed : IsAllowed d.hw p = subst (λ h. IsAllowed h p) (sym e) a in
      let (long, bytes) = enough (buffer_bytes p) area q in
      record {
        area = area;
        there = refl;
        room = omega (arith, long, buffer_bytes_mono d.hw p laws.small allowed);
        fit = runtime_of-IsPrepared d.hw p laws.small allowed area bytes;
      }

  pub configures-IsSafe :
      (s : Session Dev) (hw : Hardware) (p : Params) (area : List ℕ)
      → is_closed s.state ≡ false
      → is_running s.state ≡ false
      → s.hw ≡ some hw
      → IsAllowed hw p
      → pages (buffer_bytes p) ≡ ok area
      → IsSafe d s
      → IsSafe d (sized p (d.pcm_hw_params pages (buffer_bytes p) s).0)
  configures-IsSafe s hw p area c r e a q k =
      subst (λ r. IsSafe d (sized p r.0)) (sym (laws.hw_params_lem pages (buffer_bytes p) area s q))
        (record {
          announced = k.announced;
          stored = λ _. k.stored c;
          ready = λ _. configures-HasBuffer s hw p area (k.announced hw e) a q;
          steady = k.steady;
          off = λ _. k.off r;
          on = λ q. absurd cc;
        })

  pub released-IsSafe :
      (s : Session Dev)
      → is_closed s.state ≡ false
      → is_running s.state ≡ false
      → IsSafe d s
      → IsSafe d (record (d.pcm_hw_free s).0 { state = opened })
  released-IsSafe s c r k =
      subst (λ r. IsSafe d (record r.0 { state = opened })) (sym (laws.hw_free_lem s))
        (record {
          announced = k.announced;
          stored = λ _. k.stored c;
          ready = λ q. absurd cc;
          steady = k.steady;
          off = λ _. k.off r;
          on = λ q. absurd cc;
        })

  pub fails-IsSafe :
      (s : Session Dev) (p : Params) (e : ℕ)
      → is_closed s.state ≡ false
      → is_running s.state ≡ false
      → pages (buffer_bytes p) ≡ err e
      → IsSafe d s
      → IsSafe d
          (record (d.pcm_hw_free (d.pcm_hw_params pages (buffer_bytes p) s).0).0 { state = opened })
  fails-IsSafe s p e c r q k =
      subst (λ r. IsSafe d (record (d.pcm_hw_free r.0).0 { state = opened }))
        (sym (laws.hw_params_fails pages (buffer_bytes p) e s q)) (released-IsSafe s c r k)

  pub prepares-IsSafe :
      (s : Session Dev)
      → s.state ≡ setup
      → IsSafe d s
      → IsSafe d (record (d.pcm_prepare s).0 { state = prepared })
  prepares-IsSafe s e k =
      subst (λ r. IsSafe d (record r.0 { state = prepared })) (sym (laws.prepare_lem s))
        (record {
          announced = k.announced;
          stored = λ _. k.stored (ap is_closed e);
          ready = λ _. k.ready (ap has_buffer e);
          steady = k.steady;
          off = λ _. k.off (ap is_running e);
          on = λ q. absurd cc;
        })

  pub starts-IsSafe :
      (s : Session Dev)
      → s.state ≡ prepared
      → IsSafe d s
      → IsSafe d (record s { dev = (d.pcm_trigger (runtime s) s.dev start).0; state = running })
  starts-IsSafe s e k =
      let b = k.ready (ap has_buffer e) in
      let (_, on, playing) = laws.starts (runtime s) s.dev b.fit k.steady in
      record {
        announced = k.announced;
        stored = λ _. k.stored (ap is_closed e);
        ready = λ _. b;
        steady = laws.steady (runtime s) (d.pcm_trigger (runtime s) s.dev start).0 playing;
        off = λ q. absurd cc;
        on = λ _. (on, playing);
      }

  pub stops-IsSafe :
      (s : Session Dev)
      → s.state ≡ running
      → IsSafe d s
      → IsSafe d (record s { dev = (d.pcm_trigger (runtime s) s.dev stop).0; state = setup })
  stops-IsSafe s e k =
      let (steady, off) = laws.stops (runtime s) s.dev k.steady in
      record {
        announced = k.announced;
        stored = λ _. k.stored (ap is_closed e);
        ready = λ _. k.ready (ap has_buffer e);
        steady = steady;
        off = λ _. off;
        on = λ q. absurd cc;
      }

  pub closes-IsSafe :
      (s : Session Dev)
      → s.state ≡ opened
      → IsSafe d s
      → IsSafe d (record (d.pcm_close s).0 { state = closed; hw = none })
  closes-IsSafe s e k =
      subst (λ r. IsSafe d (record r.0 { state = closed; hw = none })) (sym (laws.close_lem s))
        (record {
          announced = λ h q. absurd cc;
          stored = λ q. absurd cc;
          ready = λ q. absurd cc;
          steady = k.steady;
          off = λ _. k.off (ap is_running e);
          on = λ q. absurd cc;
        })

  writes-HasBuffer :
      (s : Session Dev) (old new : List ℕ)
      → s.dma_area ≡ some old
      → length new ≡ length old
      → IsBytes new
      → HasBuffer s.dma_area (runtime s)
      → HasBuffer (some new) (record (runtime s) { dma_area = new })
  writes-HasBuffer s old new e l b k =
      let same : old ≡ k.area = some-injective old k.area (sym e ∙ k.there) in
      let long : length old ≡ length k.area = ap (λ x. length x) same in
      record {
        area = new;
        there = refl;
        room = omega (arith, k.room, l, long);
        fit = record {
          bytes = b;
          some_buffer = k.fit.some_buffer;
          small_buffer = k.fit.small_buffer;
          some_period = k.fit.some_period;
          small_period = k.fit.small_period;
        };
      }

  pub writes-IsSafe :
      (s : Session Dev) (old new : List ℕ)
      → s.dma_area ≡ some old
      → length new ≡ length old
      → IsBytes new
      → IsSafe d s
      → IsSafe d (record s { dma_area = some new })
  writes-IsSafe s old new e l b k = record {
    announced = k.announced;
    stored = k.stored;
    ready = λ q. writes-HasBuffer s old new e l b (k.ready q);
    steady = k.steady;
    off = k.off;
    on = λ q. let (x, y) = k.on q in (x, laws.refills (runtime s) s.dev new y);
  }
