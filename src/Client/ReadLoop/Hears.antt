-- ===== src/Client/ReadLoop/Hears.antt =====
-- client.rs: calls of the read loop, by what they read and what they make of the shared state.
use mathlib.Core.List.{append_assoc, append-nil}
use bolide.Base.{ℕ, List, [], ◌++◌, ok, ◌≡◌, refl, ap, ◌∙◌}
use bolide.Session.{Inner}
use bolide.Client.{Io}
use bolide.Client.Talks.{Talks, conn}
use bolide.Client.ReadLoop.{Reading, Decoders, Loop, go_on, ◌>>=◌, pure, reads, shared}

-- The loop at a connection that will send `input`.
abbrev pub at : {Z : Type 0} → Decoders Z → List ℕ → List ℕ → Inner → Reading Z
at d input out i = record { conn = conn input out; inner = i; decoders = d }

-- Whatever follows `s`, `m` reads `s`, turns the shared state `i` into `i'` and gives `a`.
pub record Hears {Z A : Type 0} (d : Decoders Z) (m : Loop Z A) (s : List ℕ) (i i' : Inner) (a : A)
    : Type 0 where
  pub runs : (t o : List ℕ) → m (at d (s ++ t) o i) ≡ (at d t o i', ok a)

module _ {Z : Type 0} (d : Decoders Z) where
  pub Hears-reads :
      {A : Type 0} (m : Io A) (s : List ℕ) (i : Inner) (a : A)
      → Talks m s [] (ok a)
      → Hears d (reads m) s i i a
  unfolding reads
  Hears-reads m s i a h = record {
    runs = λ t o.
        ap (λ p. (record { conn = p.0; inner = i; decoders = d }, p.1))
          (h.runs t o ∙ ap (λ q. (conn t q, ok a)) (append-nil o));
  }

  pub Hears-shared : (f : Inner → Inner) (i : Inner) → Hears d (shared f) [] i (f i) tt
  unfolding shared
  Hears-shared f i = record { runs = λ t o. refl }

  pub Hears-pure : {A : Type 0} (a : A) (i : Inner) → Hears d (pure a) [] i i a
  unfolding pure
  Hears-pure a i = record { runs = λ t o. refl }

  pub Hears-bind :
      {A B : Type 0} (m : Loop Z A) (f : A → Loop Z B) {s s' : List ℕ} {i i' i'' : Inner} {a : A}
      {b : B}
      → Hears d m s i i' a
      → Hears d (f a) s' i' i'' b
      → Hears d (m >>= f) (s ++ s') i i'' b
  unfolding go_on
  Hears-bind m f {s} {s'} h k = record {
    runs = λ t o. rw (append_assoc s s' t) (ap (go_on f) (h.runs (s' ++ t) o) ∙ k.runs t o);
  }

  pub Hears-as :
      {A : Type 0} (m : Loop Z A) {s s' : List ℕ} {i i' : Inner} {a : A}
      → Hears d m s i i' a
      → s ≡ s'
      → Hears d m s' i i' a
  Hears-as m h e = rw (← e) h
