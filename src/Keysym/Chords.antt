-- ===== src/Keysym/Chords.antt =====
-- keysym.rs: `parse_chord`.
use bolide.Base.{
  ℕ, ◌≤◌, ◌==◌, false, Option, some, none, List, [], ◌∷◌, ◌++◌, All, length, length-append, ◌≡◌,
  ◌≢◌, refl, ap, ◌∙◌, arith, Result, ok, err, panic, stuck, ◌>>=◌, Returns, Returns-bind,
}
use mathlib.Core.List.{append_assoc}
use bolide.Base.Text.{Text, codes}
use bolide.Keysym.{
  keysym_for, split_plus, segments, expect, ok_or, chord, nonempty, parse_chord, canonical_keysym,
  find_named, text_eq,
}

-- The names of a chord, written with a plus between them.
abbrev pub join_plus : Text → List Text → Text
join_plus s [] = s
join_plus s (t ∷ rest) = s ++ (43 ∷ join_plus t rest)

abbrev pub NoPlus : Text → Type 0
NoPlus s = All (λ c. c ≢ 43) s

-- Each name is a key, none of them has a plus in it.
abbrev pub Keys : List Text → List ℕ → Type 0
Keys [] [] = Unit
Keys [] (k ∷ ks) = ⊥
Keys (s ∷ rest) [] = ⊥
Keys (s ∷ rest) (k ∷ ks) = NoPlus s × (keysym_for s ≡ some k) × Keys rest ks

split_plus-name : (s : Text) → NoPlus s → split_plus s ≡ (s, [])
unfolding split_plus
split_plus-name [] h = refl
split_plus-name (c ∷ s) h =
    let no : (c == 43) ≡ false = ground (arith, h.0) in rw (no, split_plus-name s h.1) refl

split_plus-append : (s t : Text) → NoPlus s → split_plus (s ++ (43 ∷ t)) ≡ (s, segments t)
unfolding split_plus segments
split_plus-append [] t h = refl
split_plus-append (c ∷ s) t h =
    let no : (c == 43) ≡ false = ground (arith, h.0) in rw (no, split_plus-append s t h.1) refl

segments-plus : (s t : Text) → NoPlus s → segments (s ++ (43 ∷ t)) ≡ s ∷ segments t
unfolding segments
segments-plus s t h = rw (split_plus-append s t h) refl

segments-join_plus :
    (s : Text) (rest : List Text) (ks : List ℕ)
    → Keys (s ∷ rest) ks
    → segments (join_plus s rest) ≡ s ∷ rest
unfolding segments
segments-join_plus s rest [] h = absurd h
segments-join_plus s [] (k ∷ ks) h = rw (split_plus-name s h.0) refl
segments-join_plus s (t ∷ rest) (k ∷ ks) h =
    segments-plus s (join_plus t rest) h.0 ∙ ap (◌∷◌ s) (segments-join_plus t rest ks h.2)

segments-join_plus-then :
    (s : Text) (rest : List Text) (ks : List ℕ) (t : Text)
    → Keys (s ∷ rest) ks
    → segments (join_plus s rest ++ (43 ∷ t)) ≡ (s ∷ rest) ++ segments t
segments-join_plus-then s rest [] t h = absurd h
segments-join_plus-then s [] (k ∷ ks) t h = segments-plus s t h.0
segments-join_plus-then s (u ∷ rest) (k ∷ ks) t h =
    ap segments (append_assoc s (43 ∷ join_plus u rest) (43 ∷ t))
    ∙ segments-plus s (join_plus u rest ++ (43 ∷ t)) h.0
    ∙ ap (◌∷◌ s) (segments-join_plus-then u rest ks t h.2)

no_key_without_name : {k : ℕ} → keysym_for [] ≢ some k
unfolding keysym_for
no_key_without_name h = cc

chord-name :
    (s : Text) (rest : List Text) (k : ℕ)
    → keysym_for s ≡ some k
    → chord (s ∷ rest) ≡ (chord rest >>= λ ks. ok (k ∷ ks))
unfolding chord ok_or
chord-name [] rest k h = absurd (no_key_without_name h)
chord-name (c ∷ s) rest k h = rw h refl

bind-ok : {A : Type 0} (m : Result Text A) → m ≡ (m >>= λ a. ok a)
bind-ok (ok a) = refl
bind-ok (err e) = refl
bind-ok panic = refl
bind-ok stuck = refl

bind-map :
    (m : Result Text (List ℕ)) (ks : List ℕ) (k : ℕ)
    → ((m >>= λ js. ok (ks ++ js)) >>= λ js. ok (k ∷ js)) ≡ (m >>= λ js. ok (k ∷ (ks ++ js)))
bind-map (ok a) ks k = refl
bind-map (err e) ks k = refl
bind-map panic ks k = refl
bind-map stuck ks k = refl

chord-append :
    (names : List Text) (ks : List ℕ) (rest : List Text)
    → Keys names ks
    → chord (names ++ rest) ≡ (chord rest >>= λ js. ok (ks ++ js))
chord-append [] [] rest h = bind-ok (chord rest)
chord-append [] (k ∷ ks) rest h = absurd h
chord-append (s ∷ names) [] rest h = absurd h
chord-append (s ∷ names) (k ∷ ks) rest h =
    chord-name s (names ++ rest) k h.1
    ∙ rw (chord-append names ks rest h.2) (bind-map (chord rest) ks k)

-- The trailing segments of `a++` and of `a+`.
chord-trailing : (chord (segments (43 ∷ [])) ≡ ok (0x2b ∷ [])) × (chord (segments []) ≡ err [])
unfolding chord segments split_plus expect canonical_keysym find_named text_eq
chord-trailing = (refl, refl)

parse_chord-pushed :
    (spec : Text) (ks : List ℕ)
    → 1 ≤ length ks
    → chord (segments spec) ≡ ok ks
    → parse_chord spec ≡ ok ks
unfolding parse_chord nonempty
parse_chord-pushed spec [] n h = absurd (omega arith)
parse_chord-pushed spec (k ∷ ks) n h = rw h refl

parse_chord-refused : (spec e : Text) → chord (segments spec) ≡ err e → parse_chord spec ≡ err e
unfolding parse_chord
parse_chord-refused spec e h = rw h refl

Keys-length : (s : Text) (names : List Text) (ks : List ℕ) → Keys (s ∷ names) ks → 1 ≤ length ks
Keys-length s names [] h = absurd h
Keys-length s names (k ∷ ks) h = omega arith

chord-nil : chord [] ≡ ok []
unfolding chord
chord-nil = refl

chord-names : (names : List Text) (ks : List ℕ) → Keys names ks → chord names ≡ ok ks
chord-names [] [] h = chord-nil
chord-names [] (k ∷ ks) h = absurd h
chord-names (s ∷ names) [] h = absurd h
chord-names (s ∷ names) (k ∷ ks) h = chord-name s names k h.1 ∙ rw (chord-names names ks h.2) refl

chord-then :
    (s : Text) (names : List Text) (ks : List ℕ) (t : Text)
    → Keys (s ∷ names) ks
    → chord (segments (join_plus s names ++ (43 ∷ t)))
      ≡ (chord (segments t) >>= λ js. ok (ks ++ js))
chord-then s names ks t h =
    ap chord (segments-join_plus-then s names ks t h) ∙ chord-append (s ∷ names) ks (segments t) h

-- A chord of names that are keys and hold no plus is their keysyms in press order. With `++` behind
-- it, it has the plus key last; with a single `+` behind it, it is refused.
pub parse_chord-join :
    (s : Text) (names : List Text) (ks : List ℕ)
    → Keys (s ∷ names) ks
    → (parse_chord (join_plus s names) ≡ ok ks)
      × (parse_chord (join_plus s names ++ codes "++") ≡ ok (ks ++ (0x2b ∷ [])))
      × (parse_chord (join_plus s names ++ codes "+") ≡ err [])
parse_chord-join s names ks h =
    let some_key = Keys-length s names ks h in
    (
      parse_chord-pushed _ ks some_key
          (ap chord (segments-join_plus s names ks h) ∙ chord-names (s ∷ names) ks h),
      parse_chord-pushed _ (ks ++ (0x2b ∷ [])) (omega (arith, length-append ks (0x2b ∷ [])))
          (chord-then s names ks (43 ∷ []) h ∙ rw chord-trailing.0 refl),
      parse_chord-refused _ [] (chord-then s names ks [] h ∙ rw chord-trailing.1 refl),
    )

abbrev Anything : {A : Type 0} → A → Type 0
Anything a = Unit

push-Returns :
    (k : ℕ) (m : Result Text (List ℕ))
    → Returns Anything m
    → Returns Anything (m >>= λ ks. ok (k ∷ ks))
push-Returns k m h = Returns-bind Anything Anything m _ h (λ ks _. tt)

plus-Returns : Returns Anything (expect (canonical_keysym (codes "plus")))
unfolding expect canonical_keysym find_named text_eq
plus-Returns = tt

ok_or-Returns : (o : Option ℕ) (e : Text) → Returns Anything (ok_or o e)
unfolding ok_or
ok_or-Returns none e = tt
ok_or-Returns (some k) e = tt

chord-Returns : (names : List Text) → Returns Anything (chord names)
unfolding chord
chord-Returns [] = tt
chord-Returns ([] ∷ []) = tt
chord-Returns ([] ∷ (c ∷ s) ∷ rest) = tt
chord-Returns ([] ∷ [] ∷ rest) =
    Returns-bind Anything Anything (expect (canonical_keysym (codes "plus"))) _ plus-Returns
      (λ k _. push-Returns k (chord rest) (chord-Returns rest))
chord-Returns ((c ∷ s) ∷ rest) =
    Returns-bind Anything Anything (ok_or (keysym_for (c ∷ s)) (c ∷ s)) _
      (ok_or-Returns (keysym_for (c ∷ s)) (c ∷ s))
      (λ k _. push-Returns k (chord rest) (chord-Returns rest))

nonempty-Returns : (ks : List ℕ) (spec : Text) → Returns (λ ks. 1 ≤ length ks) (nonempty ks spec)
unfolding nonempty
nonempty-Returns [] spec = tt
nonempty-Returns (k ∷ ks) spec = omega arith

-- On any text, `parse_chord` returns at least one keysym or an unknown name: its `expect` never
-- panics, and no chord is empty.
pub parse_chord-Returns : (spec : Text) → Returns (λ ks. 1 ≤ length ks) (parse_chord spec)
unfolding parse_chord
parse_chord-Returns spec =
    Returns-bind Anything _ (chord (segments spec)) _ (chord-Returns (segments spec))
      (λ ks _. nonempty-Returns ks spec)
