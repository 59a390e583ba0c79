-- ===== src/Http/Bearer.antt =====
-- http.rs: what the `Authorization` header names, in the words of its format.
use bolide.Base.{
  ℕ, ◌+◌, ◌++◌, ◌≤◌, true, false, Bool-cases, ◌&&◌, leb, Option, some, none, [], ◌∷◌, All, ◌==◌,
  ==_iff, ◌≡◌, ◌↔◌, ◌⊎◌, inl, inr, refl, sym, ap, ap₂, ◌∙◌, arith,
}
use bolide.Base.Text.{Text, codes, split_once, before, is_whitespace, trim_start}
use bolide.Keysym.{eq_ignore_ascii_case, text_eq, to_ascii_lowercase, lower}
use bolide.Http.{bearer}

-- The second text's small letters, each small or capital.
abbrev pub InEitherCase : Text → Text → Type 0
InEitherCase [] [] = Unit
InEitherCase [] (d ∷ t) = true ≡ false
InEitherCase (c ∷ s) [] = true ≡ false
InEitherCase (c ∷ s) (d ∷ t) = ((c ≡ d) ⊎ (c + 32 ≡ d)) × InEitherCase s t

abbrev Small : ℕ → Type 0
Small d = (97 ≤ d) × (d ≤ 122)

lower_iff : (c d : ℕ) → Small d → (lower c ≡ d) ↔ ((c ≡ d) ⊎ (c + 32 ≡ d))
unfolding lower
lower_iff c d small = (sound, complete)
  where
    sound : lower c ≡ d → (c ≡ d) ⊎ (c + 32 ≡ d)
    sound e = elim (Bool-cases (leb 65 c && leb c 90)) [
      | inl h ↦ inr (rw h at e)
      | inr h ↦ inl (rw h at e)
    ]

    complete : (c ≡ d) ⊎ (c + 32 ≡ d) → lower c ≡ d
    complete (inl e) = ground (arith, e, small.0, small.1)
    complete (inr e) = ground (arith, e, small.0, small.1)

lowercase-InEitherCase :
    (s t : Text) → All Small t → text_eq (to_ascii_lowercase s) t ≡ true → InEitherCase s t
unfolding text_eq to_ascii_lowercase
lowercase-InEitherCase [] [] small e = tt
lowercase-InEitherCase [] (d ∷ t) small e = sym e
lowercase-InEitherCase (c ∷ s) [] small e = sym e
lowercase-InEitherCase (c ∷ s) (d ∷ t) small e = elim (Bool-cases (lower c == d)) [
  | inl h ↦ (
    (lower_iff c d small.0).0 ((==_iff (lower c) d).0 h),
    lowercase-InEitherCase s t small.1 (rw h at e),
  )
  | inr h ↦ absurd (let no : false ≡ true = rw h at e in cc)
]

InEitherCase-lowercase :
    (s t : Text) → All Small t → InEitherCase s t → text_eq (to_ascii_lowercase s) t ≡ true
unfolding text_eq to_ascii_lowercase
InEitherCase-lowercase [] [] small h = refl
InEitherCase-lowercase [] (d ∷ t) small h = sym h
InEitherCase-lowercase (c ∷ s) [] small h = sym h
InEitherCase-lowercase (c ∷ s) (d ∷ t) small h =
    rw ((==_iff (lower c) d).1 ((lower_iff c d small.0).1 h.0))
      (InEitherCase-lowercase s t small.1 h.1)

-- No letter of such a text is a space.
InEitherCase-no_space :
    (s t : Text) → All Small t → InEitherCase s t → All (λ c. (c == 32) ≡ false) s
InEitherCase-no_space [] t small h = tt
InEitherCase-no_space (c ∷ s) [] small h = absurd (cc)
InEitherCase-no_space (c ∷ s) (d ∷ t) small h = (letter h.0, InEitherCase-no_space s t small.1 h.1)
  where
    letter : (c ≡ d) ⊎ (c + 32 ≡ d) → (c == 32) ≡ false
    letter (inl e) = ground (arith, e, small.0.0, small.0.1)
    letter (inr e) = ground (arith, e, small.0.0, small.0.1)

before-some :
    (d : ℕ) (o : Option (Text × Text)) {h t : Text}
    → before d o ≡ some (h, t)
    → (h' : Text) × (o ≡ some (h', t)) × (h ≡ d ∷ h')
before-some d none e = absurd (cc)
before-some d (some (h', t')) {h = h} {t = t} e = (h', cc, cc)

split_once_sound : (c : ℕ) (s h t : Text) → split_once c s ≡ some (h, t) → s ≡ h ++ (c ∷ t)
split_once_sound c [] h t e = absurd (cc)
split_once_sound c (d ∷ s) h t e = elim (Bool-cases (d == c)) [
  | inl same ↦
      let found : ◌≡◌ {A = Option (Text × Text)} (some ([], s)) (some (h, t)) = rw same at e in
      let nothing : h ≡ [] = cc in
      let rest : s ≡ t = cc in rw nothing (ap₂ (◌∷◌) ((==_iff d c).0 same) rest)
  | inr other ↦
      let (h', rest, first) = before-some d (split_once c s) (rw other at e) in
      ap (λ q. d ∷ q) (split_once_sound c s h' t rest) ∙ sym (ap (λ q. q ++ (c ∷ t)) first)
]

split_once_complete :
    (c : ℕ) (h t : Text) → All (λ d. (d == c) ≡ false) h → split_once c (h ++ (c ∷ t)) ≡ some (h, t)
split_once_complete c [] t none_is = rw ((==_iff c c).1 refl) refl
split_once_complete c (d ∷ h) t none_is = rw (none_is.0, split_once_complete c h t none_is.1) refl

abbrev pub NotPadded : Text → Type 0
NotPadded [] = Unit
NotPadded (c ∷ s) = is_whitespace c ≡ false

-- Whitespace, and then the token, which does not begin with any.
abbrev pub Padded : Text → Text → Type 0
Padded tail token =
    (spaces : Text) × All (λ c. is_whitespace c ≡ true) spaces
    × (tail ≡ spaces ++ token)
    × NotPadded token

trim_start-Padded : (s : Text) → Padded s (trim_start s)
trim_start-Padded [] = ([], tt, refl, tt)
trim_start-Padded (c ∷ s) = elim (Bool-cases (is_whitespace c)) [
  | inl space ↦
      let (spaces, all, split, bare) = trim_start-Padded s in
      rw space (c ∷ spaces, (space, all), ap (λ q. c ∷ q) split, bare)
  | inr bare ↦ rw bare ([], tt, refl, bare)
]

Padded-trim_start :
    (spaces token : Text)
    → All (λ c. is_whitespace c ≡ true) spaces
    → NotPadded token
    → trim_start (spaces ++ token) ≡ token
Padded-trim_start [] [] all bare = refl
Padded-trim_start [] (c ∷ s) all bare = rw bare refl
Padded-trim_start (c ∷ spaces) token all bare =
    rw (all.0) (Padded-trim_start spaces token all.1 bare)

-- The word `bearer` in either case, a space, and the token with or without whitespace before it.
abbrev pub Bearing : Text → Text → Type 0
Bearing value token =
    (scheme : Text) × (tail : Text) × (value ≡ scheme ++ (32 ∷ tail))
    × InEitherCase scheme (codes "bearer")
    × Padded tail token

bearer_word : All Small (codes "bearer")
bearer_word = (
  (omega arith, omega arith),
  (
    (omega arith, omega arith),
    (
      (omega arith, omega arith),
      ((omega arith, omega arith), ((omega arith, omega arith), ((omega arith, omega arith), tt))),
    ),
  ),
)

in_small_letters : to_ascii_lowercase (codes "bearer") ≡ codes "bearer"
unfolding to_ascii_lowercase lower
in_small_letters = refl

bearer_eq :
    (scheme : Text)
    → (eq_ignore_ascii_case scheme (codes "bearer") ≡ true) ↔ InEitherCase scheme (codes "bearer")
unfolding eq_ignore_ascii_case
bearer_eq scheme = (
  λ e. lowercase-InEitherCase scheme (codes "bearer") bearer_word (rw in_small_letters at e),
  λ h. rw in_small_letters (InEitherCase-lowercase scheme (codes "bearer") bearer_word h),
)

pub bearer_iff : (value token : Text) → (bearer value ≡ some token) ↔ Bearing value token
unfolding bearer
bearer_iff value token = (sound, complete)
  where
    split_at :
        (o : Option (Text × Text))
        → split_once 32 value ≡ o
        → bearer value ≡ some token
        → Bearing value token
    split_at none e h = absurd (let no : none ≡ some token = rw (e, bearer) at h in cc)
    split_at (some (scheme, tail)) e h =
        elim (Bool-cases (eq_ignore_ascii_case scheme (codes "bearer"))) [
          | inl same ↦
              let named : some (trim_start tail) ≡ some token = rw (e, same, bearer) at h in
              let bare : trim_start tail ≡ token = cc in
              (
                scheme,
                tail,
                split_once_sound 32 value scheme tail e,
                (bearer_eq scheme).0 same,
                rw (sym bare) (trim_start-Padded tail),
              )
          | inr other ↦ absurd (let no : none ≡ some token = rw (e, other, bearer) at h in cc)
        ]

    sound : bearer value ≡ some token → Bearing value token
    sound h = split_at (split_once 32 value) refl h

    complete : Bearing value token → bearer value ≡ some token
    complete (scheme, tail, split, word, (spaces, all, behind, bare)) =
        rw
          (
            split,
            split_once_complete 32 scheme tail
                (InEitherCase-no_space scheme (codes "bearer") bearer_word word),
            (bearer_eq scheme).1 word,
            behind,
            Padded-trim_start spaces token all bare,
            bearer,
          )
          refl
