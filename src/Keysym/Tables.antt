-- ===== src/Keysym/Tables.antt =====
-- keysym.rs: what a look-up in `CANONICAL` and `ALIASES` can give.
use bolide.Base.{
  ℕ, ◌==◌, ==_iff, ◌&&◌, Bool, true, false, Bool-cases, Option, some, none, List, [], ◌∷◌, All, ◌≡◌,
  refl, sym, ap, ◌∙◌, arith, inl, inr,
}
use bolide.Base.Text.{Text}
use bolide.Keysym.{
  text_eq, lower, to_ascii_lowercase, find_named, canonical, aliases, canonical_keysym, or_else,
  and_then, alias_keysym, name_in,
}

pub text_eq_sound : (s t : Text) → text_eq s t ≡ true → s ≡ t
unfolding text_eq
text_eq_sound [] [] h = refl
text_eq_sound [] (d ∷ t) h = absurd (cc)
text_eq_sound (c ∷ s) [] h = absurd (cc)
text_eq_sound (c ∷ s) (d ∷ t) h = grind (arith, text_eq_sound s t, ==_iff)

pub text_eq_refl : (s : Text) → text_eq s s ≡ true
unfolding text_eq
text_eq_refl [] = refl
text_eq_refl (c ∷ s) = rw ((==_iff c c).1 refl) (text_eq_refl s)

module _ {ℓ κ} {B : Type ℓ} (P : Text × B → Type κ) (p : Text → Bool) where
  -- What is found stands in the table, under a name that passes the test.
  pub find_named-sat :
      (table : List (Text × B)) {b : B}
      → All P table
      → find_named p table ≡ some b
      → (n : Text) × (p n ≡ true) × P (n, b)
  unfolding find_named
  find_named-sat [] {b = b} hs h = absurd (cc)
  find_named-sat ((n, a) ∷ rest) {b = b} hs h = elim (Bool-cases (p n)) [
    | inl e ↦ (n, e, let same : b ≡ a = ground arith in rw same hs.0)
    | inr e ↦ find_named-sat rest hs.1 (ground arith)
  ]

-- A look-up by name that ignores case: the aliases, then the table.
unfoldable pub without_case : Text → Option ℕ
without_case l =
    or_else (alias_keysym l) (find_named (λ n. text_eq (to_ascii_lowercase n) l) canonical)

-- The tests below run through the tables.
unfoldable is_keysym : ℕ → Option ℕ → Bool
is_keysym k none = false
is_keysym k (some j) = j == k

is_keysym_sound : (k : ℕ) (o : Option ℕ) → is_keysym k o ≡ true → o ≡ some k
unfolding is_keysym
is_keysym_sound k none h = absurd (cc)
is_keysym_sound k (some j) h = ap some ((==_iff j k).0 h)

unfoldable all {ℓ} : {A : Type ℓ} → (A → Bool) → List A → Bool
all t [] = true
all t (x ∷ xs) = t x && all t xs

all-All {ℓ κ} :
    {A : Type ℓ} (P : A → Type κ) (t : A → Bool) (xs : List A)
    → ((x : A) → t x ≡ true → P x)
    → all t xs ≡ true
    → All P xs
unfolding all
all-All P t [] f h = tt
all-All P t (x ∷ xs) f h = elim (Bool-cases (t x)) [
  | inl e ↦ (f x e, all-All P t xs f (ground arith))
  | inr e ↦ absurd (ground arith)
]

-- Its own spelling finds each entry, in any case.
canonical_in_any_case :
    all (λ e. is_keysym e.1 (without_case (to_ascii_lowercase e.0))) canonical ≡ true
unfolding all is_keysym without_case to_ascii_lowercase lower alias_keysym and_then or_else
    find_named text_eq canonical_keysym
canonical_in_any_case = refl

abbrev InAnyCase : Text × ℕ → Type 0
InAnyCase e = without_case (to_ascii_lowercase e.0) ≡ some e.1

canonical-without_case : All InAnyCase canonical
canonical-without_case =
    all-All InAnyCase _ canonical (λ e h. is_keysym_sound e.1 _ h) canonical_in_any_case

-- An exact look-up agrees with the one that ignores case.
pub canonical_keysym-without_case :
    (n : Text) {k : ℕ} → canonical_keysym n ≡ some k → without_case (to_ascii_lowercase n) ≡ some k
unfolding canonical_keysym
canonical_keysym-without_case n {k = k} h =
    let (m, same, w) = find_named-sat InAnyCase _ canonical canonical-without_case h in
    ap (λ s. without_case (to_ascii_lowercase s)) (sym (text_eq_sound m n same)) ∙ w

is_name : Option Text → Text → Bool
is_name none n = false
is_name (some m) n = text_eq m n

is_name_sound : (o : Option Text) (n : Text) → is_name o n ≡ true → o ≡ some n
unfolding is_name
is_name_sound none n h = absurd (cc)
is_name_sound (some m) n h = ap some (text_eq_sound m n h)

canonical_names : all (λ e. is_name (name_in canonical e.1) e.0) canonical ≡ true
unfolding all is_name name_in text_eq
canonical_names = refl

-- Two names of the table never share a keysym.
abbrev pub NamedBy : Text × ℕ → Type 0
NamedBy e = name_in canonical e.1 ≡ some e.0

pub canonical-NamedBy : All NamedBy canonical
canonical-NamedBy = all-All NamedBy _ canonical (λ e h. is_name_sound _ e.0 h) canonical_names

-- Every alias is for a name of the table.
unfoldable pub known : Option ℕ → Bool
known none = false
known (some k) = true

abbrev pub Meant : Text × Text → Type 0
Meant e = known (canonical_keysym e.1) ≡ true

alias_names : all (λ e. known (canonical_keysym e.1)) aliases ≡ true
unfolding all known canonical_keysym find_named text_eq
alias_names = refl

pub aliases-Meant : All Meant aliases
aliases-Meant = all-All Meant _ aliases (λ e h. h) alias_names

module _ {κ} (P : Text × ℕ → Type κ) (k : ℕ) where
  -- A name found for a keysym stands beside it in the table.
  pub name_in-sat :
      (table : List (Text × ℕ)) {n : Text} → All P table → name_in table k ≡ some n → P (n, k)
  unfolding name_in
  name_in-sat [] hs h = absurd (cc)
  name_in-sat ((m, j) ∷ rest) {n = n} hs h = elim (Bool-cases (j == k)) [
    | inl e ↦
        let same_key : k ≡ j = ground arith in
        let same : n ≡ m = ground arith in rw (same_key, same) hs.0
    | inr e ↦ name_in-sat rest hs.1 (ground arith)
  ]

abbrev pub Spelt : Text × ℕ → Type 0
Spelt e = canonical_keysym e.0 ≡ some e.1

canonical_spelt : all (λ e. is_keysym e.1 (canonical_keysym e.0)) canonical ≡ true
unfolding all is_keysym canonical_keysym find_named text_eq
canonical_spelt = refl

pub canonical-Spelt : All Spelt canonical
canonical-Spelt = all-All Spelt _ canonical (λ e h. is_keysym_sound e.1 _ h) canonical_spelt
