-- ===== src/Keysym/Names.antt =====
-- keysym.rs: `keysym_for` and `name_for_keysym`.
use bolide.Base.{
  ℕ, ◌≤◌, true, Option, some, none, Option-cases, [], ◌∷◌, length, ◌≡◌, refl, sym, ap, ◌∙◌, arith,
  inl, inr, ◌↔◌, ◌≢◌,
}
use bolide.Base.Text.{Text}
use bolide.Keysym.{
  text_eq, to_ascii_lowercase, eq_ignore_ascii_case, find_named, canonical, aliases,
  canonical_keysym, or_else, and_then, alias_keysym, keysym_for, spelled, name_for_keysym,
}
use bolide.Keysym.Tables.{
  text_eq_sound, find_named-sat, without_case, canonical_keysym-without_case, NamedBy,
  canonical-NamedBy, Meant, aliases-Meant, known, name_in-sat, canonical-Spelt, Spelt,
}

or_else-same :
    {A : Type 0} (o p q : Option A)
    → ((a : A) → o ≡ some a → or_else p q ≡ some a)
    → or_else o (or_else p q) ≡ or_else p q
unfolding or_else
or_else-same (some a) p q h = sym (h a refl)
or_else-same none p q h = refl

-- A name of two characters or more is looked up by its lowercase spelling.
keysym_for-without_case :
    (s : Text) → 2 ≤ length s → keysym_for s ≡ without_case (to_ascii_lowercase s)
unfolding keysym_for spelled without_case eq_ignore_ascii_case
keysym_for-without_case [] h = absurd (omega arith)
keysym_for-without_case (c ∷ []) h = absurd (omega arith)
keysym_for-without_case (c ∷ d ∷ s) h =
    or_else-same (canonical_keysym (c ∷ d ∷ s)) _ _
      (λ k e. canonical_keysym-without_case (c ∷ d ∷ s) e)

-- Two spellings of two characters or more that differ in ASCII case alone are the same key.
pub keysym_for_any_case :
    (s t : Text)
    → 2 ≤ length s
    → 2 ≤ length t
    → to_ascii_lowercase s ≡ to_ascii_lowercase t
    → keysym_for s ≡ keysym_for t
keysym_for_any_case s t hs ht same =
    keysym_for-without_case s hs ∙ ap without_case same ∙ sym (keysym_for-without_case t ht)

-- `name_for_keysym` gives a name exactly when the table has the keysym under that name: no keysym
-- has two names, and no name two keysyms.
pub name_for_keysym_iff :
    (k : ℕ) (n : Text) → (name_for_keysym k ≡ some n) ↔ (canonical_keysym n ≡ some k)
unfolding name_for_keysym canonical_keysym
name_for_keysym_iff k n = (
  λ h. name_in-sat Spelt k canonical canonical-Spelt h,
  λ h.
      let (m, same, named) = find_named-sat NamedBy _ canonical canonical-NamedBy h in
      named ∙ ap some (text_eq_sound m n same),
)

no_empty_name : {k : ℕ} → canonical_keysym [] ≢ some k
unfolding canonical_keysym find_named text_eq
no_empty_name h = cc

no_empty_alias :
    {canon : Text} → find_named (λ a. text_eq a (to_ascii_lowercase [])) aliases ≢ some canon
unfolding find_named text_eq to_ascii_lowercase
no_empty_alias h = cc

unknown : (n : Text) → canonical_keysym n ≡ none → known (canonical_keysym n) ≢ true
unfolding known
unknown n e h = absurd (cc)

canonical_keysym-keysym_for :
    (n : Text) {k : ℕ} → canonical_keysym n ≡ some k → keysym_for n ≡ some k
unfolding keysym_for or_else
canonical_keysym-keysym_for [] h = absurd (no_empty_name h)
canonical_keysym-keysym_for (c ∷ s) h = rw h refl

-- The name that `name_for_keysym` gives for a keysym is a name that `keysym_for` resolves to it.
keysym_for-name_for_keysym : (k : ℕ) (n : Text) → name_for_keysym k ≡ some n → keysym_for n ≡ some k
keysym_for-name_for_keysym k n h = canonical_keysym-keysym_for n ((name_for_keysym_iff k n).0 h)

alias-without_case : (l : Text) {k : ℕ} → alias_keysym l ≡ some k → without_case l ≡ some k
unfolding without_case or_else
alias-without_case l h = rw h refl

alias_keysym-found :
    (l canon : Text) {k : ℕ}
    → find_named (λ a. text_eq a l) aliases ≡ some canon
    → canonical_keysym canon ≡ some k
    → alias_keysym l ≡ some k
unfolding alias_keysym and_then
alias_keysym-found l canon h e = rw h e

alias-keysym_for :
    (c : ℕ) (s : Text) {k : ℕ}
    → alias_keysym (to_ascii_lowercase (c ∷ s)) ≡ some k
    → keysym_for (c ∷ s) ≡ some k
unfolding keysym_for or_else
alias-keysym_for c s {k = k} h = elim (Option-cases (canonical_keysym (c ∷ s))) [
  | inl e ↦ rw (e, h) refl
  | inr (j, e) ↦
      let exact = canonical_keysym-without_case (c ∷ s) e in
      rw e (sym exact ∙ alias-without_case _ h)
]

-- However an alias is capitalised, it is the key of the canonical name that `ALIASES` gives for it,
-- and the table has that name.
keysym_for-alias :
    (s canon : Text)
    → find_named (λ a. text_eq a (to_ascii_lowercase s)) aliases ≡ some canon
    → (k : ℕ) × (keysym_for s ≡ some k) × (canonical_keysym canon ≡ some k)
keysym_for-alias [] canon h = absurd (no_empty_alias h)
keysym_for-alias (c ∷ s) canon h =
    let (a, same, k) = find_named-sat Meant _ aliases aliases-Meant h in
    elim (Option-cases (canonical_keysym canon)) [
      | inl e ↦ absurd (unknown canon e k)
      | inr (k, e) ↦ (k, alias-keysym_for c s (alias_keysym-found _ canon h e), e)
    ]
