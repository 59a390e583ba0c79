-- ===== src/Http/Token.antt =====
-- http.rs: which requests the token lets through.
use bolide.Base.{
  ℕ, bit_or, bit_xor, true, false, Bool-cases, Option, none, some, List, [], ◌∷◌, ◌==◌, ==_iff,
  length, ◌≡◌, ◌≢◌, ◌↔◌, refl, ap, ◌∙◌, inl, inr, arith,
}
use bolide.Base.Bits.Zeros.{bit_xor-zero, bit_xor_same, bit_or-zeros}
use bolide.Base.Text.{Text}
use bolide.Http.Bearer.{Bearing, bearer_iff}
use bolide.Http.{
  differing, token_matches, presented, gate_for, require_token, next, refuse, ApiError,
}

-- No difference in what the loop has read, and none in what is left.
differing-same :
    (xs ys : List ℕ) (acc : ℕ)
    → length xs ≡ length ys
    → differing acc xs ys ≡ 0
    → (acc ≡ 0) × (xs ≡ ys)
unfolding differing
differing-same [] [] acc h e = (e, refl)
differing-same [] (y ∷ ys) acc h e = absurd (omega (arith, h))
differing-same (x ∷ xs) [] acc h e = absurd (omega (arith, h))
differing-same (x ∷ xs) (y ∷ ys) acc h e =
    let (so_far, rest) = differing-same xs ys (bit_or acc (bit_xor x y)) (omega (arith, h)) e in
    let (before, here) = bit_or-zeros acc (bit_xor x y) so_far in
    (before, ap (λ z. z ∷ xs) (bit_xor-zero x y here) ∙ ap (◌∷◌ y) rest)

differing_refl : (xs : List ℕ) → differing 0 xs xs ≡ 0
unfolding differing
differing_refl [] = refl
differing_refl (x ∷ xs) =
    let none_here : bit_or 0 (bit_xor x x) ≡ 0 = ap (bit_or 0) (bit_xor_same x) in
    rw none_here (differing_refl xs)

-- A token is accepted exactly when it is the one expected.
pub token_matches_iff :
    (given expected : List ℕ) → (token_matches given expected ≡ true) ↔ (given ≡ expected)
unfolding token_matches
token_matches_iff given expected = (sound, complete)
  where
    sound : token_matches given expected ≡ true → given ≡ expected
    sound h = elim (Bool-cases (length given == length expected)) [
      | inl e ↦ (differing-same given expected 0 ((==_iff _ _).0 e) ((==_iff _ _).0 (rw e at h))).1
      | inr e ↦ absurd (let no : false ≡ true = rw e at h in cc)
    ]

    complete : given ≡ expected → token_matches given expected ≡ true
    complete e =
        rw e
          (rw ((==_iff (length expected) (length expected)).1 refl, differing_refl expected) refl)

refuse-ne : (e : ApiError) → refuse e ≢ next
refuse-ne e h = absurd (cc)

-- The header is there, and bears the token.
abbrev pub Names : Option Text → List ℕ → Type 0
Names header expected = (value : Text) × (header ≡ some value) × Bearing value expected

presented-Names :
    (header : Option Text) (token : Text) → presented header ≡ some token → Names header token
unfolding presented
presented-Names none token h = absurd (cc)
presented-Names (some value) token h = (value, refl, (bearer_iff value token).0 h)

gate_for_next :
    (expected : List ℕ) (given : Option Text)
    → gate_for expected given ≡ next
    → given ≡ some expected
unfolding gate_for
gate_for_next expected none h = absurd (cc)
gate_for_next expected (some token) h = elim (Bool-cases (token_matches token expected)) [
  | inl e ↦ ap some ((token_matches_iff token expected).0 e)
  | inr e ↦ absurd (refuse-ne _ (rw e at h))
]

gate_for_same : (expected : List ℕ) → gate_for expected (some expected) ≡ next
unfolding gate_for
gate_for_same expected = rw ((token_matches_iff expected expected).1 refl) refl

-- Where a token is set, a request passes exactly when its header is the word `bearer`, in capital or
-- small letters, a space, any more whitespace, and that token, which does not begin with whitespace.
pub require_token_iff :
    (expected : List ℕ) (header : Option Text)
    → (require_token (some expected) header ≡ next) ↔ Names header expected
unfolding require_token presented
require_token_iff expected header = (
  λ h. presented-Names header expected (gate_for_next expected (presented header) h),
  λ (value, there, bears).
      rw there (rw ((bearer_iff value expected).1 bears) (gate_for_same expected)),
)
