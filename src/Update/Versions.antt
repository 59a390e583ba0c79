-- ===== src/Update/Versions.antt =====
-- update.rs: the order of versions.
use Prim.Native.Nat.{compare, Ordering}
use mathlib.Core.Option
use bolide.Base.{ℕ, Option, none, some, List, [], ◌∷◌, ◌≡◌, refl, ap, arith}
use bolide.Base.Text.{Text, split}
use bolide.Update.{
  and_then, split_version, then_with, text_cmp, core_cmp, order_parsed, compare_part, compare_parts,
  compare_prerelease, pre_cmp, compare_versions, parse_u64,
}

-- `Ordering::reverse`.
abbrev pub reverse : Ordering → Ordering
reverse Ordering.lt = Ordering.gt
reverse Ordering.eq = Ordering.eq
reverse Ordering.gt = Ordering.lt

compare_flips : (a b : ℕ) → compare b a ≡ reverse (compare a b)
compare_flips a b = ground arith

then_flips : (o p : Ordering) → then_with (reverse o) (reverse p) ≡ reverse (then_with o p)
unfolding then_with
then_flips Ordering.lt p = refl
then_flips Ordering.eq p = refl
then_flips Ordering.gt p = refl

then_both :
    (o p : Ordering) {o' p' : Ordering}
    → o' ≡ reverse o
    → p' ≡ reverse p
    → then_with o' p' ≡ reverse (then_with o p)
then_both o p e e' = rw (e, e') (then_flips o p)

text_flips : (s t : Text) → text_cmp t s ≡ reverse (text_cmp s t)
unfolding text_cmp
text_flips [] [] = refl
text_flips [] (d ∷ t) = refl
text_flips (c ∷ s) [] = refl
text_flips (c ∷ s) (d ∷ t) = then_both _ _ (compare_flips c d) (text_flips s t)

parsed_flips : (x y : Text) (n m : Option ℕ) → order_parsed y x m n ≡ reverse (order_parsed x y n m)
unfolding order_parsed
parsed_flips x y (some n) (some m) = compare_flips n m
parsed_flips x y (some n) none = refl
parsed_flips x y none (some m) = refl
parsed_flips x y none none = text_flips x y

parts_flip : (xs ys : List Text) → compare_parts ys xs ≡ reverse (compare_parts xs ys)
unfolding compare_parts compare_part
parts_flip [] [] = refl
parts_flip [] (y ∷ ys) = refl
parts_flip (x ∷ xs) [] = refl
parts_flip (x ∷ xs) (y ∷ ys) =
    then_both _ _ (parsed_flips x y (parse_u64 x) (parse_u64 y)) (parts_flip xs ys)

pre_flips : (p q : Option Text) → pre_cmp q p ≡ reverse (pre_cmp p q)
unfolding pre_cmp compare_prerelease
pre_flips none none = refl
pre_flips none (some b) = refl
pre_flips (some a) none = refl
pre_flips (some a) (some b) = parts_flip (split 46 a) (split 46 b)

core_flips : (v v' : ℕ × ℕ × ℕ) → core_cmp v' v ≡ reverse (core_cmp v v')
unfolding core_cmp
core_flips (a, b, c) (a', b', c') =
    then_both _ _ (compare_flips a a') (then_both _ _ (compare_flips b b') (compare_flips c c'))

-- Two versions compare the other way round as the reverse, and where one has no order neither has.
pub compare_versions_flips :
    (a b : Text) → compare_versions b a ≡ Option.map reverse (compare_versions a b)
unfolding compare_versions
compare_versions_flips a b = flips (split_version a) (split_version b)
  where
    flips :
        (v v' : Option ((ℕ × ℕ × ℕ) × Option Text))
        → and_then v' (λ q. and_then v (λ p. some (then_with (core_cmp q.0 p.0) (pre_cmp q.1 p.1))))
          ≡ Option.map reverse (
              and_then v
                (λ p. and_then v' (λ q. some (then_with (core_cmp p.0 q.0) (pre_cmp p.1 q.1)))))
    flips none none = refl
    flips none (some q) = refl
    flips (some p) none = refl
    flips (some p) (some q) = ap some (then_both _ _ (core_flips p.0 q.0) (pre_flips p.1 q.1))
