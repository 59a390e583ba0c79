-- ===== src/Update.antt =====
-- crates/bolide-cli/src/update.rs: the order of versions, and in the children the names of releases and
-- `update`.
pub mod Versions
pub mod Release
pub mod Install
pub mod Swap
use Prim.Native.Nat.{compare, Ordering}
use bolide.Base.{
  ℕ, zero, suc, ◌+◌, ◌-◌, ◌*◌, ◌^◌, ◌<◌, Bool, true, false, ◌&&◌, ◌||◌, Option, none, some, List,
  [], ◌∷◌, ◌++◌, Result, ok, err, panic, stuck, leb, ltb, ◌==◌, if◌then◌else◌,
}
use bolide.Base.Text.{Text, codes, split, split_once, trim}
use bolide.Keysym.{text_eq}

-- `str::parse::<u64>`, from the value of the digits so far.
unfoldable pub digits_from : ℕ → Text → Option ℕ
digits_from n [] = some n
digits_from n (c ∷ s) =
    if leb 48 c && leb c 57 && ltb (n * 10 + (c - 48)) (2 ^ 64)
    then digits_from (n * 10 + (c - 48)) s
    else none

unfoldable pub parse_u64 : Text → Option ℕ
parse_u64 [] = none
parse_u64 (c ∷ []) = digits_from 0 (c ∷ [])
parse_u64 (c ∷ d ∷ s) = if c == 43 then digits_from 0 (d ∷ s) else digits_from 0 (c ∷ d ∷ s)

abbrev pub and_then : {A B : Type 0} → Option A → (A → Option B) → Option B
and_then none f = none
and_then (some a) f = f a

-- The loop over the three slots, and the part that must not be left.
unfoldable pub core_of : List Text → Option (ℕ × ℕ × ℕ)
core_of (x ∷ y ∷ z ∷ []) = and_then (parse_u64 x) (λ major.
    and_then (parse_u64 y) (λ minor. and_then (parse_u64 z) (λ patch. some (major, minor, patch))))
core_of other = none

-- What stands before the first `c`, and what stands behind it.
unfoldable pub cut : ℕ → Text → Text × Option Text
cut c s = elim (split_once c s) [ none ↦ (s, none) | some (head, tail) ↦ (head, some tail) ]

unfoldable pub split_version : Text → Option ((ℕ × ℕ × ℕ) × Option Text)
split_version v =
    let (core, pre) = cut 45 ((cut 43 v).0) in
    and_then (core_of (split 46 core)) (λ numbers. some (numbers, pre))

unfoldable pub then_with : Ordering → Ordering → Ordering
then_with Ordering.lt next = Ordering.lt
then_with Ordering.eq next = next
then_with Ordering.gt next = Ordering.gt

-- `str::cmp`: code points and their UTF-8 bytes have the same order.
unfoldable pub text_cmp : Text → Text → Ordering
text_cmp [] [] = Ordering.eq
text_cmp [] (d ∷ t) = Ordering.lt
text_cmp (c ∷ s) [] = Ordering.gt
text_cmp (c ∷ s) (d ∷ t) = then_with (compare c d) (text_cmp s t)

unfoldable pub core_cmp : ℕ × ℕ × ℕ → ℕ × ℕ × ℕ → Ordering
core_cmp (a, b, c) (a', b', c') = then_with (compare a a') (then_with (compare b b') (compare c c'))

unfoldable pub order_parsed : Text → Text → Option ℕ → Option ℕ → Ordering
order_parsed x y (some n) (some m) = compare n m
order_parsed x y (some n) none = Ordering.lt
order_parsed x y none (some m) = Ordering.gt
order_parsed x y none none = text_cmp x y

unfoldable pub compare_part : Text → Text → Ordering
compare_part x y = order_parsed x y (parse_u64 x) (parse_u64 y)

-- The loop over the parts of both.
unfoldable pub compare_parts : List Text → List Text → Ordering
compare_parts [] [] = Ordering.eq
compare_parts [] (y ∷ ys) = Ordering.lt
compare_parts (x ∷ xs) [] = Ordering.gt
compare_parts (x ∷ xs) (y ∷ ys) = then_with (compare_part x y) (compare_parts xs ys)

unfoldable pub compare_prerelease : Text → Text → Ordering
compare_prerelease a b = compare_parts (split 46 a) (split 46 b)

unfoldable pub pre_cmp : Option Text → Option Text → Ordering
pre_cmp none none = Ordering.eq
pre_cmp none (some b) = Ordering.gt
pre_cmp (some a) none = Ordering.lt
pre_cmp (some a) (some b) = compare_prerelease a b

unfoldable pub compare_versions : Text → Text → Option Ordering
compare_versions a b = and_then (split_version a) (λ v.
    and_then (split_version b) (λ v'. some (then_with (core_cmp v.0 v'.0) (pre_cmp v.1 v'.1))))
