-- ===== src/Base/Bits.antt =====
-- `&`, `|` and `^` at variables: one equation for the lowest binary digit, and low masks.
pub mod Zeros
use Prim.Native.Nat.{
  ℕ, zero, suc, ◌+◌, ◌*◌, ◌/◌, ◌%◌, ◌≤◌, ◌<◌, min, max, bit_and, bit_or, digits, bitwise,
  bit_and-bitwise, bit_or-bitwise,
}
use mathlib.Core.Path.{◌≡◌, refl, sym, ap, ◌∙◌}
use native.Mathlib.Omega.{arith}

-- The count of digits that `digits` is given does not matter once it covers the first number.
module _ (z : ℕ → ℕ) (f : ℕ → ℕ → ℕ) where
  digits-zero : (n b : ℕ) → digits z f n 0 b ≡ z b
  digits-zero zero b = refl
  digits-zero (suc n) b = refl

  more_digits : (a b n m : ℕ) → a ≤ n → n ≤ m → digits z f m a b ≡ digits z f n a b
  more_digits zero b n m h _ = digits-zero m b ∙ sym (digits-zero n b)
  more_digits (suc a) b zero m h _ = absurd (omega arith)
  more_digits (suc a) b (suc n) zero _ k = absurd (omega arith)
  more_digits (suc a) b (suc n) (suc m) h k =
      let inner = more_digits (suc a / 2) (b / 2) n m (omega arith) (omega arith) in
      ap (λ t. t * 2 + f (suc a % 2) (b % 2)) inner

  bitwise_digit :
      (a b : ℕ)
      → (z b ≡ z (b / 2) * 2 + f 0 (b % 2))
      → bitwise z f a b ≡ bitwise z f (a / 2) (b / 2) * 2 + f (a % 2) (b % 2)
  bitwise_digit zero b h = h
  bitwise_digit (suc a) b h =
      let half = suc a / 2 in
      let inner = more_digits half (b / 2) half a (omega arith) (omega arith) in
      ap (λ t. t * 2 + f (suc a % 2) (b % 2)) inner

pub bit_and_digit : (a b : ℕ) → bit_and a b ≡ bit_and (a / 2) (b / 2) * 2 + min (a % 2) (b % 2)
bit_and_digit a b = simp bit_and-bitwise (bitwise_digit (λ _. 0) min a b (omega arith))

pub bit_or_digit : (a b : ℕ) → bit_or a b ≡ bit_or (a / 2) (b / 2) * 2 + max (a % 2) (b % 2)
bit_or_digit a b = simp bit_or-bitwise (bitwise_digit (λ y. y) max a b (omega arith))

-- The low `k` digits of a number, and the number with `k` ones.
abbrev pub low : ℕ → ℕ → ℕ
low zero a = 0
low (suc k) a = low k (a / 2) * 2 + a % 2

abbrev pub ones : ℕ → ℕ
ones zero = 0
ones (suc k) = ones k * 2 + 1

bit_and-zero_below : (n a : ℕ) → a ≤ n → bit_and a 0 ≡ 0
bit_and-zero_below zero zero h = refl
bit_and-zero_below zero (suc a) h = absurd (omega arith)
bit_and-zero_below (suc n) zero h = refl
bit_and-zero_below (suc n) (suc a) h =
    omega (arith, bit_and_digit (suc a) 0, bit_and-zero_below n (suc a / 2) (omega arith))

halve : (n : ℕ) → ((n * 2 + 1) / 2 ≡ n) × ((n * 2 + 1) % 2 ≡ 1)
halve n = omega arith

bit_and-ones : (k a : ℕ) → bit_and a (ones k) ≡ low k a
bit_and-ones zero a = bit_and-zero_below a a (omega arith)
bit_and-ones (suc k) a =
    bit_and_digit a (ones k * 2 + 1)
    ∙ rw ((halve (ones k)).0, (halve (ones k)).1, bit_and-ones k) (omega arith)

pub bit_and_255 : (a : ℕ) → bit_and a 255 ≡ a % 256
bit_and_255 a = omega (arith, bit_and-ones 8 a)

pub bit_and_127 : (a : ℕ) → bit_and a 127 ≡ a % 128
bit_and_127 a = omega (arith, bit_and-ones 7 a)

pub bit_and_15 : (a : ℕ) → bit_and a 15 ≡ a % 16
bit_and_15 a = omega (arith, bit_and-ones 4 a)

pub bit_and_3 : (a : ℕ) → bit_and a 3 ≡ a % 4
bit_and_3 a = omega (arith, bit_and-ones 2 a)

pub bit_and_1 : (a : ℕ) → bit_and a 1 ≡ a % 2
bit_and_1 a = omega (arith, bit_and-ones 1 a)

-- A mask never gives more than the mask.
bit_and-le_below : (n a b : ℕ) → a ≤ n → bit_and a b ≤ b
bit_and-le_below n zero b h = omega (arith, bit_and-bitwise 0 b)
bit_and-le_below zero (suc a) b h = absurd (omega arith)
bit_and-le_below (suc n) (suc a) b h =
    omega (arith, bit_and_digit (suc a) b, bit_and-le_below n (suc a / 2) (b / 2) (omega arith))

pub bit_and-le : (a b : ℕ) → bit_and a b ≤ b
bit_and-le a b = bit_and-le_below a a b (omega arith)

-- `|` of a number above the low `k` digits and one below them is their sum.
bit_or-zero : (n a : ℕ) → a ≤ n → bit_or a 0 ≡ a
bit_or-zero n zero h = refl
bit_or-zero zero (suc a) h = absurd (omega arith)
bit_or-zero (suc n) (suc a) h =
    omega (arith, bit_or_digit (suc a) 0, bit_or-zero n (suc a / 2) (omega arith))

abbrev pub twos : ℕ → ℕ
twos zero = 1
twos (suc k) = 2 * twos k

pub bit_or-disjoint : (k a b : ℕ) → b < twos k → bit_or (a * twos k) b ≡ a * twos k + b
bit_or-disjoint zero a zero h = bit_or-zero (a * 1) (a * 1) (omega arith) ∙ omega arith
bit_or-disjoint zero a (suc b) h = absurd (omega arith)
bit_or-disjoint (suc k) a b h =
    let half : a * (2 * twos k) / 2 ≡ a * twos k = omega arith in
    let even : a * (2 * twos k) % 2 ≡ 0 = omega arith in
    bit_or_digit (a * (2 * twos k)) b
    ∙ rw (half, even, bit_or-disjoint k a (b / 2) (omega arith)) (omega arith)

zero-bit_or : (a : ℕ) → bit_or 0 a ≡ a
zero-bit_or a = bit_or-bitwise 0 a

pub bit_or-disjoint_left : (k a b : ℕ) → b < twos k → bit_or b (a * twos k) ≡ a * twos k + b
bit_or-disjoint_left zero a zero h = zero-bit_or (a * 1) ∙ omega arith
bit_or-disjoint_left zero a (suc b) h = absurd (omega arith)
bit_or-disjoint_left (suc k) a b h =
    let half : a * (2 * twos k) / 2 ≡ a * twos k = omega arith in
    let even : a * (2 * twos k) % 2 ≡ 0 = omega arith in
    bit_or_digit b (a * (2 * twos k))
    ∙ rw (half, even, bit_or-disjoint_left k a (b / 2) (omega arith)) (omega arith)

bit_and_self_below : (n a : ℕ) → a ≤ n → bit_and a a ≡ a
bit_and_self_below n zero h = refl
bit_and_self_below zero (suc a) h = absurd (omega arith)
bit_and_self_below (suc n) (suc a) h =
    omega (arith, bit_and_digit (suc a) (suc a), bit_and_self_below n (suc a / 2) (omega arith))

pub bit_and_self : (a : ℕ) → bit_and a a ≡ a
bit_and_self a = bit_and_self_below a a (omega arith)

pub zero-bit_and : (a : ℕ) → bit_and 0 a ≡ 0
zero-bit_and a = bit_and-bitwise 0 a

-- A mask without the lowest digit, and the eighth digit alone.
even_mask : (a b : ℕ) → bit_and a (b * 2) ≡ bit_and (a / 2) b * 2
even_mask a b =
    let half : b * 2 / 2 ≡ b = omega arith in bit_and_digit a (b * 2) ∙ rw half (omega arith)

eighth : (a : ℕ) → bit_and (a / 16) 8 ≡ a / 16 / 2 / 2 / 2 % 2 * 8
eighth a =
    let d₁ : bit_and (a / 16) 8 ≡ bit_and (a / 16 / 2) 4 * 2 = even_mask (a / 16) 4 in
    let d₂ : bit_and (a / 16 / 2) 4 ≡ bit_and (a / 16 / 2 / 2) 2 * 2 = even_mask (a / 16 / 2) 2 in
    let d₃ : bit_and (a / 16 / 2 / 2) 2 ≡ bit_and (a / 16 / 2 / 2 / 2) 1 * 2 =
      even_mask (a / 16 / 2 / 2) 1 in
    omega (arith, d₁, d₂, d₃, bit_and_1 (a / 16 / 2 / 2 / 2))

pub bit_and_128 : (a : ℕ) → bit_and a 128 ≡ a / 128 % 2 * 128
bit_and_128 a =
    let d₁ : bit_and a 128 ≡ bit_and (a / 2) 64 * 2 = even_mask a 64 in
    let d₂ : bit_and (a / 2) 64 ≡ bit_and (a / 2 / 2) 32 * 2 = even_mask (a / 2) 32 in
    let d₃ : bit_and (a / 2 / 2) 32 ≡ bit_and (a / 2 / 2 / 2) 16 * 2 = even_mask (a / 2 / 2) 16 in
    let d₄ : bit_and (a / 2 / 2 / 2) 16 ≡ bit_and (a / 2 / 2 / 2 / 2) 8 * 2 =
      even_mask (a / 2 / 2 / 2) 8 in
    let quarter : a / 2 / 2 / 2 / 2 ≡ a / 16 = omega arith in
    let d₅ : bit_and (a / 2 / 2 / 2 / 2) 8 ≡ bit_and (a / 16) 8 = ap (λ q. bit_and q 8) quarter in
    omega (arith, d₁, d₂, d₃, d₄, d₅, eighth a)
