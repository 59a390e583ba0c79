-- ===== src/Base/Bits/Zeros.antt =====
-- When `|` and `^` give 0.
use Prim.Native.Nat.{
  ℕ, zero, suc, ◌+◌, ◌*◌, ◌/◌, ◌%◌, ◌≤◌, ◌<◌, max, bit_or, bit_xor, differ, bit_xor-bitwise,
}
use mathlib.Core.Path.{◌≡◌, refl, sym, ◌∙◌}
use native.Mathlib.Omega.{arith}
use bolide.Base.Bits.{bitwise_digit, bit_or_digit}

zero-differ : (y : ℕ) → y ≡ y / 2 * 2 + differ 0 (y % 2)
zero-differ y = omega arith

bit_xor_digit : (a b : ℕ) → bit_xor a b ≡ bit_xor (a / 2) (b / 2) * 2 + differ (a % 2) (b % 2)
bit_xor_digit a b = simp bit_xor-bitwise (bitwise_digit (λ y. y) differ a b (zero-differ b))

-- The digits differ.
differ_digits : (a b : ℕ) → a < 2 → b < 2 → differ a b ≡ 0 → a ≡ b
differ_digits zero b h k e = sym e
differ_digits (suc zero) zero h k e = e
differ_digits (suc zero) (suc zero) h k e = refl
differ_digits (suc zero) (suc (suc b)) h k e = absurd (omega arith)
differ_digits (suc (suc a)) b h k e = absurd (omega arith)

bit_xor-zero_below : (n a b : ℕ) → a ≤ n → b ≤ n → bit_xor a b ≡ 0 → a ≡ b
bit_xor-zero_below zero a b h k e = omega arith
bit_xor-zero_below (suc n) a b h k e =
    let digit = bit_xor_digit a b in
    let low : a % 2 ≡ b % 2 =
      differ_digits (a % 2) (b % 2) (omega arith) (omega arith) (omega (arith, digit, e)) in
    let high : a / 2 ≡ b / 2 =
      bit_xor-zero_below n (a / 2) (b / 2) (omega (arith, h)) (omega (arith, k))
        (omega (arith, digit, e)) in
    omega (arith, low, high)

-- Numbers whose `^` is 0 are equal.
pub bit_xor-zero : (a b : ℕ) → bit_xor a b ≡ 0 → a ≡ b
bit_xor-zero a b e = bit_xor-zero_below (max a b) a b (omega arith) (omega arith) e

differ_same : (a : ℕ) → differ a a ≡ 0
differ_same zero = refl
differ_same (suc a) = differ_same a

bit_xor_same_below : (n a : ℕ) → a ≤ n → bit_xor a a ≡ 0
bit_xor_same_below zero a h = let e : a ≡ 0 = omega arith in rw e refl
bit_xor_same_below (suc n) a h =
    bit_xor_digit a a
    ∙ omega (arith, bit_xor_same_below n (a / 2) (omega (arith, h)), differ_same (a % 2))

pub bit_xor_same : (a : ℕ) → bit_xor a a ≡ 0
bit_xor_same a = bit_xor_same_below a a (omega arith)

bit_or-zeros_below : (n a b : ℕ) → a ≤ n → b ≤ n → bit_or a b ≡ 0 → (a ≡ 0) × (b ≡ 0)
bit_or-zeros_below zero a b h k e = omega arith
bit_or-zeros_below (suc n) a b h k e =
    let digit = bit_or_digit a b in
    let (high, high') =
      bit_or-zeros_below n (a / 2) (b / 2) (omega (arith, h)) (omega (arith, k))
        (omega (arith, digit, e)) in
    omega (arith, digit, e, high, high')

pub bit_or-zeros : (a b : ℕ) → bit_or a b ≡ 0 → (a ≡ 0) × (b ≡ 0)
bit_or-zeros a b e = bit_or-zeros_below (max a b) a b (omega arith) (omega arith) e
