-- ===== src/Actions/Drag.antt =====
-- actions.rs, `drag`: where the held moves are.
use native.Mathlib.Nat.{
  mul-div-le, lt-mul-div-succ, div-lt_iff_lt-mul, div-eq_of_lt, div-eq_of_lt-le, mul-le-mul_left,
}
use bolide.Base.{
  ℕ, zero, suc, ◌+◌, ◌-◌, ◌*◌, ◌/◌, ◌^◌, ◌≤◌, ◌<◌, min, max, dec_le, lt→leb, le→leb, ◌≡◌, refl, sym,
  ap, ◌∙◌, arith,
}
use bolide.Base.Ints.{pos, negsuc, neg, ◌+ℤ◌, ◌-ℤ◌, ◌*ℤ◌, ◌/ℤ◌, signum}
use bolide.Actions.{along}

-- The distance walked after `i` of `n` moves over `d` pixels.
walked : ℕ → ℕ → ℕ → ℕ
walked d i n = (2 * (d * i) + n) / (2 * n)

walked-le : (d i n : ℕ) → i ≤ n → 1 ≤ n → (2 * (d * i) + n) / (2 * n) ≤ d
walked-le d i n h k =
    let within : d * i ≤ d * n = mul-le-mul_left d h in
    let below : (2 * (d * i) + n) / (2 * n) < suc d =
      (div-lt_iff_lt-mul {k = 2 * n} {x = 2 * (d * i) + n} {y = suc d} (omega arith)).1
        (omega arith) in
    omega arith

minus_forward : (a b : ℕ) → b ≤ a → pos a -ℤ pos b ≡ pos (a - b)
minus_forward a zero h = ap pos (omega arith)
minus_forward a (suc b) h = rw (le→leb (suc b) a h) refl

minus_back : (a b : ℕ) → a < b → pos a -ℤ pos b ≡ negsuc (b - a - 1)
minus_back a zero h = absurd (omega arith)
minus_back a (suc b) h = rw (lt→leb (suc b) a h) refl

neg_suc : (m : ℕ) → 1 ≤ m → neg m ≡ negsuc (m - 1)
neg_suc zero h = absurd (omega arith)
neg_suc (suc m) h = ap negsuc (omega arith)

no_step : (n : ℕ) → 1 ≤ n → ((2 * 0 + 0 * n) / (2 * n) ≡ 0) × ((2 * 0 + n) / (2 * n) ≡ 0)
no_step n h = (div-eq_of_lt (omega arith), div-eq_of_lt (omega arith))

-- The rounded offset for `t` pixels over `n` moves, to the right and to the left.
rounded_forward :
    (t n : ℕ)
    → 1 ≤ n
    → (pos (2 * t) +ℤ signum (pos t) *ℤ pos n) /ℤ pos (2 * n) ≡ pos ((2 * t + n) / (2 * n))
rounded_forward zero n h = ap pos ((no_step n h).0 ∙ sym (no_step n h).1)
rounded_forward (suc t) n h = ap (λ m. pos ((2 * suc t + m) / (2 * n))) (omega arith)

rounded_back :
    (t n : ℕ)
    → 1 ≤ n
    → (pos 2 *ℤ neg t +ℤ signum (neg t) *ℤ pos n) /ℤ pos (2 * n) ≡ neg ((2 * t + n) / (2 * n))
rounded_back zero n h = ap pos (no_step n h).0 ∙ ap neg (sym (no_step n h).1)
rounded_back (suc t) n h =
    rw (neg_suc (2 * suc t) (omega arith), neg_suc (1 * n) (omega arith))
      (ap (λ m. neg (m / (2 * n))) (omega arith))

along_forward :
    (from to i n : ℕ)
    → from ≤ to
    → to < 2 ^ 16
    → 1 ≤ n
    → i ≤ n
    → along from to i n ≡ from + (2 * ((to - from) * i) + n) / (2 * n)
unfolding along
along_forward from to i n h k m j =
    let q = walked-le (to - from) i n j m in
    rw (minus_forward to from h, rounded_forward ((to - from) * i) n m) (omega arith)

along_back :
    (from to i n : ℕ)
    → to < from
    → from < 2 ^ 16
    → 1 ≤ n
    → i ≤ n
    → along from to i n ≡ from - (2 * ((from - to) * i) + n) / (2 * n)
unfolding along
along_back from to i n h k m j =
    let q = walked-le (from - to) i n j m in
    let less : suc (from - to - 1) ≡ from - to = omega arith in
    let room : (2 * ((from - to) * i) + n) / (2 * n) ≤ from = omega (arith, q) in
    rw (minus_back to from h, less, rounded_back ((from - to) * i) n m, minus_forward from _ room)
      (omega arith)

-- A number `x` is a nearest pixel to the point that lies `i` of `n` parts of the way.
abbrev pub Nearest : ℕ → ℕ → ℕ → ℕ → ℕ → Type 0
Nearest from to i n x =
    (2 * (n * x) ≤ 2 * (from * (n - i) + to * i) + n)
    × (2 * (from * (n - i) + to * i) ≤ 2 * (n * x) + n)

-- `q` is the rounded walk of `d` pixels.
Rounded : ℕ → ℕ → ℕ → ℕ → Type 0
Rounded d i n q = (2 * n * q ≤ 2 * (d * i) + n) × (2 * (d * i) + n < 2 * n * (q + 1))

walked-Rounded : (d i n : ℕ) → 1 ≤ n → Rounded d i n ((2 * (d * i) + n) / (2 * n))
unfolding Rounded
walked-Rounded d i n h =
    (mul-div-le (2 * (d * i) + n) (2 * n), lt-mul-div-succ (2 * (d * i) + n) (omega arith))

forward-Nearest :
    (from d i j q : ℕ) → Rounded d i (i + j) q → Nearest from (from + d) i (i + j) (from + q)
unfolding Rounded
forward-Nearest from d i j q h =
    let rest : i + j - i ≡ j = omega arith in rw rest (omega (arith, h), omega (arith, h))

back-Nearest :
    (to e i j q : ℕ) → Rounded (e + q) i (i + j) q → Nearest (to + (e + q)) to i (i + j) (to + e)
unfolding Rounded
back-Nearest to e i j q h =
    let rest : i + j - i ≡ j = omega arith in rw rest (omega (arith, h), omega (arith, h))

forward_at :
    (from to d i j n q : ℕ)
    → to ≡ from + d
    → n ≡ i + j
    → Rounded d i n q
    → Nearest from to i n (from + q)
forward_at from to d i j n q e f h =
    let whole : Rounded d i (i + j) q = rw (sym f) h in
    rw (e, f) (forward-Nearest from d i j q whole)

back_at :
    (from to e i j n q : ℕ)
    → from ≡ to + (e + q)
    → n ≡ i + j
    → Rounded (e + q) i n q
    → Nearest from to i n (to + e)
back_at from to e i j n q g f h =
    let whole : Rounded (e + q) i (i + j) q = rw (sym f) h in
    rw (g, f) (back-Nearest to e i j q whole)

-- The `i`-th of `n` held moves is on a nearest pixel to its point of the line from the start to the
-- end, and never outside the two.
pub along-Nearest :
    (from to i n : ℕ)
    → from < 2 ^ 16
    → to < 2 ^ 16
    → 1 ≤ n
    → i ≤ n
    → Nearest from to i n (along from to i n)
      × (min from to ≤ along from to i n)
      × (along from to i n ≤ max from to)
along-Nearest from to i n h k m j = elim (dec_le from to) [
  | yes p ↦
      let d = to - from in
      let q = (2 * (d * i) + n) / (2 * n) in
      let short = walked-le d i n j m in
      let there = along_forward from to i n p k m j in
      let near : Nearest from to i n (from + q) =
        forward_at from to d i (n - i) n q (omega arith) (omega arith) (walked-Rounded d i n m) in
      rw there (near, omega (arith, short), omega (arith, short))
  | no p ↦
      let d = from - to in
      let q = (2 * (d * i) + n) / (2 * n) in
      let short = walked-le d i n j m in
      let there = along_back from to i n (omega arith) h m j in
      let near : Nearest from to i n (to + (d - q)) =
        back_at from to (d - q) i (n - i) n q (omega (arith, short)) (omega arith)
          (let whole : d - q + q ≡ d = omega (arith, short) in rw whole (walked-Rounded d i n m)) in
      let same : from - q ≡ to + (d - q) = omega (arith, short) in
      rw (there, same) (near, omega (arith, short), omega (arith, short))
]

walked_whole : (d n : ℕ) → 1 ≤ n → (2 * (d * n) + n) / (2 * n) ≡ d
walked_whole d n h = div-eq_of_lt-le (2 * n) (omega arith) (omega arith)

-- The last held move is on the end.
pub along-end : (from to n : ℕ) → from < 2 ^ 16 → to < 2 ^ 16 → 1 ≤ n → along from to n n ≡ to
along-end from to n h k m = elim (dec_le from to) [
  | yes p ↦
      along_forward from to n n p k m (omega arith)
      ∙ rw (walked_whole (to - from) n m) (omega arith)
  | no p ↦
      along_back from to n n (omega arith) h m (omega arith)
      ∙ rw (walked_whole (from - to) n m) (omega arith)
]
