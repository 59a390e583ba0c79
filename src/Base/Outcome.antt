-- ===== src/Base/Outcome.antt =====
-- What a Rust call gives: a value, an error of type `E`, a panic, or nothing, for a call that never
-- returns. A loop on fuel that runs out is `stuck` too.
use mathlib.Core.Path.{◌≡◌, refl}
use mathlib.Core.Bool.{Bool, true, false}
use bolide.Base.Tests.{if◌then◌else◌}

pub data Result {ℓ} (E : Type 0) (A : Type ℓ) : Type ℓ where
  ok : A → Result E A
  err : E → Result E A
  panic : Result E A
  stuck : Result E A

infixl 5 ◌>>=◌ ◌>>◌
abbrev pub ◌>>=◌ {ℓ κ} :
    {E : Type 0} {A : Type ℓ} {B : Type κ} → Result E A → (A → Result E B) → Result E B
ok a >>= f = f a
err e >>= f = err e
panic >>= f = panic
stuck >>= f = stuck

abbrev pub ◌>>◌ {ℓ} : {E : Type 0} {B : Type ℓ} → Result E (Unit {0}) → Result E B → Result E B
m >> k = m >>= λ _. k

-- An early `return Err(e)` when the test does not hold.
abbrev pub ensure : {E : Type 0} → Bool → E → Result E (Unit {0})
ensure true e = ok tt
ensure false e = err e

-- The call returns a value or an error: it neither panics nor hangs. `P` holds of the value.
abbrev pub Returns {ℓ} : {E : Type 0} {A : Type ℓ} → (A → Type 0) → Result E A → Type 0
Returns P (ok a) = P a
Returns P (err e) = Unit
Returns P panic = ⊥
Returns P stuck = ⊥

pub Returns-bind {ℓ κ} :
    {E : Type 0} {A : Type ℓ} {B : Type κ} (P : A → Type 0) (Q : B → Type 0) (m : Result E A)
    (f : A → Result E B)
    → Returns P m
    → ((a : A) → P a → Returns Q (f a))
    → Returns Q (m >>= f)
Returns-bind P Q (ok a) f h k = k a h
Returns-bind P Q (err e) f h k = tt
Returns-bind P Q panic f h k = absurd h
Returns-bind P Q stuck f h k = absurd h

pub Returns-if {ℓ} :
    {E : Type 0} {A : Type ℓ} (P : A → Type 0) (m n : Result E A) (t : Bool)
    → (t ≡ true → Returns P m)
    → (t ≡ false → Returns P n)
    → Returns P (if t then m else n)
Returns-if P m n true h k = h refl
Returns-if P m n false h k = k refl

pub Returns-weaken {ℓ} :
    {E : Type 0} {A : Type ℓ} (P Q : A → Type 0) (m : Result E A)
    → Returns P m
    → ((a : A) → P a → Q a)
    → Returns Q m
Returns-weaken P Q (ok a) h k = k a h
Returns-weaken P Q (err e) h k = tt
Returns-weaken P Q panic h k = absurd h
Returns-weaken P Q stuck h k = absurd h
