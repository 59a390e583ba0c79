-- ===== src/Base/Bytes.antt =====
-- Bytes and big-endian words, as `to_be_bytes`, `from_be_bytes` and the slice methods give them.
pub mod Slices
pub mod Chunks
use bolide.Base.{
  ℕ, ◌+◌, ◌*◌, ◌/◌, ◌%◌, ◌^◌, ◌<◌, ◌≡◌, arith, List, [], ◌∷◌, ◌++◌, Result, ok, panic, leb, length,
  take, drop, if◌then◌else◌,
}

abbrev pub IsByte : ℕ → Type 0
IsByte b = b < 256

abbrev pub IsU16 : ℕ → Type 0
IsU16 v = v < 2 ^ 16

abbrev pub IsU32 : ℕ → Type 0
IsU32 v = v < 2 ^ 32

abbrev pub be16 : ℕ → List ℕ
be16 v = v / 256 % 256 ∷ v % 256 ∷ []

abbrev pub be32 : ℕ → List ℕ
be32 v = v / 2 ^ 24 % 256 ∷ v / 2 ^ 16 % 256 ∷ v / 256 % 256 ∷ v % 256 ∷ []

abbrev pub from_be16 : ℕ → ℕ → ℕ
from_be16 a b = a * 256 + b

abbrev pub from_be32 : ℕ → ℕ → ℕ → ℕ → ℕ
from_be32 a b c d = a * 2 ^ 24 + b * 2 ^ 16 + c * 256 + d

pub from_be16-be16 : (v : ℕ) → IsU16 v → from_be16 (v / 256 % 256) (v % 256) ≡ v
from_be16-be16 v h = omega arith

pub from_be32-be32 :
    (v : ℕ)
    → IsU32 v
    → from_be32 (v / 2 ^ 24 % 256) (v / 2 ^ 16 % 256) (v / 256 % 256) (v % 256) ≡ v
from_be32-be32 v h = omega arith

-- `dst[at..at + src.len()].copy_from_slice(src)`, which panics out of range.
unfoldable pub copy_at {ℓ} : {E : Type 0} {A : Type ℓ} → List A → ℕ → List A → Result E (List A)
copy_at dst at src =
    if leb (at + length src) (length dst)
    then ok (take at dst ++ (src ++ drop (at + length src) dst))
    else panic

-- `xs[from..from + n]`, which panics out of range.
unfoldable pub slice {ℓ} : {E : Type 0} {A : Type ℓ} → List A → ℕ → ℕ → Result E (List A)
slice xs from n = if leb (from + n) (length xs) then ok (take n (drop from xs)) else panic

-- `xs[0]`, and `xs[i]`, which panic out of range.
unfoldable pub first {ℓ} : {E : Type 0} {A : Type ℓ} → List A → Result E A
first [] = panic
first (x ∷ xs) = ok x

unfoldable pub index {ℓ} : {E : Type 0} {A : Type ℓ} → List A → ℕ → Result E A
index xs i = first (drop i xs)
