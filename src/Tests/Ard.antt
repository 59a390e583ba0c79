-- ===== src/Tests/Ard.antt =====
-- ard.rs with big numbers that are computed, and a cipher that adds its key's length.
use native.Mathlib.Nat.{add-mul-mod_self_left, mod-lt, div-add-mod, pow-suc, pow-zero, mul_comm}
use bolide.Base.{
  ℕ, zero, suc, ◌+◌, ◌-◌, ◌*◌, ◌/◌, ◌%◌, ◌^◌, ◌≤◌, ◌<◌, ◌≡◌, refl, sym, ap, ap₂, ◌∙◌, arith, ltb,
  lt→ltb, Bool-cases, true, false, inl, inr, List, [], ◌∷◌, ◌++◌, All, map, length, length-append,
  length-map, replicate, ok,
}
use bolide.Base.Text.{codes}
use bolide.Base.Bytes.{IsByte}
use bolide.Ard.{
  Crates, ArdError, dh_public, dh_shared, client_response, unpack_credentials, aes_ecb_decrypt,
  aes_key, credential_len,
}
use bolide.Ard.Exchange.{Laws, unpack-client_response}

-- Base 256, most significant first.
abbrev pub number : ℕ → List ℕ → ℕ
number acc [] = acc
number acc (b ∷ bytes) = number (acc * 256 + b) bytes

pub digits : ℕ → ℕ → List ℕ
digits zero n = n ∷ []
digits (suc fuel) n = elim (ltb n 256) [
  | true ↦ n ∷ []
  | false ↦ digits fuel (n / 256) ++ (n % 256 ∷ [])
]

number-append : (acc d : ℕ) (xs : List ℕ) → number acc (xs ++ (d ∷ [])) ≡ number acc xs * 256 + d
number-append acc d [] = refl
number-append acc d (x ∷ xs) = number-append (acc * 256 + x) d xs

number-digits : (fuel n : ℕ) → number 0 (digits fuel n) ≡ n
unfolding digits
number-digits zero n = omega arith
number-digits (suc fuel) n = elim (Bool-cases (ltb n 256)) [
  | inl e ↦ rw (e, digits) (omega arith)
  | inr e ↦
      rw (e, digits)
        (number-append 0 (n % 256) (digits fuel (n / 256))
          ∙ omega (arith, number-digits fuel (n / 256)))
]

number-below :
    (acc bound : ℕ) (bytes : List ℕ)
    → All IsByte bytes
    → acc < bound
    → number acc bytes < bound * 256 ^ length bytes
number-below acc bound [] h k = rw (pow-zero 256) (omega arith)
number-below acc bound (b ∷ bytes) h k =
    let step = number-below (acc * 256 + b) (bound * 256) bytes h.1 (omega (arith, h.0, k)) in
    rw (pow-suc 256 (length bytes)) (omega (arith, step))

length-digits : (fuel n k : ℕ) → n < 256 ^ suc k → n ≤ fuel → length (digits fuel n) ≤ suc k
unfolding digits
length-digits zero n k h small = omega arith
length-digits (suc fuel) n zero h small =
    let low : ltb n 256 ≡ true = lt→ltb n 256 (omega (arith, h, pow-suc 256 0, pow-zero 256)) in
    rw (low, digits) (omega arith)
length-digits (suc fuel) n (suc k) h small = elim (Bool-cases (ltb n 256)) [
  | inl e ↦ rw (e, digits) (omega arith)
  | inr e ↦
      let rest =
        length-digits fuel (n / 256) k (omega (arith, h, pow-suc 256 (suc k)))
          (ground (arith, e)) in
      rw (e, digits) (omega (arith, length-append (digits fuel (n / 256)) (n % 256 ∷ []), rest))
]

mul-mod_left : (a b p : ℕ) → (a % p) * b % p ≡ a * b % p
mul-mod_left a b p =
    sym (add-mul-mod_self_left ((a % p) * b) p ((a / p) * b))
    ∙ ap (λ (t : ℕ). t % p) (omega (arith, ap (λ (t : ℕ). t * b) (div-add-mod a p)))

power_mod : (a n p : ℕ) → (a % p) ^ n % p ≡ a ^ n % p
power_mod a zero p = rw (pow-zero a, pow-zero (a % p)) refl
power_mod a (suc n) p =
    rw (pow-suc a n, pow-suc (a % p) n)
      (sym (mul-mod_left ((a % p) ^ n) (a % p) p)
        ∙ ap (λ (t : ℕ). t * (a % p) % p) (power_mod a n p)
        ∙ mul-mod_left (a ^ n) (a % p) p
        ∙ ap (λ (t : ℕ). t % p) (mul_comm (a ^ n) (a % p))
        ∙ mul-mod_left a (a ^ n) p
        ∙ ap (λ (t : ℕ). t % p) (mul_comm a (a ^ n)))

mul-pow : (a b n : ℕ) → (a * b) ^ n ≡ a ^ n * b ^ n
mul-pow a b zero = rw (pow-zero (a * b), pow-zero a, pow-zero b) (omega arith)
mul-pow a b (suc n) = rw (pow-suc (a * b) n, pow-suc a n, pow-suc b n, mul-pow a b n) (omega arith)

one-pow : (n : ℕ) → 1 ^ n ≡ 1
one-pow zero = pow-zero 1
one-pow (suc n) = rw (pow-suc 1 n, one-pow n) (omega arith)

power_comm : (g x y : ℕ) → (g ^ x) ^ y ≡ (g ^ y) ^ x
power_comm g x zero = rw (pow-zero (g ^ x), pow-zero g) (sym (one-pow x))
power_comm g x (suc y) =
    rw (pow-suc (g ^ x) y, pow-suc g y, mul-pow (g ^ y) g x, power_comm g x y) refl

-- The cipher adds the length of the key to each byte, and takes it off again.
abbrev pub crates : Crates
crates = record {
  from_bytes_be = number 0;
  to_bytes_be = λ n. digits n n;
  modpow = λ g x p. g ^ x % p;
  digest = λ b. b;
  encrypt_block = λ k b. map (λ x. x + length k) b;
  decrypt_block = λ k b. map (λ x. x - length k) b;
}

pub back : (n : ℕ) (b : List ℕ) → map (λ x. x - n) (map (λ x. x + n) b) ≡ b
back n [] = refl
back n (x ∷ b) = ap₂ (◌∷◌) (omega arith) (back n b)

pub digits_fit :
    (n : ℕ) (b : List ℕ) → All IsByte b → n < number 0 b → length (digits n n) ≤ length b
digits_fit n [] h k = absurd (omega arith)
digits_fit n (x ∷ b) h k =
    length-digits n n (length b) (omega (arith, k, number-below 0 1 (x ∷ b) h (omega arith)))
      (omega arith)

pub laws : Laws crates
laws = record {
  from-to = λ n. number-digits n n;
  from-zero = λ b. refl;
  length-to = digits_fit;
  modpow-lt = λ g x p h. mod-lt (g ^ x) h;
  modpow_comm = λ g x y p h.
      power_mod (g ^ x) y p
      ∙ ap (λ (t : ℕ). t % p) (power_comm g x y)
      ∙ sym (power_mod (g ^ y) x p);
  length-encrypt = λ k b h. length-map (λ x. x + length k) b ∙ h;
  decrypt-encrypt = λ k b h. back (length k) b;
}

-- A prime of 64 bytes.
abbrev prime : List ℕ
prime = replicate 64 199

prime_bytes : All IsByte prime
prime_bytes = omega arith

unpack-client_response_example :
    (server_public sealed public key : List ℕ) × (dh_public crates {E = ArdError} 5 prime (9 ∷ [])
      ≡ ok server_public)
    × (length server_public ≡ length prime)
    × (client_response crates 5 prime server_public
          (codes "ann")
          (codes "secret")
          (7 ∷ [])
          (replicate 128 0)
        ≡ ok (sealed ++ public))
    × (length sealed ≡ credential_len)
    × (length public ≡ length prime)
    × (dh_shared crates {E = ArdError} public prime (9 ∷ []) ≡ ok key)
    × (unpack_credentials (aes_ecb_decrypt crates (aes_key crates key) sealed)
        ≡ (codes "ann", codes "secret"))
unpack-client_response_example =
    unpack-client_response crates laws prime prime_bytes (omega arith) 5 (7 ∷ []) (9 ∷ [])
      (codes "ann") (codes "secret") (replicate 128 0) (omega arith) (omega arith) refl
      (omega arith) (omega arith) (omega arith) (omega arith) ArdError
