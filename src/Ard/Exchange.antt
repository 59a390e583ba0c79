-- ===== src/Ard/Exchange.antt =====
-- ard.rs: both ends of the exchange agree on a key, and the server reads what the client sealed.
use bolide.Base.{
  ℕ, suc, ◌-◌, ◌*◌, ◌≤◌, ◌<◌, ◌≡◌, refl, ap, ◌∙◌, arith, leb, le→leb, ==_iff, ◌/◌, Bool-cases, inl,
  inr, List, ◌∷◌, ◌++◌, replicate, length, length-append, length-replicate, ok, zero, All,
}
use bolide.Base.Bytes.{IsByte}
use bolide.Base.Bytes.Chunks.{chunks_exact_mut, length-each_chunk, each_chunk_undone}
use bolide.Ard.{
  Crates, ArdError, credential_len, field_max, min_key_len, max_key_len, pad_be, power, dh_public,
  dh_shared, aes_key, aes_ecb_encrypt, aes_ecb_decrypt, client_response, unpack_credentials,
}
use bolide.Ard.Credentials.{NoNul, unpack-pack_credentials}

-- What the crates document: a number is read back from its bytes, leading zeros count for nothing, and
-- a number below that of a byte string needs no more bytes; a power stays below its modulus, and two
-- exponents are taken in either order; a block cipher undoes itself on a block.
pub record Laws (crates : Crates) : Type 0 where
  pub from-to : (n : ℕ) → crates.from_bytes_be (crates.to_bytes_be n) ≡ n
  pub from-zero : (b : List ℕ) → crates.from_bytes_be (0 ∷ b) ≡ crates.from_bytes_be b
  pub length-to :
      (n : ℕ) (b : List ℕ)
      → All IsByte b
      → n < crates.from_bytes_be b
      → length (crates.to_bytes_be n) ≤ length b
  pub modpow-lt : (g x p : ℕ) → 0 < p → crates.modpow g x p < p
  pub modpow_comm :
      (g x y p : ℕ)
      → 0 < p
      → crates.modpow (crates.modpow g x p) y p ≡ crates.modpow (crates.modpow g y p) x p
  pub length-encrypt : (k b : List ℕ) → length b ≡ 16 → length (crates.encrypt_block k b) ≡ 16
  pub decrypt-encrypt :
      (k b : List ℕ) → length b ≡ 16 → crates.decrypt_block k (crates.encrypt_block k b) ≡ b

length-pad_be : (b : List ℕ) (n : ℕ) → length b ≤ n → length (pad_be b n) ≡ n
unfolding pad_be
length-pad_be b n h = elim (Bool-cases (leb n (length b))) [
  | inl e ↦ rw e (ground (arith, e))
  | inr e ↦ rw e (
      length-append (replicate (n - length b) 0) b
      ∙ omega (arith, length-replicate {A = ℕ} (n - length b) 0))
]

module _ (crates : Crates) (laws : Laws crates) where
  open crates use {from_bytes_be, to_bytes_be, modpow}

  from-zeros : (n : ℕ) (b : List ℕ) → from_bytes_be (replicate n 0 ++ b) ≡ from_bytes_be b
  from-zeros zero b = refl
  from-zeros (suc n) b = laws.from-zero (replicate n 0 ++ b) ∙ from-zeros n b

  from-pad_be : (b : List ℕ) (n : ℕ) → from_bytes_be (pad_be b n) ≡ from_bytes_be b
  unfolding pad_be
  from-pad_be b n = elim (Bool-cases (leb n (length b))) [
    | inl e ↦ rw e refl
    | inr e ↦ rw e (from-zeros (n - length b) b)
  ]

  chunked : (n : ℕ) → n / 16 * 16 ≤ n
  chunked n = omega arith

  -- Blocks that are encrypted are decrypted again, and their length stays.
  ecb_undone :
      (key block : List ℕ) → aes_ecb_decrypt crates key (aes_ecb_encrypt crates key block) ≡ block
  unfolding aes_ecb_decrypt aes_ecb_encrypt chunks_exact_mut
  ecb_undone key block =
      rw
        (length-each_chunk 16 (crates.encrypt_block key) (laws.length-encrypt key)
          (length block / 16) block (chunked (length block)))
        (each_chunk_undone 16 (crates.encrypt_block key) (laws.length-encrypt key)
          (crates.decrypt_block key) (laws.decrypt-encrypt key) (length block / 16) block
          (chunked (length block)))

  length-ecb : (key block : List ℕ) → length (aes_ecb_encrypt crates key block) ≡ length block
  unfolding aes_ecb_encrypt chunks_exact_mut
  length-ecb key block =
      length-each_chunk 16 (crates.encrypt_block key) (laws.length-encrypt key) (length block / 16)
        block (chunked (length block))

  -- A prime that is not all zeros.
  module _ (prime : List ℕ) (whole : All IsByte prime) (positive : 0 < from_bytes_be prime) where
    -- A value below the prime, written in its width.
    abbrev pub field_of : ℕ → List ℕ
    field_of v = pad_be (to_bytes_be v) (length prime)

    from-field_of : (v : ℕ) → from_bytes_be (field_of v) ≡ v
    from-field_of v = from-pad_be (to_bytes_be v) (length prime) ∙ laws.from-to v

    length-field_of : (v : ℕ) → v < from_bytes_be prime → length (field_of v) ≡ length prime
    length-field_of v h =
        length-pad_be (to_bytes_be v) (length prime) (laws.length-to v prime whole h)

    power_ok :
        {E : Type 0} (g x : ℕ)
        → power crates {E = E} g x (from_bytes_be prime) ≡ ok (modpow g x (from_bytes_be prime))
    unfolding power
    power_ok g x = ground arith

    abbrev public_of : ℕ → List ℕ → ℕ
    public_of g private = modpow g (from_bytes_be private) (from_bytes_be prime)

    pub dh_public_ok :
        {E : Type 0} (g : ℕ) (private : List ℕ)
        → dh_public crates {E = E} g prime private ≡ ok (field_of (public_of g private))
    unfolding dh_public
    dh_public_ok {E} g private = rw (power_ok {E = E} g (from_bytes_be private)) refl

    length-public :
        (g : ℕ) (private : List ℕ) → length (field_of (public_of g private)) ≡ length prime
    length-public g private = length-field_of _ (laws.modpow-lt g _ _ positive)

    -- Each end raises the other's public value.
    dh_shared_ok :
        {E : Type 0} (g : ℕ) (a b : List ℕ)
        → dh_shared crates {E = E} (field_of (public_of g a)) prime b
          ≡ ok (field_of (public_of (public_of g a) b))
    unfolding dh_shared
    dh_shared_ok {E} g a b =
        rw (from-field_of (public_of g a), power_ok {E = E} (public_of g a) (from_bytes_be b)) refl

    -- A client and a server that know the prime.
    module _ (g : ℕ) (ours theirs username password filler : List ℕ)
        (wide : min_key_len ≤ length prime) (narrow : length prime ≤ max_key_len)
        (size : length filler ≡ credential_len) (short : length username ≤ field_max)
        (short' : length password ≤ field_max) (clean : NoNul username)
        (clean' : NoNul password) where
      -- Both ends come to one key: out of the response of a client, with the server's own private
      -- exponent, the server reads the name and the password that the client has. The prime is not
      -- zero and has an acceptable length, both texts fit their fields and hold no NUL, and the
      -- crates keep Laws.
      pub unpack-client_response :
          (E : Type 0)
          → (server_public sealed public key : List ℕ) × (dh_public crates {E = E} g prime theirs
              ≡ ok server_public)
            × (length server_public ≡ length prime)
            × (client_response crates g prime server_public username password ours filler
                ≡ ok (sealed ++ public))
            × (length sealed ≡ credential_len)
            × (length public ≡ length prime)
            × (dh_shared crates {E = E} public prime theirs ≡ ok key)
            × (unpack_credentials (aes_ecb_decrypt crates (aes_key crates key) sealed)
                ≡ (username, password))
      unfolding client_response
      unpack-client_response E =
          let p = from_bytes_be prime in
          let server_public = field_of (public_of g theirs) in
          let public = field_of (public_of g ours) in
          let key = field_of (public_of (public_of g ours) theirs) in
          let (block, packed, length-block, unpacked) =
            unpack-pack_credentials username password filler size short short' clean clean' in
          let agree : public_of (public_of g theirs) ours ≡ public_of (public_of g ours) theirs =
            laws.modpow_comm g (from_bytes_be theirs) (from_bytes_be ours) p positive in
          (
            server_public,
            aes_ecb_encrypt crates (aes_key crates key) block,
            public,
            key,
            dh_public_ok g theirs,
            length-public g theirs,
            rw
                (
                  le→leb min_key_len (length prime) wide,
                  le→leb (length prime) max_key_len narrow,
                  (==_iff (length server_public) (length prime)).1 (length-public g theirs),
                  dh_shared_ok {E = ArdError} g theirs ours,
                  packed,
                  dh_public_ok {E = ArdError} g ours,
                  agree,
                )
                refl,
            length-ecb (aes_key crates key) block ∙ length-block,
            length-public g ours,
            dh_shared_ok g ours theirs,
            ap unpack_credentials (ecb_undone (aes_key crates key) block) ∙ unpacked,
          )
