-- ===== src/Ard.antt =====
-- crates/bolide-rfb/src/ard.rs: Apple authentication. Big numbers are those of num-bigint, MD5 is md5's
-- and AES is aes's: the three are parameters. A `&str` is its UTF-8 bytes here.
pub mod Credentials
pub mod Exchange
use bolide.Base.{
  ℕ, ◌+◌, ◌-◌, ◌≤◌, ◌<◌, ◌==◌, ◌≡◌, leb, ltb, Bool, ◌&&◌, ◌||◌, not, Option, none, some, List, [],
  ◌∷◌, ◌++◌, length, take, drop, replicate, position, Result, ok, err, panic, ◌>>=◌, ◌>>◌,
  if◌then◌else◌,
}
use bolide.Base.Bytes.{copy_at}
use bolide.Base.Bytes.Chunks.{chunks_exact_mut}

abbrev pub credential_len : ℕ
credential_len = 128

abbrev pub password_offset : ℕ
password_offset = 64

abbrev pub field_max : ℕ
field_max = 63

abbrev pub min_key_len : ℕ
min_key_len = 64

abbrev pub max_key_len : ℕ
max_key_len = 1024

pub data ArdError : Type 0 where
  field_too_long bad_key_length : ArdError

-- What the crates compute. `modpow g x p` is asked for at a modulus that is not zero.
pub record Crates : Type 0 where
  pub from_bytes_be : List ℕ → ℕ
  pub to_bytes_be : ℕ → List ℕ
  pub modpow : ℕ → ℕ → ℕ → ℕ
  pub digest : List ℕ → List ℕ
  pub encrypt_block : List ℕ → List ℕ → List ℕ
  pub decrypt_block : List ℕ → List ℕ → List ℕ

unfoldable pub pad_be : List ℕ → ℕ → List ℕ
pad_be bytes width =
    if leb width (length bytes) then bytes else replicate (width - length bytes) 0 ++ bytes

-- The loop of `read_field` and its slice.
unfoldable pub field_end : Option ℕ → List ℕ → ℕ
field_end none bytes = length bytes
field_end (some i) bytes = i

-- The bytes of the text: `from_utf8_lossy` keeps them where they are UTF-8, and only there.
unfoldable pub read_field : List ℕ → List ℕ
unfolding field_end
read_field bytes = take (field_end (position bytes 0) bytes) bytes

unfoldable pub pack_credentials : List ℕ → List ℕ → List ℕ → Result ArdError (List ℕ)
pack_credentials username password filler =
    if ltb field_max (length username) || ltb field_max (length password)
    then err field_too_long
    else (do
      b1 ← copy_at filler 0 username
      b2 ← copy_at b1 (length username) (0 ∷ [])
      b3 ← copy_at b2 password_offset password
      copy_at b3 (password_offset + length password) (0 ∷ []))

unfoldable pub unpack_credentials : List ℕ → List ℕ × List ℕ
unpack_credentials block =
    (read_field (take password_offset block), read_field (drop password_offset block))

module _ (crates : Crates) where
  open crates use {from_bytes_be, to_bytes_be, modpow, digest, encrypt_block, decrypt_block}

  -- `BigUint::modpow`, which panics at the modulus zero.
  unfoldable pub power : {E : Type 0} → ℕ → ℕ → ℕ → Result E ℕ
  power g x p = if p == 0 then panic else ok (modpow g x p)

  unfoldable pub dh_public : {E : Type 0} → ℕ → List ℕ → List ℕ → Result E (List ℕ)
  dh_public generator prime private = do
    value ← power generator (from_bytes_be private) (from_bytes_be prime)
    ok (pad_be (to_bytes_be value) (length prime))

  unfoldable pub dh_shared : {E : Type 0} → List ℕ → List ℕ → List ℕ → Result E (List ℕ)
  dh_shared peer_public prime private = do
    value ← power (from_bytes_be peer_public) (from_bytes_be private) (from_bytes_be prime)
    ok (pad_be (to_bytes_be value) (length prime))

  unfoldable pub aes_key : List ℕ → List ℕ
  aes_key shared = digest shared

  unfoldable pub aes_ecb_encrypt : List ℕ → List ℕ → List ℕ
  aes_ecb_encrypt key text = chunks_exact_mut 16 (encrypt_block key) text

  unfoldable pub aes_ecb_decrypt : List ℕ → List ℕ → List ℕ
  aes_ecb_decrypt key text = chunks_exact_mut 16 (decrypt_block key) text

  unfoldable pub client_response :
      (generator : ℕ) (prime server_public username password private filler : List ℕ)
      → Result ArdError (List ℕ)
  client_response generator prime server_public username password private filler =
      let len = length prime in
      if not (leb min_key_len len && leb len max_key_len) || not (length server_public == len)
      then err bad_key_length
      else (do
        shared ← dh_shared server_public prime private
        block ← pack_credentials username password filler
        public ← dh_public generator prime private
        ok (aes_ecb_encrypt (aes_key shared) block ++ public))
