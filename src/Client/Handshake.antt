-- ===== src/Client/Handshake.antt =====
-- client.rs: the handshake, over the whole of what the server will send. DES, big numbers, MD5 and AES are
-- the crates' and parameters, and so is what the system's generator fills two buffers with.
pub mod Opened
pub mod Ends
pub mod Returned
pub mod Zero
use bolide.Base.{
  ℕ, ◌*◌, ◌%◌, ◌==◌, leb, ltb, Bool, true, false, ◌&&◌, ◌||◌, not, Option, none, some, List, [],
  ◌∷◌, if◌then◌else◌, Result, ok, err, panic, stuck,
}
use bolide.Base.Text.{Text, codes, utf8}
use bolide.Error.{
  Error, not_rfb, unsupported_version, no_supported_security, refused, auth_failed, protocol,
  key_length, no_randomness, apple_response, password_required, username_required,
}
use bolide.Proto.{
  security_none, security_vnc_auth, security_ard, security_result_ok, advertised_encodings,
}
use bolide.Proto.Version.{version_3_3, version_3_7, version_3_8, parse_version}
use bolide.Proto.VncAuth.{vnc_auth_response}
use bolide.Proto.Format.{rgbx_32, from_bool}
use bolide.Proto.Messages.{set_pixel_format, set_encodings}
use bolide.Ard
use bolide.Ard.{Crates, ArdError, client_response, credential_len, min_key_len, max_key_len}
use bolide.Client.{
  Config, Conn, Io, ◌>>=◌, give, bytes, u8, u16, u32, string, reason, write, max_string,
  choose_security,
}

pub record ServerInit : Type 0 where
  pub width : ℕ
  pub height : ℕ
  pub name : Text

-- What the handshake is given besides the socket. `random` is what `getrandom` does to the buffer of a
-- private exponent and to the filler of a credential block: it fills them, or fails.
pub record Outside : Type 0 where
  pub crates : Crates
  pub des : List ℕ → List ℕ → List ℕ
  pub random_private : ℕ → Option (List ℕ)
  pub random_filler : Option (List ℕ)

-- The answer to a server of version 3.`minor`, and the version that is spoken.
unfoldable pub negotiate : ℕ → List ℕ × ℕ
negotiate minor =
    if leb 3 minor && leb minor 6
    then (version_3_3, 3)
    else if minor == 7
    then (version_3_7, 7)
    else (version_3_8, 8)

unfoldable pub ok_or : {A : Type 0} → Option A → Error → Result Error A
ok_or none e = err e
ok_or (some a) e = ok a

-- The banner is read and answered.
unfoldable pub agree_version : Io ℕ
unfolding negotiate ok_or
agree_version = bytes 12 >>= λ banner. give (ok_or (parse_version banner) not_rfb) >>= λ version.
    if not (version.0 == 3) || ltb version.1 3
    then give (err (unsupported_version version.0 version.1))
    else (write (negotiate version.1).0 >>= λ _. give (ok (negotiate version.1).1))

-- 3.3: the server decides.
unfoldable pub imposed_security : Io ℕ
imposed_security = u32 >>= λ ty.
    if ty == 0
    then (reason >>= λ why. give (err (refused why)))
    else if not (ty % 256 == security_none) && not (ty % 256 == security_vnc_auth)
    then give (err (no_supported_security (ty % 256 ∷ [])))
    else give (ok (ty % 256))

unfoldable pub ard_error : Result ArdError (List ℕ) → Result Error (List ℕ)
ard_error (ok payload) = ok payload
ard_error (err e) = err (protocol apple_response)
ard_error panic = panic
ard_error stuck = stuck

unfoldable pub security_result : ℕ → Io (Unit {0})
security_result minor = u32 >>= λ result.
    if not (result == security_result_ok)
    then ((if leb 8 minor then reason else give (ok (codes "the server rejected the credentials")))
        >>= λ why. give (err (auth_failed why)))
    else give (ok tt)

unfoldable pub initialise : Config → Io ServerInit
initialise config = write (from_bool config.shared ∷ []) >>= λ _. u16 >>= λ width. u16 >>= λ height.
    bytes 16 >>= λ format. string max_string >>= λ name. write (set_pixel_format rgbx_32) >>= λ _.
    write (set_encodings advertised_encodings) >>= λ _.
    give (ok (record { width = width; height = height; name = name }))

module _ (outside : Outside) where
  open outside use {crates, des, random_private, random_filler}

  -- Behind the checks of the credentials.
  unfoldable pub ard_exchange : Text → Text → Io (Unit {0})
  unfolding ard_error ok_or
  ard_exchange username password = u16 >>= λ generator. u16 >>= λ key_len.
      if not (leb min_key_len key_len && leb key_len max_key_len)
      then give (err (protocol (key_length key_len)))
      else (bytes key_len >>= λ prime. bytes key_len >>= λ server_public.
          give (ok_or (random_private (key_len * 2)) (protocol no_randomness)) >>= λ private.
          give (ok_or random_filler (protocol no_randomness)) >>= λ filler.
          give (
            ard_error (
              client_response crates generator prime server_public (utf8 username) (utf8 password)
                private filler))
          >>= λ payload. write payload)

  unfoldable pub ard_authenticate : Option Text → Option Text → Io (Unit {0})
  unfolding ard_exchange
  ard_authenticate none password = give (err username_required)
  ard_authenticate (some username) none = give (err password_required)
  ard_authenticate (some username) (some password) = ard_exchange username password

  unfoldable pub vnc_authenticate : Option Text → Io (Unit {0})
  vnc_authenticate none = give (err password_required)
  vnc_authenticate (some password) =
      bytes 16 >>= λ challenge. write (vnc_auth_response des password challenge)

  -- The value says whether a SecurityResult is expected.
  unfoldable pub authenticate : Config → (minor chosen : ℕ) → Io Bool
  unfolding ard_authenticate vnc_authenticate
  authenticate config minor chosen =
      if chosen == security_ard
      then (ard_authenticate config.username config.password >>= λ _. give (ok true))
      else if chosen == security_vnc_auth
      then (vnc_authenticate config.password >>= λ _. give (ok true))
      else give (ok (leb 7 minor))

  unfoldable pub handshake : Config → Io ServerInit
  unfolding agree_version imposed_security authenticate security_result initialise
  handshake config = agree_version >>= λ minor.
      (if leb 7 minor then choose_security config else imposed_security) >>= λ chosen.
      authenticate config minor chosen >>= λ expects.
      (if expects then security_result minor else give (ok tt)) >>= λ _. initialise config
