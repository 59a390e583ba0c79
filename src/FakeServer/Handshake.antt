-- ===== src/FakeServer/Handshake.antt =====
-- server.rs of the test kit: its side of the handshake, over the whole of what the client will write.
pub mod Served
pub mod Suits
pub mod Apple
pub mod Agreed
use bolide.Base.{
  ℕ, ◌*◌, ◌%◌, ◌^◌, ◌==◌, leb, Bool, not, true, false, ◌&&◌, contains, List, [], ◌∷◌, ◌++◌,
  replicate, length, take, drop, if◌then◌else◌, Result, ok, err, panic, stuck,
}
use bolide.Base.Text.{Text, codes, utf8}
use bolide.Base.Bytes.{be16, be32}
use bolide.Keysym.{text_eq}
use bolide.Proto.{security_none, security_vnc_auth, security_ard, security_result_ok}
use bolide.Proto.Version.{version_3_8}
use bolide.Proto.VncAuth.{vnc_auth_response}
use bolide.Proto.Format.{rgbx_32, encode}
use bolide.Ard.{
  Crates, dh_public, dh_shared, aes_key, aes_ecb_decrypt, unpack_credentials, credential_len,
}
use bolide.Client.{Conn, Talk, ◌>>=◌, give, write}
use bolide.Client.Handshake.{Outside}

pub data Security : Type 0 where
  no_security : Security
  vnc_auth : Text → Security
  ard : Text → Text → Security
  always_fail unsupported : Security

pub data SetupError : Type 0 where
  unexpected_eof : SetupError
  other : Text → SetupError

-- `read_exact`.
unfoldable pub read_exact : ℕ → Talk SetupError (List ℕ)
read_exact n c =
    if leb n (length c.input)
    then (record c { input = drop n c.input }, ok (take n c.input))
    else (record c { input = [] }, err unexpected_eof)

abbrev pub challenge : List ℕ
challenge =
    0x00 ∷ 0x11 ∷ 0x22 ∷ 0x33 ∷ 0x44 ∷ 0x55 ∷ 0x66 ∷ 0x77 ∷ 0x88 ∷ 0x99 ∷ 0xaa ∷ 0xbb ∷ 0xcc ∷ 0xdd
    ∷ 0xee ∷ 0xff ∷ []

abbrev pub ard_generator : ℕ
ard_generator = 5

abbrev pub ard_prime : List ℕ
ard_prime = 0xC7 ∷ (replicate 62 0x3B ++ (0x8D ∷ []))

abbrev pub ard_server_private : List ℕ
ard_server_private = replicate 64 0x5A

unfoldable pub offered : Security → List ℕ
offered no_security = security_none ∷ []
offered (vnc_auth password) = security_vnc_auth ∷ []
offered always_fail = security_vnc_auth ∷ []
offered (ard username password) = security_ard ∷ []
offered unsupported = security_ard ∷ []

unfoldable pub fail_security : Text → Talk SetupError (Unit {0})
fail_security why = write (be32 1 ++ (be32 (length (utf8 why) % 2 ^ 32) ++ utf8 why)) >>= λ _.
    give (err (other why))

abbrev pub accept : Talk SetupError (Unit {0})
accept = write (be32 security_result_ok)

abbrev pub auth_failed_reason : Text
auth_failed_reason = codes "authentication failed"

-- `chosen[0]`.
unfoldable pub head : List ℕ → Result SetupError ℕ
head [] = panic
head (b ∷ rest) = ok b

module _ (outside : Outside) where
  open outside use {crates, des}

  unfoldable pub check_ard : Text → Text → Talk SetupError (Unit {0})
  check_ard username password =
      give (dh_public crates ard_generator ard_prime ard_server_private) >>= λ server_public.
      write
        (be16 ard_generator ++ (be16 (length ard_prime % 2 ^ 16) ++ (ard_prime ++ server_public)))
      >>= λ _. read_exact credential_len >>= λ block.
          read_exact (length ard_prime) >>= λ client_public.
          give (dh_shared crates client_public ard_prime ard_server_private) >>= λ shared.
          (let got = unpack_credentials (aes_ecb_decrypt crates (aes_key crates shared) block) in
            if text_eq got.0 (utf8 username) && text_eq got.1 (utf8 password)
            then accept
            else fail_security auth_failed_reason)

  -- The `match` on the security of the builder.
  unfoldable pub check : Security → Talk SetupError (Unit {0})
  unfolding check_ard
  check no_security = accept
  check unsupported = fail_security (codes "no security type in common")
  check (vnc_auth password) = write challenge >>= λ _. read_exact 16 >>= λ response.
      if text_eq response (vnc_auth_response des password challenge)
      then accept
      else fail_security auth_failed_reason
  check always_fail =
      write challenge >>= λ _. read_exact 16 >>= λ _. fail_security auth_failed_reason
  check (ard username password) = check_ard username password

  unfoldable pub handshake : Security → Talk SetupError (Unit {0})
  unfolding offered check head
  handshake security = write version_3_8 >>= λ _. read_exact 12 >>= λ version.
      write (length (offered security) % 256 ∷ offered security) >>= λ _. read_exact 1 >>= λ byte.
      give (head byte) >>= λ chosen.
      if not (contains (offered security) chosen)
      then fail_security (codes "no security type in common")
      else check security

unfoldable pub server_init : (width height : ℕ) → Text → List ℕ
server_init width height name =
    be16 width
    ++ (be16 height ++ (encode rgbx_32 ++ (be32 (length (utf8 name) % 2 ^ 32) ++ utf8 name)))

-- The opening exchange of `serve`.
unfoldable pub setup : Outside → Security → (width height : ℕ) → Text → Talk SetupError (Unit {0})
setup outside security width height name = handshake outside security >>= λ _.
    read_exact 1 >>= λ shared_flag. write (server_init width height name)
