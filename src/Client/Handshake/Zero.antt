-- ===== src/Client/Handshake/Zero.antt =====
-- client.rs, `handshake`: a server that offers Apple authentication and a prime of zeros.
use bolide.Base.{
  ℕ, ◌*◌, ◌≤◌, ==_iff, leb, le→leb, false, ◌&&◌, not, some, List, [], ◌∷◌, ◌++◌, length, ok, panic,
  ◌≡◌, ◌⊎◌, inl, inr, refl, ap, arith,
}
use mathlib.Core.List.{append-nil}
use bolide.Base.Text.{Text, utf8}
use bolide.Base.Bytes.{IsU16, be16}
use bolide.Error.{protocol, no_randomness}
use bolide.Ard.{power, dh_shared, client_response, min_key_len, max_key_len}
use bolide.Proto.{security_ard}
use bolide.Proto.Version.{version_3_8}
use bolide.Client.{Config, auto, ard, pick, pick_auto, is_some}
use bolide.Client.Talks.{
  Talks, Talks-bind, Talks-panics, Talks-given, Talks-bytes, Talks-u16, Talks-else, Talks-as,
}
use bolide.Client.Handshake.{Outside, authenticate, ard_error, ok_or, handshake}
use bolide.Client.Handshake.Opened.{Talks-agree_version, Talks-choose}

module _ (outside : Outside) (config : Config) (username password : Text)
    (mode : (config.auth ≡ auto) ⊎ (config.auth ≡ ard)) (user : config.username ≡ some username)
    (pass : config.password ≡ some password) (generator key_len : ℕ)
    (prime server_public private filler : List ℕ) (base : IsU16 generator)
    (low : min_key_len ≤ key_len) (high : key_len ≤ max_key_len) (size : length prime ≡ key_len)
    (size' : length server_public ≡ key_len) (zero_prime : outside.crates.from_bytes_be prime ≡ 0)
    (drawn : outside.random_private (key_len * 2) ≡ some private)
    (drawn' : outside.random_filler ≡ some filler) where
  picks : pick config.auth config (security_ard ∷ []) ≡ ok security_ard
  unfolding pick pick_auto is_some
  picks = elim mode [ inl e ↦ rw e (ground (arith, user, pass)) | inr e ↦ rw e refl ]

  acceptable : not (leb min_key_len key_len && leb key_len max_key_len) ≡ false
  acceptable = ground arith

  response_panics :
      client_response outside.crates generator prime server_public
        (utf8 username)
        (utf8 password)
        private
        filler
      ≡ panic
  unfolding client_response dh_shared power
  response_panics =
      rw
        (
          size,
          size',
          zero_prime,
          le→leb min_key_len key_len low,
          le→leb key_len max_key_len high,
          (==_iff key_len key_len).1 refl,
        )
        refl

  exchange :
      Talks
        (authenticate outside config 8 security_ard)
        (be16 generator ++ (be16 key_len ++ (prime ++ server_public)))
        []
        panic
  unfolding authenticate ok_or ard_error
  exchange =
      rw (user, pass)
        (Talks-as _
          (Talks-panics _ _ (
            Talks-bind _ _ (Talks-u16 generator base) (
              Talks-bind _ _ (Talks-u16 key_len (omega arith)) (
                Talks-else _ _ acceptable (
                  Talks-bind _ _ (Talks-bytes prime key_len size) (
                    Talks-bind _ _ (Talks-bytes server_public key_len size') (
                      Talks-bind _ _
                        (Talks-given _ (ap (λ q. ok_or q (protocol no_randomness)) drawn))
                        (Talks-bind _ _
                          (Talks-given _ (ap (λ q. ok_or q (protocol no_randomness)) drawn'))
                          (Talks-panics _ _ (Talks-given _ (ap ard_error response_panics)))))))))))
          (ap (λ q. be16 generator ++ (be16 key_len ++ (prime ++ q))) (append-nil server_public))
          refl refl)

  -- A server that offers Apple authentication, and for its prime any acceptable number of bytes that
  -- are zero as a number, makes the client panic in the middle of the handshake. The client takes
  -- the offer: it has a name and a password, and both buffers are filled.
  pub handshake-panics :
      Talks
        (handshake outside config)
        (version_3_8
          ++ ((1 ∷ security_ard ∷ [])
              ++ (be16 generator ++ (be16 key_len ++ (prime ++ server_public)))))
        (version_3_8 ++ (security_ard ∷ []))
        panic
  unfolding handshake
  handshake-panics =
      Talks-bind _ _ Talks-agree_version
        (Talks-bind _ _ (Talks-choose config security_ard picks) (Talks-panics _ _ exchange))
