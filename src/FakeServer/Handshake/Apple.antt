-- ===== src/FakeServer/Handshake/Apple.antt =====
-- client.rs against server.rs: how Apple authentication is settled between them.
use mathlib.Core.List.{append-nil}
use bolide.Base.{
  ℕ, true, ◌&&◌, some, List, [], ◌∷◌, ◌++◌, All, length, ok, ◌≡◌, ◌⊎◌, inl, inr, refl, ap, ◌∙◌,
  arith,
}
use bolide.Base.Text.{Text, utf8}
use bolide.Base.Bytes.{IsByte, be16, be32}
use bolide.Error.{protocol, no_randomness}
use bolide.Keysym.{text_eq}
use bolide.Keysym.Tables.{text_eq_refl}
use bolide.Proto.{security_ard}
use bolide.Ard
use bolide.Ard.{field_max, credential_len}
use bolide.Ard.Exchange.{unpack-client_response}
use bolide.Client.{Config, auto, ard, pick, pick_auto, is_some}
use bolide.Client.Talks.{
  Talks, Talks-bind, Talks-give, Talks-given, Talks-write, Talks-bytes, Talks-u16, Talks-then,
  Talks-as,
}
use bolide.Client.Handshake.{Outside, authenticate, ard_error, ok_or}
use bolide.FakeServer.Handshake.{
  Security, SetupError, offered, check, ard_generator, ard_prime, ard_server_private,
}
use bolide.FakeServer.Handshake.Served.{Settles, Talks-read}
use bolide.FakeServer.Handshake.Suits.{Suits}

fields_match :
    (got : List ℕ × List ℕ) (username password : List ℕ)
    → got ≡ (username, password)
    → (text_eq got.0 username && text_eq got.1 password) ≡ true
fields_match got username password e = rw (e, text_eq_refl username, text_eq_refl password) refl

module _ (outside : Outside) (config : Config) where
  ard_picks :
      (username password : Text)
      → (config.auth ≡ auto) ⊎ (config.auth ≡ ard)
      → config.username ≡ some username
      → config.password ≡ some password
      → pick config.auth config (security_ard ∷ []) ≡ ok security_ard
  unfolding pick pick_auto is_some
  ard_picks username password (inl e) u p = rw e (ground (arith, u, p))
  ard_picks username password (inr e) u p = rw e refl

  module _ (username password : Text)
      (private filler server_public sealed public key : List ℕ) where
    offer : List ℕ
    offer = be16 ard_generator ++ (be16 64 ++ (ard_prime ++ server_public))

    ard_client :
        config.username ≡ some username
        → config.password ≡ some password
        → outside.random_private 128 ≡ some private
        → outside.random_filler ≡ some filler
        → length server_public ≡ 64
        → Ard.client_response outside.crates ard_generator ard_prime server_public
            (utf8 username)
            (utf8 password)
            private
            filler
          ≡ ok (sealed ++ public)
        → Talks (authenticate outside config 8 security_ard) offer (sealed ++ public) (ok true)
    unfolding authenticate offer ard_error ok_or
    ard_client u p r f size e =
        rw (u, p)
          (Talks-as _
            (Talks-bind _ _
              (Talks-bind _ _ (Talks-u16 ard_generator (omega arith)) (
                Talks-bind _ _ (Talks-u16 64 (omega arith)) (
                  Talks-bind _ _ (Talks-bytes ard_prime 64 refl) (
                    Talks-bind _ _ (Talks-bytes server_public 64 size) (
                      Talks-bind _ _ (Talks-given _ (ap (λ q. ok_or q (protocol no_randomness)) r))
                        (Talks-bind _ _
                          (Talks-given _ (ap (λ q. ok_or q (protocol no_randomness)) f))
                          (Talks-bind _ _ (Talks-given _ (ap ard_error e))
                            (Talks-write (sealed ++ public)))))))))
              (Talks-give (ok true)))
            (ap (λ q. (be16 ard_generator ++ (be16 64 ++ (ard_prime ++ q))) ++ [])
                (append-nil server_public)
              ∙ append-nil (be16 ard_generator ++ (be16 64 ++ (ard_prime ++ server_public))))
            (append-nil (sealed ++ public)) refl)

    ard_server :
        Ard.dh_public outside.crates {E = SetupError} ard_generator ard_prime ard_server_private
          ≡ ok server_public
        → length sealed ≡ 128
        → length public ≡ 64
        → Ard.dh_shared outside.crates {E = SetupError} public ard_prime ard_server_private ≡ ok key
        → Ard.unpack_credentials
            (Ard.aes_ecb_decrypt outside.crates (Ard.aes_key outside.crates key) sealed)
          ≡ (utf8 username, utf8 password)
        → Talks
            (check outside (Security.ard username password))
            (sealed ++ public)
            (offer ++ be32 0)
            (ok tt)
    unfolding check offer
    ard_server dp ls lp ds un =
        Talks-as _
          (Talks-bind _ _ (Talks-given _ dp) (
            Talks-bind _ _
              (Talks-write (be16 ard_generator ++ (be16 64 ++ (ard_prime ++ server_public))))
              (Talks-bind _ _ (Talks-read sealed 128 ls) (
                Talks-bind _ _ (Talks-read public 64 lp) (
                  Talks-bind _ _ (Talks-given _ ds) (
                    Talks-then _ _ (fields_match _ (utf8 username) (utf8 password) un)
                      (Talks-write (be32 0))))))))
          (ap (λ q. sealed ++ q) (append-nil public)) refl refl

  pub ard-Settles :
      (username password : Text)
      → Suits outside (Security.ard username password) config
      → Settles outside (Security.ard username password) config
  ard-Settles username password
        (
          mode,
          u,
          p,
          laws,
          positive,
          (private, r),
          (filler, f, full),
          (short, short'),
          (clean, clean'),
        ) =
      let whole : All IsByte ard_prime = omega arith in
      let (server_public, sealed, public, key, dp, size, e, ls, lp, ds, un) =
        unpack-client_response outside.crates laws ard_prime whole positive ard_generator private
          ard_server_private (utf8 username) (utf8 password) filler (omega arith) (omega arith) full
          short short' clean clean' SetupError in
      record {
        kind = security_ard;
        heard = offer username password private filler server_public sealed public key;
        said = sealed ++ public;
        offers = unfold offered in refl;
        picks = ard_picks username password mode u p;
        client =
            ard_client username password private filler server_public sealed public key u p r f size
              e;
        server =
            ard_server username password private filler server_public sealed public key dp ls lp ds
              un;
      }
