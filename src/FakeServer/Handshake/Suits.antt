-- ===== src/FakeServer/Handshake/Suits.antt =====
-- client.rs against server.rs: which clients can log in, and how None and VNC authentication are settled.
use mathlib.Core.List.{append-nil}
use bolide.Base.{
  ℕ, ◌≤◌, ◌<◌, true, some, List, [], ◌∷◌, ◌++◌, length, ok, ◌≡◌, ◌⊎◌, inl, inr, refl, arith,
}
use bolide.Base.Text.{Text, utf8}
use bolide.Base.Bytes.{be32}
use bolide.Base.Bytes.Chunks.{chunks_exact_mut, length-each_chunk}
use bolide.Keysym.Tables.{text_eq_refl}
use bolide.Proto.{security_none, security_vnc_auth}
use bolide.Proto.VncAuth.{vnc_auth_response, key_slots}
use bolide.Ard.{field_max, credential_len}
use bolide.Ard.Credentials.{NoNul}
use bolide.Ard.Exchange.{Laws}
use bolide.Client.{Config, auto, ard, vnc, pick, pick_auto, is_some}
use bolide.Client.Talks.{
  Talks, Talks-bind, Talks-give, Talks-write, Talks-bytes, Talks-then, Talks-as,
}
use bolide.Client.Handshake.{Outside, authenticate}
use bolide.FakeServer.Handshake.{
  Security, no_security, vnc_auth, always_fail, unsupported, offered, check, challenge, ard_prime,
}
use bolide.FakeServer.Handshake.Served.{Settles, Talks-read}

-- The client can log in to the server: it is in a mode that takes the server's one type, and has what
-- the server asks for. DES gives a block for a block, and the crates keep Laws; the generator fills
-- both buffers; both texts fit their fields of the credential block.
abbrev pub Suits : Outside → Security → Config → Type 0
Suits outside no_security config = config.auth ≡ auto
Suits outside (vnc_auth password) config =
    ((config.auth ≡ auto) ⊎ (config.auth ≡ vnc))
    × (config.password ≡ some password)
    × ((k b : List ℕ) → length b ≡ 8 → length (outside.des k b) ≡ 8)
Suits outside (Security.ard username password) config =
    ((config.auth ≡ auto) ⊎ (config.auth ≡ ard))
    × (config.username ≡ some username)
    × (config.password ≡ some password)
    × Laws outside.crates
    × (0 < outside.crates.from_bytes_be ard_prime)
    × ((private : List ℕ) × (outside.random_private 128 ≡ some private))
    × ((filler : List ℕ) × (outside.random_filler ≡ some filler) × (length filler ≡ credential_len))
    × ((length (utf8 username) ≤ field_max) × (length (utf8 password) ≤ field_max))
    × (NoNul (utf8 username) × NoNul (utf8 password))
Suits outside always_fail config = ⊥
Suits outside unsupported config = ⊥

module _ (outside : Outside) (config : Config) where
  pub none-Settles : Suits outside no_security config → Settles outside no_security config
  unfolding offered
  none-Settles mode = record {
    kind = security_none;
    heard = [];
    said = [];
    offers = refl;
    picks = rw mode (unfold pick pick_auto in ground arith);
    client = unfold authenticate in Talks-give (ok true);
    server = unfold check in Talks-write (be32 0);
  }

  length-response :
      (password : Text)
      → ((k b : List ℕ) → length b ≡ 8 → length (outside.des k b) ≡ 8)
      → length (vnc_auth_response outside.des password challenge) ≡ 16
  unfolding vnc_auth_response chunks_exact_mut
  length-response password keeps =
      length-each_chunk 8 (outside.des (key_slots 8 (utf8 password)))
        (keeps (key_slots 8 (utf8 password))) 2 challenge (omega arith)

  vnc_picks :
      (password : Text)
      → (config.auth ≡ auto) ⊎ (config.auth ≡ vnc)
      → config.password ≡ some password
      → pick config.auth config (security_vnc_auth ∷ []) ≡ ok security_vnc_auth
  unfolding pick pick_auto is_some
  vnc_picks password (inl e) p = rw e (ground (arith, p))
  vnc_picks password (inr e) p = rw e refl

  module _ (password : Text) where
    answer : List ℕ
    answer = vnc_auth_response outside.des password challenge

    vnc_client :
        config.password ≡ some password
        → Talks (authenticate outside config 8 security_vnc_auth) challenge answer (ok true)
    unfolding authenticate answer
    vnc_client known = rw known (
        Talks-as _
          (Talks-bind _ _
            (Talks-bind _ _ (Talks-bytes challenge 16 refl)
              (Talks-write (vnc_auth_response outside.des password challenge)))
            (Talks-give (ok true)))
          refl (append-nil (vnc_auth_response outside.des password challenge)) refl)

    vnc_server :
        length answer ≡ 16
        → Talks (check outside (vnc_auth password)) answer (challenge ++ be32 0) (ok tt)
    unfolding check answer
    vnc_server size =
        Talks-as _
          (Talks-bind _ _ (Talks-write challenge) (
            Talks-bind _ _ (Talks-read answer 16 size)
              (Talks-then _ _ (text_eq_refl answer) (Talks-write (be32 0)))))
          (append-nil answer) refl refl

    pub vnc-Settles :
        Suits outside (vnc_auth password) config → Settles outside (vnc_auth password) config
    vnc-Settles (mode, known, keeps) = record {
      kind = security_vnc_auth;
      heard = challenge;
      said = answer;
      offers = unfold offered in refl;
      picks = vnc_picks password mode known;
      client = vnc_client known;
      server = vnc_server (unfold answer in length-response password keeps);
    }
