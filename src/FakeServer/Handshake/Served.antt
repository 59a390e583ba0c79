-- ===== src/FakeServer/Handshake/Served.antt =====
-- client.rs against server.rs: the two sides of the opening exchange, each fed what the other writes.
use mathlib.Core.List.{append_assoc, append-nil}
use bolide.Base.{
  ℕ, ◌%◌, ◌≤◌, ◌^◌, not, true, false, contains, List, [], ◌∷◌, ◌++◌, length, length-append,
  take-append, drop-append, le→leb, leb, ok, ◌≡◌, refl, sym, ap, arith,
}
use bolide.Base.Text.{Text, utf8}
use bolide.Base.Bytes.{IsU16, be32}
use bolide.Proto.{advertised_encodings}
use bolide.Proto.Version.{version_3_8}
use bolide.Proto.Format.{rgbx_32, encode, from_bool}
use bolide.Proto.Messages.{set_pixel_format, set_encodings, from_latin1}
use bolide.Client.{Config, pick, max_string}
use bolide.Client.Talks.{
  Talks, Talks-bind, Talks-give, Talks-write, Talks-bytes, Talks-u16, Talks-u32, Talks-string,
  Talks-else, Talks-as,
}
use bolide.Client.Handshake
use bolide.Client.Handshake.Opened.{Talks-agree_version, Talks-choose}
use bolide.Client.Handshake.{
  Outside, ServerInit, agree_version, authenticate, security_result, initialise,
}
use bolide.FakeServer.Handshake as Server
use bolide.FakeServer.Handshake.{
  Security, no_security, vnc_auth, always_fail, unsupported, SetupError, read_exact, offered, check,
  accept, challenge, ard_generator, ard_prime, ard_server_private, setup, server_init,
}

pub Talks-read : (xs : List ℕ) (n : ℕ) → length xs ≡ n → Talks (read_exact n) xs [] (ok xs)
unfolding read_exact
Talks-read xs n e = record {
  runs = λ t o.
      let enough : leb n (length (xs ++ t)) ≡ true =
        le→leb n (length (xs ++ t)) (omega (arith, length-append xs t)) in
      rw (enough, take-append n xs t e, drop-append n xs t e, append-nil o) refl;
}

-- What the client writes behind its ClientInit.
abbrev pub settled : List ℕ
settled = set_pixel_format rgbx_32 ++ set_encodings advertised_encodings

-- The desktop's name goes out in UTF-8 and is read as latin-1.
abbrev pub heard_init : ℕ → ℕ → Text → ServerInit
heard_init width height name = record {
  width = width;
  height = height;
  name = from_latin1 (utf8 name);
}

module _ (config : Config) (width height : ℕ) (name : Text) (wide : IsU16 width)
    (high : IsU16 height) (short : length (utf8 name) ≤ max_string) where
  Talks-initialise :
      Talks
        (initialise config)
        (server_init width height name)
        (from_bool config.shared ∷ settled)
        (ok (heard_init width height name))
  unfolding initialise server_init
  Talks-initialise =
      let size : length (utf8 name) % 2 ^ 32 ≡ length (utf8 name) = omega (arith, short) in
      Talks-as _
        (Talks-bind _ _ (Talks-write (from_bool config.shared ∷ [])) (
          Talks-bind _ _ (Talks-u16 width wide) (
            Talks-bind _ _ (Talks-u16 height high) (
              Talks-bind _ _ (Talks-bytes (encode rgbx_32) 16 (unfold encode in refl)) (
                Talks-bind _ _ (Talks-string max_string (utf8 name) short (omega arith)) (
                  Talks-bind _ _ (Talks-write (set_pixel_format rgbx_32)) (
                    Talks-bind _ _ (Talks-write (set_encodings advertised_encodings))
                      (Talks-give (ok (heard_init width height name))))))))))
        (rw (size, append-nil (utf8 name)) refl)
        (rw (append-nil (set_encodings advertised_encodings)) refl) refl

-- How one security type is settled: the client picks it out of the server's offer, says `said` for it,
-- and hears `heard` before the result.
pub record Settles (outside : Outside) (security : Security) (config : Config) : Type 0 where
  pub kind : ℕ
  pub heard : List ℕ
  pub said : List ℕ
  pub offers : offered security ≡ kind ∷ []
  pub picks : pick config.auth config (kind ∷ []) ≡ ok kind
  pub client : Talks (authenticate outside config 8 kind) heard said (ok true)
  pub server : Talks (check outside security) said (heard ++ be32 0) (ok tt)

module _ (outside : Outside) (security : Security) (config : Config) (width height : ℕ)
    (name : Text) (wide : IsU16 width) (high : IsU16 height)
    (short : length (utf8 name) ≤ max_string) (k : Settles outside security config) where
  -- What the client hears and says up to its ClientInit.
  pub all_heard : List ℕ
  all_heard =
      version_3_8 ++ ((1 ∷ k.kind ∷ []) ++ (k.heard ++ (be32 0 ++ server_init width height name)))

  pub all_said : List ℕ
  all_said = version_3_8 ++ ((k.kind ∷ []) ++ (k.said ++ (from_bool config.shared ∷ [])))

  Talks-result : Talks (security_result 8) (be32 0) [] (ok tt)
  unfolding security_result
  Talks-result = Talks-bind _ _ (Talks-u32 0 (omega arith)) (Talks-give (ok tt))

  pub Talks-client :
      Talks
        (Handshake.handshake outside config)
        all_heard
        (all_said ++ settled)
        (ok (heard_init width height name))
  unfolding Handshake.handshake all_heard all_said
  Talks-client =
      Talks-as _
        (Talks-bind _ _ Talks-agree_version (
          Talks-bind _ _ (Talks-choose config k.kind k.picks) (
            Talks-bind _ _ k.client (
              Talks-bind _ _ Talks-result
                (Talks-initialise config width height name wide high short)))))
        refl
        (ap (λ q. version_3_8 ++ (k.kind ∷ q))
          (sym (append_assoc k.said (from_bool config.shared ∷ []) settled)))
        refl

  Talks-accepts :
      Talks
        (Server.handshake outside security)
        (version_3_8 ++ (k.kind ∷ k.said))
        (version_3_8 ++ (1 ∷ k.kind ∷ (k.heard ++ be32 0)))
        (ok tt)
  unfolding Server.handshake Server.head
  Talks-accepts =
      let known : not (contains (k.kind ∷ []) k.kind) ≡ false = ground arith in
      rw k.offers (
        Talks-bind _ _ (Talks-write version_3_8) (
          Talks-bind _ _ (Talks-read version_3_8 12 refl) (
            Talks-bind _ _ (Talks-write (1 ∷ k.kind ∷ [])) (
              Talks-bind _ _ (Talks-read (k.kind ∷ []) 1 refl)
                (Talks-bind _ _ (Talks-give (ok k.kind)) (Talks-else _ _ known k.server))))))

  pub Talks-server : Talks (setup outside security width height name) all_said all_heard (ok tt)
  unfolding setup all_heard all_said
  Talks-server =
      Talks-as _
        (Talks-bind _ _ Talks-accepts (
          Talks-bind _ _ (Talks-read (from_bool config.shared ∷ []) 1 refl)
            (Talks-write (server_init width height name))))
        refl
        (ap (λ q. version_3_8 ++ (1 ∷ k.kind ∷ q))
          (append_assoc k.heard (be32 0) (server_init width height name)))
        refl
