-- ===== src/Client/Handshake/Returned.antt =====
-- client.rs, `handshake`: it ends with a value or an error, and panics at most in Apple authentication.
use bolide.Base.{
  ℕ, ◌*◌, ◌%◌, ◌==◌, leb, ltb, ◌&&◌, ◌||◌, not, Option, none, some, List, [], ◌∷◌, length, Result,
  ok, err, panic, stuck, ◌≡◌, refl,
}
use bolide.Base.Text.{Text, utf8}
use bolide.Error.{Error, not_rfb, refused, protocol, no_randomness}
use bolide.Ard.{client_response, credential_len, min_key_len, max_key_len}
use bolide.Proto.{
  security_none, security_vnc_auth, security_ard, security_result_ok, advertised_encodings,
}
use bolide.Proto.Format.{rgbx_32, from_bool}
use bolide.Proto.Messages.{set_pixel_format, set_encodings}
use bolide.Proto.Version.{parse_version}
use bolide.Client.{
  Config, Conn, resume, give, bytes, u16, u32, string, reason, write, max_string, choose_security,
}
use bolide.Client.Writes.{
  bytes-Silent, u16-Silent, u32-Silent, string-Silent, reason-Silent, Wrote, choose_security-Wrote,
}
use bolide.Client.Handshake.{
  Outside, negotiate, ok_or, agree_version, imposed_security, ard_error, ard_exchange,
  ard_authenticate, vnc_authenticate, authenticate, security_result, initialise, handshake,
}
use bolide.Client.Handshake.Ends.{
  Ends, Any, Returns-Ends, resume-Ends, given-Ends, written-Ends, Silent-Ends, if-Ends,
  client_response-Ends, ard_error-Ends, ok_or-Ends, Fills, Named,
}

module _ (outside : Outside) (fills : Fills outside) (bad : Type 0) where
  open outside use {crates}

  ard_exchange-Ends :
      (b : bad) (username password : Text) (c : Conn)
      → Ends bad Any (ard_exchange outside username password c).1
  unfolding ard_exchange give write
  ard_exchange-Ends b username password c =
      Silent-Ends bad Any Any _ c (u16 c) (u16-Silent c c.output refl) (λ generator c1 _.
        Silent-Ends bad Any Any _ c1 (u16 c1) (u16-Silent c1 c1.output refl) (λ key_len c2 _.
          if-Ends bad Any (not (leb min_key_len key_len && leb key_len max_key_len)) _ _ c2
            (λ _. tt)
            (λ _.
              Silent-Ends bad (λ b. length b ≡ key_len) Any _ c2 (bytes key_len c2)
                (bytes-Silent key_len c2 c2.output refl)
                (λ prime c3 _.
                  Silent-Ends bad (λ b. length b ≡ key_len) Any _ c3 (bytes key_len c3)
                    (bytes-Silent key_len c3 c3.output refl)
                    (λ server_public c4 _.
                      given-Ends bad Any Any
                        (ok_or (outside.random_private (key_len * 2)) (protocol no_randomness)) _ c4
                        (ok_or-Ends bad Any _ (protocol no_randomness) (λ _ _. tt))
                        (λ private c5 _.
                          given-Ends bad (λ f. length f ≡ credential_len) Any
                            (ok_or outside.random_filler (protocol no_randomness)) _ c5
                            (ok_or-Ends bad (λ f. length f ≡ credential_len) _
                              (protocol no_randomness) fills)
                            (λ filler c6 full.
                              given-Ends bad Any Any
                                (ard_error (
                                  client_response crates generator prime server_public
                                    (utf8 username) (utf8 password) private filler))
                                _ c6
                                (ard_error-Ends bad _ (
                                  client_response-Ends bad crates b prime generator server_public
                                    (utf8 username) (utf8 password) private filler full))
                                (λ payload c7 _. tt))))))))

  ard_authenticate-Ends :
      (username password : Option Text) (c : Conn)
      → ((u p : Text) → username ≡ some u → password ≡ some p → bad)
      → Ends bad Any (ard_authenticate outside username password c).1
  unfolding ard_authenticate give
  ard_authenticate-Ends none password c h = tt
  ard_authenticate-Ends (some username) none c h = tt
  ard_authenticate-Ends (some username) (some password) c h =
      ard_exchange-Ends (h username password refl refl) username password c

  vnc_authenticate-Ends :
      (password : Option Text) (c : Conn) → Ends bad Any (vnc_authenticate outside password c).1
  unfolding vnc_authenticate give write
  vnc_authenticate-Ends none c = tt
  vnc_authenticate-Ends (some password) c =
      Silent-Ends bad (λ b. length b ≡ 16) Any _ c (bytes 16 c) (bytes-Silent 16 c c.output refl)
        (λ _ _ _. tt)

  authenticate-Ends :
      (config : Config) (minor chosen : ℕ) (c : Conn)
      → (Named config → bad)
      → Ends bad Any (authenticate outside config minor chosen c).1
  unfolding authenticate give
  authenticate-Ends config minor chosen c h =
      if-Ends bad Any (chosen == security_ard) _ _ c
        (λ _.
          resume-Ends bad Any Any _ (ard_authenticate outside config.username config.password c)
            (ard_authenticate-Ends config.username config.password c (λ u p e e'. h (u, p, e, e')))
            (λ _ _ _. tt))
        (λ _.
          if-Ends bad Any (chosen == security_vnc_auth) _ _ c
            (λ _.
              resume-Ends bad Any Any _ (vnc_authenticate outside config.password c)
                (vnc_authenticate-Ends config.password c) (λ _ _ _. tt))
            (λ _. tt))

  reason-Ends :
      (f : Text → Error) (c : Conn)
      → Ends bad (Any {A = ℕ}) (resume (λ why. give (err (f why))) (reason c)).1
  unfolding give
  reason-Ends f c =
      Silent-Ends bad Any Any _ c (reason c) (reason-Silent c c.output refl) (λ _ _ _. tt)

  agree_version-Ends : (c : Conn) → Ends bad Any (agree_version c).1
  unfolding agree_version give
  agree_version-Ends c =
      Silent-Ends bad (λ b. length b ≡ 12) Any _ c (bytes 12 c) (bytes-Silent 12 c c.output refl)
        (λ banner c1 _.
          given-Ends bad Any Any (ok_or (parse_version banner) not_rfb) _ c1
            (ok_or-Ends bad Any _ not_rfb (λ _ _. tt))
            (λ version c2 _.
              if-Ends bad Any (not (version.0 == 3) || ltb version.1 3) _ _ c2 (λ _. tt)
                (λ _. written-Ends bad Any (negotiate version.1).0 _ c2 (λ _. tt))))

  imposed_security-Ends : (c : Conn) → Ends bad Any (imposed_security c).1
  unfolding imposed_security give
  imposed_security-Ends c =
      Silent-Ends bad Any Any _ c (u32 c) (u32-Silent c c.output refl) (λ ty c1 _.
        if-Ends bad Any (ty == 0) _ _ c1 (λ _. reason-Ends refused c1)
          (λ _.
            if-Ends bad Any (not (ty % 256 == security_none) && not (ty % 256 == security_vnc_auth))
              _ _ c1 (λ _. tt) (λ _. tt)))

  security_result-Ends : (minor : ℕ) (c : Conn) → Ends bad Any (security_result minor c).1
  unfolding security_result give
  security_result-Ends minor c =
      Silent-Ends bad Any Any _ c (u32 c) (u32-Silent c c.output refl) (λ result c1 _.
        if-Ends bad Any (not (result == security_result_ok)) _ _ c1
          (λ _.
            resume-Ends bad Any Any _ _
              (if-Ends bad Any (leb 8 minor) reason _ c1
                (λ _. Returns-Ends bad Any _ (reason-Silent c1 c1.output refl).1) (λ _. tt))
              (λ _ _ _. tt))
          (λ _. tt))

  initialise-Ends : (config : Config) (c : Conn) → Ends bad Any (initialise config c).1
  unfolding initialise give
  initialise-Ends config c = written-Ends bad Any (from_bool config.shared ∷ []) _ c (λ c1.
      Silent-Ends bad Any Any _ c1 (u16 c1) (u16-Silent c1 c1.output refl) (λ width c2 _.
        Silent-Ends bad Any Any _ c2 (u16 c2) (u16-Silent c2 c2.output refl) (λ height c3 _.
          Silent-Ends bad (λ b. length b ≡ 16) Any _ c3 (bytes 16 c3)
            (bytes-Silent 16 c3 c3.output refl)
            (λ format c4 _.
              Silent-Ends bad Any Any _ c4 (string max_string c4)
                (string-Silent max_string c4 c4.output refl)
                (λ name c5 _. written-Ends bad Any (set_pixel_format rgbx_32) _ c5 (λ c6.
                  written-Ends bad Any (set_encodings advertised_encodings) _ c6 (λ _. tt)))))))

  Wrote-Ends : (out : List ℕ) (p : Conn × Result Error ℕ) → Wrote out p → Ends bad Any p.1
  Wrote-Ends out (c, ok t) h = tt
  Wrote-Ends out (c, err e) h = tt
  Wrote-Ends out (c, panic) h = absurd h
  Wrote-Ends out (c, stuck) h = absurd h

  handshake-Ends' :
      (config : Config) (c : Conn)
      → (Named config → bad)
      → Ends bad Any (handshake outside config c).1
  unfolding handshake give
  handshake-Ends' config c h =
      resume-Ends bad Any Any _ (agree_version c) (agree_version-Ends c) (λ minor c1 _.
        resume-Ends bad Any Any _ _
          (if-Ends bad Any (leb 7 minor) (choose_security config) imposed_security c1
            (λ _.
              Wrote-Ends c1.output (choose_security config c1) (choose_security-Wrote config c1))
            (λ _. imposed_security-Ends c1))
          (λ chosen c2 _.
            resume-Ends bad Any Any _ (authenticate outside config minor chosen c2)
              (authenticate-Ends config minor chosen c2 h)
              (λ expects c3 _.
                resume-Ends bad Any Any _ _
                  (if-Ends bad Any expects (security_result minor) _ c3
                    (λ _. security_result-Ends minor c3) (λ _. tt))
                  (λ _ c4 _. initialise-Ends config c4))))

-- Whatever the server sends, the handshake ends with what the server said of its desktop or with an
-- error; or it panics, and then the client had a username and a password. The generator fills the
-- block that it is given.
pub handshake-Ends :
    (outside : Outside)
    → Fills outside
    → (config : Config) (c : Conn) → Ends (Named config) Any (handshake outside config c).1
handshake-Ends outside fills config c =
    handshake-Ends' outside fills (Named config) config c (λ h. h)
