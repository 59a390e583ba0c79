-- ===== src/Client/Handshake/Opened.antt =====
-- client.rs: the start of a handshake with a 3.8 server that offers one security type.
use bolide.Base.{ℕ, [], ◌∷◌, ok, ◌≡◌, refl}
use bolide.Proto.Version.{version_3_8, parse_version_3_8}
use bolide.Client.{Config, pick, choose_security}
use bolide.Client.Talks.{
  Talks, Talks-bind, Talks-give, Talks-given, Talks-write, Talks-bytes, Talks-u8,
}
use bolide.Client.Handshake.{agree_version}

pub Talks-agree_version : Talks agree_version version_3_8 version_3_8 (ok 8)
unfolding agree_version
Talks-agree_version = Talks-bind _ _ (Talks-bytes version_3_8 12 refl) (
    rw parse_version_3_8 (
      Talks-bind _ _ (Talks-give (ok (3, 8)))
        (Talks-bind _ _ (Talks-write version_3_8) (Talks-give (ok 8)))))

pub Talks-choose :
    (config : Config) (kind : ℕ)
    → pick config.auth config (kind ∷ []) ≡ ok kind
    → Talks (choose_security config) (1 ∷ kind ∷ []) (kind ∷ []) (ok kind)
unfolding choose_security
Talks-choose config kind picks = Talks-bind _ _ (Talks-u8 1) (
    Talks-bind _ _ (Talks-bytes (kind ∷ []) 1 refl) (
      Talks-bind _ _ (Talks-given _ picks)
        (Talks-bind _ _ (Talks-write (kind ∷ [])) (Talks-give (ok kind)))))
