-- ===== src/FakeServer/Handshake/Agreed.antt =====
-- client.rs against server.rs: each security type that both sides carry out is settled between them.
use bolide.Base.{ℕ, ◌≤◌, List, ◌++◌, length, ok}
use bolide.Base.Text.{Text, utf8}
use bolide.Base.Bytes.{IsU16}
use bolide.Client.{Config, max_string}
use bolide.Client.Talks.{Talks}
use bolide.Client.Handshake
use bolide.Client.Handshake.{Outside, authenticate, ard_error, ok_or}
use bolide.FakeServer.Handshake.{Security, no_security, vnc_auth, always_fail, unsupported, setup}
use bolide.FakeServer.Handshake.Served.{
  Settles, settled, heard_init, all_heard, all_said, Talks-client, Talks-server,
}
use bolide.FakeServer.Handshake.Suits.{Suits, none-Settles, vnc-Settles}
use bolide.FakeServer.Handshake.Apple.{ard-Settles}

module _ (outside : Outside) (config : Config) where
  Suits-Settles :
      (security : Security) → Suits outside security config → Settles outside security config
  Suits-Settles no_security h = none-Settles outside config h
  Suits-Settles (vnc_auth password) h = vnc-Settles outside config password h
  Suits-Settles (Security.ard username password) h = ard-Settles outside config username password h
  Suits-Settles always_fail h = absurd h
  Suits-Settles unsupported h = absurd h

-- A client that suits the security of the fake server and the server complete the opening exchange,
-- each hearing what the other says, whatever stands behind it: the client has the size of the
-- server's screen and its name, as latin-1 of its UTF-8, and has said no more than that, the pixel
-- format and the encodings. The size is two words, and the name 64 KiB at most.
pub handshake-setup :
    (outside : Outside) (security : Security) (config : Config) (width height : ℕ) (name : Text)
    → IsU16 width
    → IsU16 height
    → length (utf8 name) ≤ max_string
    → Suits outside security config
    → (heard said : List ℕ) × Talks
        (Handshake.handshake outside config)
        heard
        (said ++ settled)
        (ok (heard_init width height name))
      × Talks (setup outside security width height name) said heard (ok tt)
handshake-setup outside security config width height name wide high short h =
    let k = Suits-Settles outside config security h in
    (
      all_heard outside security config width height name wide high short k,
      all_said outside security config width height name wide high short k,
      Talks-client outside security config width height name wide high short k,
      Talks-server outside security config width height name wide high short k,
    )
