-- ===== src/Tests/Handshake.antt =====
-- client.rs and server.rs: opening exchanges with crates that are computed.
use bolide.Base.{
  ◌-◌, ℕ, ◌≤◌, some, true, List, [], ◌∷◌, ◌++◌, map, replicate, length, ok, panic, inl, refl, arith,
}
use bolide.Base.Text.{codes, utf8}
use bolide.Base.Bytes.{be16}
use bolide.Proto.{security_ard}
use bolide.Proto.Version.{version_3_3, version_3_8}
use bolide.Ard.{field_max}
use bolide.Ard.Credentials.{NoNul}
use bolide.Client.{Config, Conn, auto, max_string}
use bolide.Client.Talks.{Talks, conn}
use bolide.Client.Handshake
use bolide.Client.Handshake.{Outside, ServerInit}
use bolide.Client.Handshake.Ends.{Ends, Fills, Named}
use bolide.Client.Handshake.Returned.{handshake-Ends}
use bolide.Client.Handshake.Zero.{handshake-panics}
use bolide.FakeServer.Handshake.{Security, setup}
use bolide.FakeServer.Handshake.Served.{settled, heard_init}
use bolide.FakeServer.Handshake.Agreed.{handshake-setup}
use bolide.Tests.Ard.{crates, laws}

abbrev outside : Outside
outside = record {
  crates = crates;
  des = λ k b. map (λ x. 255 - x) b;
  random_private = λ n. some (replicate n 3);
  random_filler = some (replicate 128 0);
}

abbrev ann : Config
ann = record {
  username = some (codes "ann");
  password = some (codes "secret");
  shared = true;
  continuous = true;
  auth = auto;
}

short : length (utf8 (codes "desk")) ≤ max_string
unfolding utf8
short = omega arith

fits : (length (utf8 (codes "ann")) ≤ field_max) × (length (utf8 (codes "secret")) ≤ field_max)
unfolding utf8
fits = omega arith

clean : NoNul (utf8 (codes "ann")) × NoNul (utf8 (codes "secret"))
unfolding utf8
clean = omega arith

handshake-setup_example :
    (heard said : List ℕ) × Talks
      (Handshake.handshake outside ann)
      heard
      (said ++ settled)
      (ok (heard_init 640 480 (codes "desk")))
    × Talks
        (setup outside (Security.ard (codes "ann") (codes "secret")) 640 480 (codes "desk"))
        said
        heard
        (ok tt)
handshake-setup_example =
    handshake-setup outside (Security.ard (codes "ann") (codes "secret")) ann 640 480 (codes "desk")
      (omega arith) (omega arith) short
      (
        inl refl,
        refl,
        refl,
        laws,
        omega arith,
        (replicate 128 3, refl),
        (replicate 128 0, refl, refl),
        fits,
        clean,
      )

fills : Fills outside
fills filler e = ground (arith, e)

-- A 3.3 server that hangs up behind its banner.
abbrev cut_short : Conn
cut_short = conn version_3_3 []

handshake-Ends_example :
    Ends (Named ann) (λ (s : ServerInit). Unit {0}) (Handshake.handshake outside ann cut_short).1
handshake-Ends_example = handshake-Ends outside fills ann cut_short

handshake-panics_example :
    Talks
      (Handshake.handshake outside ann)
      (version_3_8
        ++ ((1 ∷ security_ard ∷ []) ++ (be16 5 ++ (be16 64 ++ (replicate 64 0 ++ replicate 64 7)))))
      (version_3_8 ++ (security_ard ∷ []))
      panic
handshake-panics_example =
    handshake-panics outside ann (codes "ann") (codes "secret") (inl refl) refl refl 5 64
      (replicate 64 0) (replicate 64 7) (replicate 128 3) (replicate 128 0) (omega arith)
      (omega arith) (omega arith) refl refl refl refl refl
