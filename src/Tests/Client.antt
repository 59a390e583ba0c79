-- ===== src/Tests/Client.antt =====
-- client.rs at a concrete offer.
use bolide.Base.{[], ◌∷◌, true, none, some, Returns}
use bolide.Base.Text.{codes}
use bolide.Client.{Config, Conn, auto, pick, choose_security}
use bolide.Client.Writes.{Wrote, choose_security-Wrote}
use bolide.Client.Security.{Allowed, pick-Allowed}

abbrev with_password : Config
with_password = record {
  username = none;
  password = some (codes "secret");
  shared = true;
  continuous = true;
  auth = auto;
}

pick-Allowed_example :
    Returns (Allowed auto with_password (1 ∷ 2 ∷ [])) (pick auto with_password (1 ∷ 2 ∷ []))
pick-Allowed_example = pick-Allowed auto with_password (1 ∷ 2 ∷ [])

-- Two types are offered, None and VNC authentication.
abbrev offering : Conn
offering = record { input = 2 ∷ 1 ∷ 2 ∷ []; output = [] }

choose_security-Wrote_example : Wrote [] (choose_security with_password offering)
choose_security-Wrote_example = choose_security-Wrote with_password offering
