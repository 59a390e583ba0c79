-- ===== src/Tests/Http.antt =====
-- http.rs at a session that has painted and is slow to update.
use bolide.Base.{
  ℕ, ◌+◌, ◌^◌, ◌*◌, ◌≤◌, true, some, none, List, [], ◌∷◌, ok, err, ◌≡◌, ◌↔◌, ◌⊎◌, refl, arith,
}
use bolide.Base.Ints.{pos}
use bolide.Base.Text.{codes}
use bolide.Keysym.{eq_ignore_ascii_case, text_eq, to_ascii_lowercase, lower}
use bolide.Error.{Error}
use bolide.Wire
use bolide.Wire.{ComputerAction}
use bolide.Framebuffer.{Framebuffer}
use bolide.Actions.{RfbOp, pointer_op, default_pacing, plan, check, at_least}
use bolide.Tests.Actions.{seconds, screen}
use bolide.Actions.Run.{Desk, execute}
use bolide.Http.{
  Host, ServerConfig, State, any_input, is_input, require_token, next, token_matches, fresh_frame,
  computer, wants_json, any_format,
}
use bolide.Http.Token.{Names, token_matches_iff, require_token_iff}
use bolide.Http.Fresh.{Settled, Answer, fresh_frame-Answer}
use bolide.Http.Computer.{Refused, Executed, computer_cases, fresh_frame-computer}

-- The world is the time. Every event takes one nanosecond.
abbrev quiet_desk : Desk
quiet_desk = record {
  World = ℕ;
  send_pointer = λ x y b w. (w + 1, none);
  send_key = λ k down w. (w + 1, none);
  sleep = λ ms w. w + ms * 10 ^ 6;
}

abbrev one_pixel : Framebuffer
one_pixel = record { width = 1; height = 1; rgba = 0 ∷ 0 ∷ 0 ∷ 255 ∷ [] }

abbrev quiet_host : Host
quiet_host = record {
  desk = quiet_desk;
  now = λ w. w;
  pause = λ d w. w + d;
  size = λ w. (800, 600);
  painted = λ w. true;
  refresh = λ incremental d w. (w + d, err Error.timeout);
  framebuffer = λ w. (w, ok one_pixel);
  encode_png = λ fb. none;
  base64 = λ b. [];
}

abbrev quiet_config : ServerConfig
quiet_config = record {
  pacing = default_pacing;
  input_settle = 500;
  frame_timeout = 5000;
  token = none;
}

abbrev before_click : State quiet_host quiet_config
before_click = record { world = 0; hands = (pos 0, pos 0); last_input = none }

token_matches_iff_example :
    (token_matches (codes "secret") (codes "secreT") ≡ true) ↔ (codes "secret" ≡ codes "secreT")
token_matches_iff_example = token_matches_iff (codes "secret") (codes "secreT")

require_token_iff_example :
    (require_token (some (codes "secret")) (some (codes "bearer  secret")) ≡ next)
    ↔ Names (some (codes "bearer  secret")) (codes "secret")
require_token_iff_example = require_token_iff (codes "secret") (some (codes "bearer  secret"))

fresh_frame-Answer_example :
    (w : ℕ) × Settled quiet_host quiet_config none w
    × Answer quiet_host quiet_config none w ((fresh_frame quiet_host quiet_config before_click).1)
    × ((fresh_frame quiet_host quiet_config before_click).0.last_input ≡ none)
fresh_frame-Answer_example =
    fresh_frame-Answer quiet_host quiet_config (λ d w. omega arith) before_click

abbrev move : ComputerAction ℕ
move = Wire.mouse_move (pos 10, pos 20)

abbrev move_plan : List RfbOp
move_plan = pointer_op 10 20 0 ∷ []

move_planned : plan seconds move screen ≡ ok move_plan
unfolding plan check at_least
move_planned = refl

computer_cases_example :
    Refused quiet_host quiet_config seconds move before_click
    ⊎ Executed quiet_host quiet_config seconds move before_click
computer_cases_example =
    computer_cases quiet_host quiet_config seconds move before_click (omega arith, omega arith)

moves : any_input move_plan ≡ true
unfolding any_input is_input
moves = refl

fresh_frame-computer_example :
    (w : ℕ) × ((execute quiet_desk move_plan (pos 0, pos 0) 0).world + 500 ≤ w)
    × Answer quiet_host quiet_config
        (some ((execute quiet_desk move_plan (pos 0, pos 0) 0).world))
        w
        ((fresh_frame quiet_host quiet_config
          ((computer quiet_host quiet_config seconds (some move) before_click).0)).1)
fresh_frame-computer_example =
    fresh_frame-computer quiet_host quiet_config seconds (λ d w. omega arith) move before_click
      move_plan move_planned moves

json_asked : wants_json (some (codes "a=1&FORMAT=json")) ≡ true
unfolding wants_json any_format eq_ignore_ascii_case text_eq to_ascii_lowercase lower
json_asked = refl
