-- ===== src/Http.antt =====
-- crates/bolide-server/src/http.rs: the token, errors, freshness and the handlers. Each handler is run by
-- itself. The session, the clock and the PNG and base64 encoders are parameters; times are nanoseconds.
pub mod Bearer
pub mod Token
pub mod Fresh
pub mod Told
pub mod Computer
use bolide.Base.{
  ℕ, zero, suc, ◌+◌, ◌-◌, ◌*◌, ◌^◌, min, bit_or, bit_xor, Bool, true, false, ◌||◌, ◌&&◌, Option,
  none, some, List, [], ◌∷◌, ◌++◌, Result, ok, err, panic, stuck, ◌==◌, leb, ltb, length,
  if◌then◌else◌, ◌>>=◌, ◌⊎◌, inl, inr,
}
use bolide.Base.Text.{Text, codes, split, split_once, trim_start}
use bolide.Base.Ints.{ℤ}
use bolide.Error
use bolide.Error.{Error}
use bolide.Keysym.{eq_ignore_ascii_case}
use bolide.Framebuffer.{Framebuffer}
use bolide.Wire
use bolide.Wire.{ErrorCode, Image, ComputerResponse, ComputerAction, Coordinate}
use bolide.Actions
use bolide.Actions.{
  ActionError, RfbOp, pointer_op, key_op, sleep_op, DragPacing, Float, PlanContext, plan,
}
use bolide.Actions.Run.{Desk, Done, execute}

-- The sentences of `ApiError::message`.
pub data Message : Type 0 where
  session_gone no_frame see_log token_required unparsed : Message
  action_refused : ActionError → Message

pub record ApiError : Type 0 where
  pub code : ErrorCode
  pub message : Message

abbrev pub api_error : ErrorCode → Message → ApiError
api_error c m = record { code = c; message = m }

unfoldable pub status_for : ErrorCode → ℕ
status_for Wire.bad_request = 400
status_for Wire.out_of_bounds = 400
status_for Wire.unknown_key = 400
status_for Wire.unauthorized = 401
status_for Wire.disconnected = 503
status_for Wire.timeout = 504
status_for Wire.internal = 500

unfoldable pub from_action : ActionError → ApiError
from_action (Actions.out_of_bounds x y w h) =
    api_error Wire.out_of_bounds (action_refused (Actions.out_of_bounds x y w h))
from_action (Actions.unknown_key name) =
    api_error Wire.unknown_key (action_refused (Actions.unknown_key name))

unfoldable pub from_rfb : Error → ApiError
from_rfb Error.closed = api_error Wire.disconnected session_gone
from_rfb Error.timeout = api_error Wire.timeout no_frame
from_rfb other = api_error Wire.internal see_log

abbrev pub map_err : {E E' A : Type 0} → (E → E') → Result E A → Result E' A
map_err f (ok a) = ok a
map_err f (err e) = err (f e)
map_err f panic = panic
map_err f stuck = stuck

unfoldable pub any_format : List Text → Bool
any_format [] = false
any_format (pair ∷ pairs) = eq_ignore_ascii_case pair (codes "format=json") || any_format pairs

unfoldable pub wants_json : Option Text → Bool
wants_json none = false
wants_json (some q) = any_format (split 38 q)

unfoldable pub bearer : Text → Option Text
bearer value = elim (split_once 32 value) [
  | none ↦ none
  | some (scheme, token) ↦
      if eq_ignore_ascii_case scheme (codes "bearer") then some (trim_start token) else none
]

-- The `fold` over the bytes of both, as far as the shorter goes.
unfoldable pub differing : ℕ → List ℕ → List ℕ → ℕ
differing acc [] ys = acc
differing acc (a ∷ xs) [] = acc
differing acc (a ∷ xs) (b ∷ ys) = differing (bit_or acc (bit_xor a b)) xs ys

-- Both as their bytes.
unfoldable pub token_matches : List ℕ → List ℕ → Bool
token_matches presented expected =
    if length presented == length expected then differing 0 presented expected == 0 else false

-- What `require_token` makes of a request, given the header where `to_str` reads it, which is where it
-- is ASCII, so that its characters are its bytes.
pub data Gate : Type 0 where
  next : Gate
  refuse : ApiError → Gate

unfoldable pub gate_for : List ℕ → Option Text → Gate
gate_for expected none = refuse (api_error Wire.unauthorized token_required)
gate_for expected (some token) =
    if token_matches token expected
    then next
    else refuse (api_error Wire.unauthorized token_required)

unfoldable pub presented : Option Text → Option Text
presented none = none
presented (some value) = bearer value

unfoldable pub require_token : Option (List ℕ) → Option Text → Gate
require_token none header = next
require_token (some expected) header = gate_for expected (presented header)

-- A session with a clock. `pause` is `Clock::sleep`.
pub record Host : Type 1 where
  pub desk : Desk
  pub now : desk.World → ℕ
  pub pause : ℕ → desk.World → desk.World
  pub size : desk.World → ℕ × ℕ
  pub painted : desk.World → Bool
  pub refresh : Bool → ℕ → desk.World → desk.World × Result Error Framebuffer
  pub framebuffer : desk.World → desk.World × Result Error Framebuffer
  pub encode_png : Framebuffer → Option (List ℕ)
  pub base64 : List ℕ → Text

pub record ServerConfig : Type 0 where
  pub pacing : DragPacing
  pub input_settle : ℕ
  pub frame_timeout : ℕ
  pub token : Option (List ℕ)

-- `AppState`, with the world behind the session.
pub record AppState (W : Type 0) : Type 0 where
  pub world : W
  pub hands : ℤ × ℤ
  pub last_input : Option ℕ

abbrev pub incremental_wait : ℕ
incremental_wait = 250 * 10 ^ 6

abbrev pub after_input_wait : ℕ
after_input_wait = 2 * 10 ^ 9

unfoldable pub is_input : RfbOp → Bool
is_input (pointer_op x y b) = true
is_input (key_op k down) = true
is_input (sleep_op ms) = false

unfoldable pub any_input : List RfbOp → Bool
any_input [] = false
any_input (op ∷ ops) = is_input op || any_input ops

module _ (host : Host) (config : ServerConfig) where
  -- What is left of the pause after the last input.
  unfoldable pub settle : Option ℕ → host.desk.World → host.desk.World
  settle none w = w
  settle (some at) w =
      let settled = at + config.input_settle in
      if ltb (host.now w) settled then host.pause (settled - host.now w) w else w

  unfoldable pub frame_wait : Option ℕ → ℕ
  frame_wait none = min config.frame_timeout incremental_wait
  frame_wait (some at) = min config.frame_timeout after_input_wait

  -- The `match` on the refresh of a painted screen.
  unfoldable pub or_held :
      host.desk.World × Result Error Framebuffer → host.desk.World × Result ApiError Framebuffer
  or_held (w, ok frame) = (w, ok frame)
  or_held (w, err Error.timeout) = let (w', r) = host.framebuffer w in (w', map_err from_rfb r)
  or_held (w, err other) = (w, err (from_rfb other))
  or_held (w, panic) = (w, panic)
  or_held (w, stuck) = (w, stuck)

  unfoldable pub refreshed :
      Option ℕ → host.desk.World → host.desk.World × Result ApiError Framebuffer
  refreshed last_input w =
      if host.painted w
      then or_held (host.refresh true (frame_wait last_input) w)
      else (let (w', r) = host.refresh false config.frame_timeout w in (w', map_err from_rfb r))

  abbrev pub State : Type 0
  State = AppState (host.desk.World)

  unfoldable pub fresh_frame : State → State × Result ApiError Framebuffer
  fresh_frame s =
      let (w, r) = refreshed s.last_input (settle s.last_input s.world) in
      (record s { world = w; last_input = none }, r)

  unfoldable pub to_png : Framebuffer → Result ApiError (List ℕ)
  to_png frame = elim (host.encode_png frame) [
    | none ↦ err (api_error Wire.internal see_log)
    | some png ↦ ok png
  ]

  unfoldable pub to_image : Framebuffer → Result ApiError Image
  to_image frame = do
    png ← to_png frame
    ok (record { png_data = host.base64 png; width = frame.width; height = frame.height })

  abbrev pub performed : Option Image → Option Coordinate → ComputerResponse
  performed image coordinate = record { ok = true; image = image; coordinate = coordinate }

  -- The answer once the action was performed, by the `match` on it.
  unfoldable pub respond :
      {F : Type 0} → ComputerAction F → State → State × Result ApiError ComputerResponse
  respond Wire.screenshot s =
      let (s', frame) = fresh_frame s in
      (s', do f ← frame; image ← to_image f; ok (performed (some image) none))
  respond Wire.cursor_position s = (s, ok (performed none (some s.hands)))
  respond other s = (s, ok (performed none none))

  -- The state when the action has ended: its events are stamped, even if one of them failed.
  unfoldable pub acted : List RfbOp → Done (host.desk.World) → State → State
  acted ops done s = record {
    world = done.world;
    hands = done.cursor;
    last_input = if any_input ops then some (host.now done.world) else s.last_input;
  }

  unfoldable pub after_run :
      {F : Type 0}
      → ComputerAction F
      → Option Error
      → State
      → State × Result ApiError ComputerResponse
  after_run action (some e) s = (s, err (from_rfb e))
  after_run action none s = respond action s

  unfoldable pub run_plan :
      {F : Type 0}
      → ComputerAction F
      → Result ActionError (List RfbOp)
      → State
      → State × Result ApiError ComputerResponse
  run_plan action (ok ops) s =
      let done = execute host.desk ops s.hands s.world in
      after_run action done.failed (acted ops done s)
  run_plan action (err e) s = (s, err (from_action e))
  run_plan action panic s = (s, panic)
  run_plan action stuck s = (s, stuck)

  -- `none` is a body that does not parse.
  unfoldable pub computer :
      (float : Float)
      → Option (ComputerAction (float.F64))
      → State
      → State × Result ApiError ComputerResponse
  computer float none s = (s, err (api_error Wire.bad_request unparsed))
  computer float (some action) s =
      let (width, height) = host.size s.world in
      run_plan action
        (plan float action (record { width = width; height = height; pacing = config.pacing })) s

  -- The two forms of a screenshot.
  unfoldable pub screenshot : Option Text → State → State × Result ApiError (Image ⊎ List ℕ)
  screenshot query s =
      let (s', frame) = fresh_frame s in
      (
        s',
        do
          f ← frame
          if wants_json query
              then (do image ← to_image f; ok (inl image))
              else (do png ← to_png f; ok (inr png)),
      )
