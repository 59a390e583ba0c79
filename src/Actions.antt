-- ===== src/Actions.antt =====
-- crates/bolide-server/src/actions.rs: what each action sends to the desktop, and how it is sent.
pub mod Bounds
pub mod Drag
pub mod Hand
pub mod Plan
pub mod Run
use bolide.Base.{
  ℕ, zero, suc, ◌+◌, ◌*◌, max, ltb, leb, ◌==◌, Bool, true, false, ◌||◌, List, [], ◌∷◌, ◌++◌,
  if◌then◌else◌, Result, ok, err, panic, stuck, ◌>>=◌, Option, some, none,
}
use bolide.Base.Text.{Text, codes}
use bolide.Base.Ints.{ℤ, pos, negsuc, negative, ◌+ℤ◌, ◌-ℤ◌, ◌*ℤ◌, ◌/ℤ◌, signum, as_u16}
use bolide.Keysym.{keysym_for, keysym_for_char, parse_chord}
use bolide.Proto.{button_left, button_middle, button_right, button_wheel_up, button_wheel_down}
use bolide.Wire.{
  ScrollDirection, up, down, Coordinate, ComputerAction, screenshot, left_click, right_click,
  middle_click, double_click, triple_click, left_click_drag, mouse_move, typing, key, scroll,
  cursor_position, wait,
}

pub data RfbOp : Type 0 where
  -- x, y and the buttons held after the event
  pointer_op : ℕ → ℕ → ℕ → RfbOp
  -- keysym, and whether it goes down
  key_op : ℕ → Bool → RfbOp
  -- milliseconds
  sleep_op : ℕ → RfbOp

pub record DragPacing : Type 0 where
  pub steps : ℕ
  pub step_ms : ℕ
  pub dwell_ms : ℕ

abbrev pub default_pacing : DragPacing
default_pacing = record { steps = 20; step_ms = 20; dwell_ms = 150 }

pub record PlanContext : Type 0 where
  pub width : ℕ
  pub height : ℕ
  pub pacing : DragPacing

pub data ActionError : Type 0 where
  out_of_bounds : ℤ → ℤ → ℕ → ℕ → ActionError
  unknown_key : Text → ActionError

-- `x >= i32::from(w)`.
unfoldable pub at_least : ℤ → ℕ → Bool
at_least (pos n) w = leb w n
at_least (negsuc n) w = false

unfoldable pub check : PlanContext → Coordinate → Result ActionError (ℕ × ℕ)
check ctx (x, y) =
    if negative x || negative y || at_least x ctx.width || at_least y ctx.height
    then err (out_of_bounds x y ctx.width ctx.height)
    else ok (as_u16 x, as_u16 y)

unfoldable pub presses : ℕ → ℕ → ℕ → ℕ → List RfbOp
presses x y buttons zero = []
presses x y buttons (suc count) =
    pointer_op x y buttons ∷ pointer_op x y 0 ∷ presses x y buttons count

unfoldable pub clicks_at : ℕ → ℕ → ℕ → ℕ → List RfbOp
clicks_at x y buttons count = pointer_op x y 0 ∷ presses x y buttons count

-- The closure `pause` of `drag`.
unfoldable pub pause : ℕ → List RfbOp
pause zero = []
pause (suc ms) = sleep_op (suc ms) ∷ []

-- The closure `along` of `drag`. No number here reaches 2 ^ 34, far below what an `i64` holds.
unfoldable pub along : ℕ → ℕ → ℕ → ℕ → ℕ
along from to i n =
    let offset = (pos to -ℤ pos from) *ℤ pos i in
    let rounded = (pos 2 *ℤ offset +ℤ signum offset *ℤ pos n) /ℤ (pos 2 *ℤ pos n) in
    as_u16 (pos from +ℤ rounded)

-- The loop of `drag`: `left` moves from the `i`-th of `n` on.
unfoldable pub held_moves : DragPacing → ℕ × ℕ → ℕ × ℕ → ℕ → ℕ → ℕ → List RfbOp
held_moves pacing start end n i zero = []
held_moves pacing start end n i (suc left) =
    (if ltb 1 i then pause pacing.step_ms else [])
    ++ (pointer_op (along start.0 end.0 i n) (along start.1 end.1 i n) button_left
        ∷ held_moves pacing start end n (suc i) left)

unfoldable pub drag : ℕ × ℕ → ℕ × ℕ → DragPacing → List RfbOp
drag start end pacing =
    let n = max pacing.steps 1 in
    pointer_op start.0 start.1 0
    ∷ pointer_op start.0 start.1 button_left
    ∷ (pause pacing.dwell_ms
        ++ (held_moves pacing start end n 1 n
            ++ (pause pacing.dwell_ms ++ (pointer_op end.0 end.1 0 ∷ []))))

-- `keysym_for(named).ok_or_else(|| UnknownKey(named))`.
unfoldable pub named_key : Text → Result Text ℕ
named_key name = elim (keysym_for name) [ some k ↦ ok k | none ↦ err name ]

unfoldable pub keysym_for_typed : ℕ → Result Text ℕ
keysym_for_typed c =
    if c == 10
    then named_key (codes "Return")
    else if c == 13
    then named_key (codes "Return")
    else if c == 9
    then named_key (codes "Tab")
    else ok (keysym_for_char c)

-- `#[from] UnknownKey`.
unfoldable pub from_unknown_key {ℓ} : {A : Type ℓ} → Result Text A → Result ActionError A
from_unknown_key (ok a) = ok a
from_unknown_key (err name) = err (unknown_key name)
from_unknown_key panic = panic
from_unknown_key stuck = stuck

unfoldable pub type_ops : Text → Result ActionError (List RfbOp)
type_ops [] = ok []
type_ops (c ∷ text) = do
  keysym ← from_unknown_key (keysym_for_typed c)
  rest ← type_ops text
  ok (key_op keysym true ∷ key_op keysym false ∷ rest)

unfoldable pub press_all : List ℕ → List RfbOp
press_all [] = []
press_all (k ∷ ks) = key_op k true ∷ press_all ks

-- `for &keysym in syms.iter().rev()`.
unfoldable pub release_reversed : List ℕ → List RfbOp
release_reversed [] = []
release_reversed (k ∷ ks) = release_reversed ks ++ (key_op k false ∷ [])

unfoldable pub wheel_button : ScrollDirection → ℕ
wheel_button up = button_wheel_up
wheel_button down = button_wheel_down

-- The operations of `f64` that `plan` uses.
pub record Float : Type 1 where
  pub F64 : Type 0
  pub is_nan : F64 → Bool
  pub max_zero : F64 → F64
  pub float_zero : F64
  pub thousand_times : F64 → F64
  pub as_u64 : F64 → ℕ

unfoldable pub wait_ms : (float : Float) → float.F64 → ℕ
wait_ms float duration =
    let seconds = if float.is_nan duration then float.float_zero else float.max_zero duration in
    float.as_u64 (float.thousand_times seconds)

unfoldable pub click : PlanContext → Coordinate → ℕ → ℕ → Result ActionError (List RfbOp)
click ctx at buttons count = do p ← check ctx at; ok (clicks_at p.0 p.1 buttons count)

unfoldable pub scroll_ops : ℕ × ℕ → ScrollDirection → ℕ → List RfbOp
scroll_ops p direction zero = []
scroll_ops p direction (suc n) = clicks_at p.0 p.1 (wheel_button direction) (suc n)

unfoldable pub plan :
    (float : Float) → ComputerAction (float.F64) → PlanContext → Result ActionError (List RfbOp)
plan float screenshot ctx = ok []
plan float cursor_position ctx = ok []
plan float (left_click at) ctx = click ctx at button_left 1
plan float (right_click at) ctx = click ctx at button_right 1
plan float (middle_click at) ctx = click ctx at button_middle 1
plan float (double_click at) ctx = click ctx at button_left 2
plan float (triple_click at) ctx = click ctx at button_left 3
plan float (left_click_drag from to) ctx = do
  start ← check ctx from
  end ← check ctx to
  ok (drag start end ctx.pacing)
plan float (mouse_move at) ctx = do p ← check ctx at; ok (pointer_op p.0 p.1 0 ∷ [])
plan float (scroll at direction amount) ctx = do
  p ← check ctx at
  ok (scroll_ops p direction amount)
plan float (typing text) ctx = type_ops text
plan float (key text) ctx = do
  syms ← from_unknown_key (parse_chord text)
  ok (press_all syms ++ release_reversed syms)
plan float (wait duration) ctx = ok (sleep_op (wait_ms float duration) ∷ [])
