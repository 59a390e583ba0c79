-- ===== src/Wire.antt =====
-- crates/bolide-server/src/wire.rs: the actions of the `computer` tool, where `F` is the type `f64`, what is
-- answered to them, and the codes of errors.
use bolide.Base.Text.{Text}
use bolide.Base.Ints.{ℤ}
use bolide.Base.{ℕ, Bool, Option}

pub data ScrollDirection : Type 0 where
  up down : ScrollDirection

-- `[x, y]`.
abbrev pub Coordinate : Type 0
Coordinate = ℤ × ℤ

pub data ComputerAction (F : Type 0) : Type 0 where
  screenshot : ComputerAction F
  left_click right_click middle_click double_click triple_click : Coordinate → ComputerAction F
  left_click_drag : Coordinate → Coordinate → ComputerAction F
  mouse_move : Coordinate → ComputerAction F
  typing : Text → ComputerAction F
  key : Text → ComputerAction F
  scroll : Coordinate → ScrollDirection → ℕ → ComputerAction F
  cursor_position : ComputerAction F
  wait : F → ComputerAction F

-- Its `format` is always `"png"`; `png_data` is its `data`.
pub record Image : Type 0 where
  pub png_data : Text
  pub width : ℕ
  pub height : ℕ

pub record ComputerResponse : Type 0 where
  pub ok : Bool
  pub image : Option Image
  pub coordinate : Option Coordinate

pub data ErrorCode : Type 0 where
  bad_request out_of_bounds unknown_key unauthorized disconnected timeout internal : ErrorCode
