-- ===== src/Proto.antt =====
-- crates/bolide-rfb/src/proto.rs: the wire constants, the pixel format and the message builders.
-- Shifts are those of a release build: a `u32` is shifted by the amount modulo 32.

pub mod ClientMsg
pub mod ServerMsg
pub mod Format
pub mod Messages
pub mod Version
pub mod VncAuth
use bolide.Base.{ℕ, ◌-◌, ◌^◌, List, [], ◌∷◌}

abbrev pub security_none : ℕ
security_none = 1

abbrev pub security_vnc_auth : ℕ
security_vnc_auth = 2

abbrev pub security_ard : ℕ
security_ard = 30

abbrev pub security_result_ok : ℕ
security_result_ok = 0

-- An `i32` is its bit pattern, so -223 is 2 ^ 32 - 223.
abbrev pub enc_raw : ℕ
enc_raw = 0

abbrev pub enc_copy_rect : ℕ
enc_copy_rect = 1

abbrev pub enc_zrle : ℕ
enc_zrle = 16

abbrev pub enc_desktop_size : ℕ
enc_desktop_size = 2 ^ 32 - 223

abbrev pub zrle_tile : ℕ
zrle_tile = 64

abbrev pub advertised_encodings : List ℕ
advertised_encodings = enc_zrle ∷ enc_copy_rect ∷ enc_raw ∷ enc_desktop_size ∷ []

abbrev pub button_left : ℕ
button_left = 1

abbrev pub button_middle : ℕ
button_middle = 2

abbrev pub button_right : ℕ
button_right = 4

abbrev pub button_wheel_up : ℕ
button_wheel_up = 8

abbrev pub button_wheel_down : ℕ
button_wheel_down = 16
