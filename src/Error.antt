-- ===== src/Error.antt =====
-- crates/bolide-rfb/src/lib.rs: the crate's `Error`. Where the source formats a sentence, the model
-- keeps which sentence it is and the numbers it prints.
use bolide.Base.{ℕ, List}
use bolide.Base.Text.{Text}

-- The sentences of `Error::Protocol`.
pub data Complaint : Type 0 where
  -- zrle.rs
  corrupt_zlib : Complaint
  absurd_read : Complaint
  ended_early : ℕ → Complaint
  packed_index : ℕ → ℕ → Complaint
  rle_index : ℕ → ℕ → Complaint
  subencoding : ℕ → Complaint
  tile_carried : ℕ → ℕ → Complaint
  run_overflows : ℕ → ℕ → Complaint
  -- client.rs
  key_length : ℕ → Complaint
  no_randomness : Complaint
  apple_response : Complaint
  message_type : ℕ → Complaint
  zrle_claims : ℕ → Complaint
  does_not_fit : ℕ → ℕ → ℕ → ℕ → ℕ → ℕ → Complaint
  raw_needs : ℕ → ℕ → ℕ → ℕ → Complaint
  came_up_short : Complaint
  string_too_long : ℕ → ℕ → Complaint

pub data Error : Type 0 where
  io : Error
  not_rfb : Error
  unsupported_version : ℕ → ℕ → Error
  no_supported_security : List ℕ → Error
  password_required username_required : Error
  auth_failed : Text → Error
  refused : Text → Error
  protocol : Complaint → Error
  unsupported_encoding : ℕ → Error
  timeout closed : Error
