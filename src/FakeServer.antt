-- ===== src/FakeServer.antt =====
-- crates/bolide-testkit/src/server.rs and lib.rs: how the fake server reads what a client writes. A
-- list is all that the client will write.
pub mod Roundtrip
pub mod Handshake
pub mod Live
use bolide.Base.{
  ℕ, zero, suc, ◌*◌, ◌==◌, leb, not, Bool, List, [], ◌∷◌, length, take, drop, if◌then◌else◌, Result,
  ok, err, panic, ◌>>=◌,
}
use bolide.Base.Text.{Text}
use bolide.Base.Bytes.{from_be16, from_be32}
use bolide.Proto.ClientMsg
use bolide.Proto.Format.{PixelFormat, decode}
use bolide.Proto.Messages.{from_latin1}

pub data ClientEvent : Type 0 where
  set_pixel_format : PixelFormat → ClientEvent
  set_encodings : List ℕ → ClientEvent
  -- incremental, x, y, width and height
  update_request : Bool → ℕ → ℕ → ℕ → ℕ → ClientEvent
  -- x, y and buttons
  pointer : ℕ → ℕ → ℕ → ClientEvent
  -- keysym, and whether it went down
  key : ℕ → Bool → ClientEvent
  cut_text : Text → ClientEvent

pub data ReadError : Type 0 where
  unexpected_eof : ReadError
  message_type : ℕ → ReadError

-- `read_exact` of `n` bytes: they are given with what is left to read.
unfoldable pub read_exact : ℕ → List ℕ → Result ReadError (List ℕ × List ℕ)
read_exact n input =
    if leb n (length input) then ok (take n input, drop n input) else err unexpected_eof

-- `chunks_exact(4)` of the body, each a big-endian word.
unfoldable pub words : List ℕ → List ℕ
words (a ∷ b ∷ c ∷ d ∷ rest) = from_be32 a b c d ∷ words rest
words short = []

-- The fields of each message, from the bytes of its fixed part.
unfoldable pub request_fields : List ℕ → Result ReadError ClientEvent
request_fields (i ∷ x ∷ x' ∷ y ∷ y' ∷ w ∷ w' ∷ h ∷ h' ∷ []) = ok (
    update_request (not (i == 0)) (from_be16 x x') (from_be16 y y') (from_be16 w w')
      (from_be16 h h'))
request_fields other = panic

unfoldable pub key_fields : List ℕ → Result ReadError ClientEvent
key_fields (down ∷ _ ∷ _ ∷ a ∷ b ∷ c ∷ d ∷ []) = ok (key (from_be32 a b c d) (not (down == 0)))
key_fields other = panic

unfoldable pub pointer_fields : List ℕ → Result ReadError ClientEvent
pointer_fields (buttons ∷ x ∷ x' ∷ y ∷ y' ∷ []) =
    ok (pointer (from_be16 x x') (from_be16 y y') buttons)
pointer_fields other = panic

unfoldable pub encodings_count : List ℕ → Result ReadError ℕ
encodings_count (_ ∷ a ∷ b ∷ []) = ok (from_be16 a b)
encodings_count other = panic

unfoldable pub cut_text_length : List ℕ → Result ReadError ℕ
cut_text_length (_ ∷ _ ∷ _ ∷ a ∷ b ∷ c ∷ d ∷ []) = ok (from_be32 a b c d)
cut_text_length other = panic

-- The `match` on the message type.
unfoldable pub read_body : ℕ → List ℕ → Result ReadError (ClientEvent × List ℕ)
read_body kind input =
    if kind == ClientMsg.set_pixel_format
    then (do (rest, left) ← read_exact 19 input; ok (set_pixel_format (decode (drop 3 rest)), left))
    else if kind == ClientMsg.set_encodings
    then (do
      (head, input') ← read_exact 3 input
      count ← encodings_count head
      (body, left) ← read_exact (count * 4) input'
      ok (set_encodings (words body), left))
    else if kind == ClientMsg.framebuffer_update_request
    then (do (rest, left) ← read_exact 9 input; event ← request_fields rest; ok (event, left))
    else if kind == ClientMsg.key_event
    then (do (rest, left) ← read_exact 7 input; event ← key_fields rest; ok (event, left))
    else if kind == ClientMsg.pointer_event
    then (do (rest, left) ← read_exact 5 input; event ← pointer_fields rest; ok (event, left))
    else if kind == ClientMsg.client_cut_text
    then (do
      (head, input') ← read_exact 7 input
      len ← cut_text_length head
      (body, left) ← read_exact len input'
      ok (cut_text (from_latin1 body), left))
    else err (message_type kind)

unfoldable pub read_message : List ℕ → Result ReadError (ClientEvent × List ℕ)
read_message [] = err unexpected_eof
read_message (kind ∷ input) = read_body kind input
