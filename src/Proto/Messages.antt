-- ===== src/Proto/Messages.antt =====
-- proto.rs: the client messages that the session writes.
use bolide.Base.{ℕ, ◌==◌, ltb, Bool, List, [], ◌∷◌, ◌++◌, ◌%◌, ◌^◌, length, if◌then◌else◌}
use bolide.Base.Text.{Text}
use bolide.Base.Bytes.{be16, be32}
use bolide.Proto.Format.{PixelFormat, encode, from_bool}
use bolide.Proto.ClientMsg

unfoldable pub set_pixel_format : PixelFormat → List ℕ
set_pixel_format f = ClientMsg.set_pixel_format ∷ 0 ∷ 0 ∷ 0 ∷ encode f

unfoldable pub encoding_bytes : List ℕ → List ℕ
encoding_bytes [] = []
encoding_bytes (e ∷ encodings) = be32 e ++ encoding_bytes encodings

-- An `i32` is its bit pattern, and the count is cast to a `u16`.
unfoldable pub set_encodings : List ℕ → List ℕ
set_encodings encodings =
    ClientMsg.set_encodings ∷ 0 ∷ (be16 (length encodings % 2 ^ 16) ++ encoding_bytes encodings)

unfoldable pub framebuffer_update_request : Bool → ℕ → ℕ → ℕ → ℕ → List ℕ
framebuffer_update_request incremental x y width height =
    ClientMsg.framebuffer_update_request
    ∷ from_bool incremental
    ∷ (be16 x ++ (be16 y ++ (be16 width ++ be16 height)))

unfoldable pub key_event : ℕ → Bool → List ℕ
key_event keysym down = ClientMsg.key_event ∷ from_bool down ∷ 0 ∷ 0 ∷ be32 keysym

unfoldable pub pointer_event : ℕ → ℕ → ℕ → List ℕ
pointer_event x y buttons = ClientMsg.pointer_event ∷ buttons ∷ (be16 x ++ be16 y)

unfoldable pub to_latin1 : Text → List ℕ
to_latin1 [] = []
to_latin1 (c ∷ text) =
    let rest = to_latin1 text in if c == 13 then rest else (if ltb c 0x100 then c else 63) ∷ rest

unfoldable pub from_latin1 : List ℕ → Text
from_latin1 bytes = bytes

unfoldable pub client_cut_text : Text → List ℕ
client_cut_text text =
    let latin1 = to_latin1 text in
    ClientMsg.client_cut_text ∷ 0 ∷ 0 ∷ 0 ∷ (be32 (length latin1 % 2 ^ 32) ++ latin1)
