-- ===== src/Tests/FakeServer.antt =====
-- server.rs at concrete messages.
use bolide.Base.{[], ◌∷◌, ◌++◌, length, ◌≡◌, refl, arith, ok, ◌<◌, ◌^◌}
use bolide.Base.Text.{Text}
use bolide.Proto.Messages.{to_latin1}
use bolide.FakeServer.{cut_text, read_message}
use bolide.FakeServer.Roundtrip.{written, heard, read_message-written}

-- A carriage return is dropped, and a character past latin-1 is a question mark.
abbrev clipboard : Text
clipboard = 104 ∷ 233 ∷ 13 ∷ 10 ∷ 0x2318 ∷ []

clipboard_bytes : to_latin1 clipboard ≡ 104 ∷ 233 ∷ 10 ∷ 63 ∷ []
unfolding to_latin1
clipboard_bytes = refl

short_clipboard : length (to_latin1 clipboard) < 2 ^ 32
short_clipboard = rw clipboard_bytes (omega arith)

read_message-written_example :
    read_message (written (cut_text clipboard) ++ (4 ∷ []))
    ≡ ok (heard (cut_text clipboard), 4 ∷ [])
read_message-written_example = read_message-written (cut_text clipboard) (4 ∷ []) short_clipboard
