-- ===== src/Tests/Live.antt =====
-- server.rs of the test kit: a resize, heard by a client, with a deflater that copies.
use bolide.Base.{ℕ, true, List, [], ok, ◌≡◌, arith}
use bolide.Proto.Format.{rgbx_32}
use bolide.Session.{connect}
use bolide.Encode.{ZrleTiling}
use bolide.Encode.Screen.{Screen, solid, Encoding}
use bolide.Encode.Rect.{Deflater}
use bolide.Client.ReadLoop.{Decoders, read_message}
use bolide.Client.ReadLoop.Hears.{Hears}
use bolide.FakeServer.Live.{Directive, Served, black_pixel, apply_online}
use bolide.FakeServer.Live.Heard.{told, Shown, read_message-apply_online}
use bolide.Tests.ReadLoop.{stored}

abbrev deflater : Deflater
deflater = record { Stream = Unit {0}; deflate = λ z bytes. (z, bytes) }

abbrev cfg : Served
cfg = record { encoding = Encoding.raw; zrle_tiling = ZrleTiling.auto }

abbrev before : Screen
before = solid 2 2 black_pixel

abbrev decoders : Decoders (Unit {0})
decoders = record { zrle = tt; format = rgbx_32 }

read_message-apply_online_example :
    (screen' : Screen) × (wire : List ℕ) × (apply_online deflater
        (Directive.resize 5 4)
        before
        rgbx_32
        cfg
        []
        tt
      ≡ ok (screen', (tt, wire)))
    × Hears decoders
        (read_message stored true)
        wire
        (connect 2 2)
        (told (Directive.resize 5 4) true (connect 2 2))
        tt
    × Shown
        (Directive.resize 5 4)
        before
        screen'
        (connect 2 2).fb
        (told (Directive.resize 5 4) true (connect 2 2)).fb
read_message-apply_online_example =
    read_message-apply_online deflater stored (Directive.resize 5 4) before rgbx_32 cfg [] tt
      decoders true (connect 2 2) (omega arith, omega arith)
