-- ===== src/Tests/ReadLoop.antt =====
-- client.rs and zrle.rs: messages read with an inflater that copies.
use bolide.Base.{
  ℕ, ◌*◌, ◌≤◌, true, false, some, none, List, [], ◌∷◌, ◌++◌, length, length-take, min, take,
  Returns, ◌≡◌, ap, arith, Option,
}
use bolide.Base.Text.{codes}
use bolide.Proto.Format.{rgbx_32, bytes_per_pixel}
use bolide.Framebuffer.{black, blit_raw, blit_rgba}
use bolide.Framebuffer.Raw.{wire_pixels, blit_raw-blit_rgba}
use bolide.Zrle.Inflate.{Moved, Inflater, decode_rect}
use bolide.Zrle.Inflate.Ended.{Steady, decode_rect-Returns}
use bolide.Session.{connect}
use bolide.Client.ReadLoop.{Reading, reader_loop}
use bolide.Client.ReadLoop.Sound.{black-IsSized}
use bolide.Client.ReadLoop.Ended.{Dead, reader_loop-Dead}

-- Each byte stands for itself.
abbrev copying : Unit {0} → List ℕ → ℕ → Option (Moved (Unit {0}))
copying z input room = some (record {
  state = z;
  read = min room (length input);
  produced = take room input;
  stream_end = false;
})

abbrev pub stored : Inflater
stored = record { State = Unit {0}; fresh = tt; decompress = copying; owed = λ z. 0 }

read_of : Option (Moved (Unit {0})) → ℕ
read_of none = 0
read_of (some m) = m.read

given_of : Option (Moved (Unit {0})) → ℕ
given_of none = 0
given_of (some m) = length m.produced

stored-Steady : Steady stored
unfolding read_of given_of
stored-Steady = record {
  moves = λ z input room m e.
      let count : min room (length input) ≡ m.read = ap read_of e in
      let given : length (take room input) ≡ length m.produced = ap given_of e in
      omega (arith, count, given, length-take room input);
}

-- The tile of one red pixel.
decode_rect-Returns_example :
    Returns (λ r. length r.1 ≡ 1 * 1 * 4) (decode_rect stored (1 ∷ 255 ∷ 0 ∷ 0 ∷ []) rgbx_32 1 1 tt)
decode_rect-Returns_example =
    decode_rect-Returns stored stored-Steady (1 ∷ 255 ∷ 0 ∷ 0 ∷ []) rgbx_32 1 1 tt

abbrev two_pixels : List ℕ
two_pixels = 255 ∷ 0 ∷ 0 ∷ 0 ∷ 0 ∷ 255 ∷ 0 ∷ 0 ∷ []

enough : 1 * 2 * bytes_per_pixel rgbx_32 ≤ length two_pixels
unfolding bytes_per_pixel
enough = omega arith

blit_raw-blit_rgba_example :
    blit_raw (black 3 2) 1 0 1 2 rgbx_32 two_pixels
    ≡ blit_rgba (black 3 2) 1 0 1 2 (wire_pixels rgbx_32 two_pixels (1 * 2) 0)
blit_raw-blit_rgba_example =
    blit_raw-blit_rgba (black 3 2) 1 0 1 2 rgbx_32 two_pixels (black-IsSized 3 2) enough

-- An update of one raw rect, and a bell.
abbrev messages : List ℕ
messages = 0 ∷ 0 ∷ 0 ∷ 1 ∷ 0 ∷ 1 ∷ 0 ∷ 0 ∷ 0 ∷ 1 ∷ 0 ∷ 2 ∷ 0 ∷ 0 ∷ 0 ∷ 0 ∷ (two_pixels ++ (2 ∷ []))

abbrev reading : Reading (Unit {0})
reading = record {
  conn = record { input = messages; output = [] };
  inner = connect 3 2;
  decoders = record { zrle = tt; format = rgbx_32 };
}

reader_loop-Dead_example : Dead (reader_loop stored (λ e. codes "gone") true 30 reading)
unfolding connect
reader_loop-Dead_example =
    reader_loop-Dead stored stored-Steady (λ e. codes "gone") true 30 reading (black-IsSized 3 2)
      (omega arith)
