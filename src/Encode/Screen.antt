-- ===== src/Encode/Screen.antt =====
-- crates/bolide-testkit/src/lib.rs: `Screen`; and of encode.rs and server.rs, how it is read for a rect, and
-- which encoding the rect gets.
pub mod Rects
use bolide.Base.{
  ℕ, zero, suc, ◌+◌, ◌*◌, min, Bool, true, false, ◌||◌, Option, none, some, List, [], ◌∷◌, ◌++◌,
  Result, ok, ◌>>=◌, leb, ◌==◌, if◌then◌else◌,
}
use bolide.Base.Bytes.{be16, be32, index}
use bolide.Error.{Error}
use bolide.Proto.{enc_raw, enc_zrle}
use bolide.Proto.Format.{PixelFormat, Rgba, rgba_bytes, write_pixel, from_rgba}

pub record Screen : Type 0 where
  pub width : ℕ
  pub height : ℕ
  pub rgba : List ℕ

unfoldable pub solid_bytes : ℕ → Rgba → List ℕ
solid_bytes zero colour = []
solid_bytes (suc n) colour = rgba_bytes colour ++ solid_bytes n colour

unfoldable pub solid : ℕ → ℕ → Rgba → Screen
solid width height colour = record {
  width = width;
  height = height;
  rgba = solid_bytes (width * height) colour;
}

unfoldable pub pixel : Screen → ℕ → ℕ → Result Error (Option Rgba)
pixel screen x y = if leb screen.width x || leb screen.height y then ok none else (do
  r ← index screen.rgba ((y * screen.width + x) * 4)
  g ← index screen.rgba ((y * screen.width + x) * 4 + 1)
  b ← index screen.rgba ((y * screen.width + x) * 4 + 2)
  a ← index screen.rgba ((y * screen.width + x) * 4 + 3)
  ok (some (record { r = r; g = g; b = b; a = a })))

unfoldable pub saturating_add : ℕ → ℕ → ℕ
saturating_add a b = min (a + b) 65535

unfoldable pub or_black : Option Rgba → Rgba
or_black none = record { r = 0; g = 0; b = 0; a = 255 }
or_black (some colour) = colour

module _ (screen : Screen) (f : PixelFormat) (x y : ℕ) where
  -- The loops of `tile_pixels`, `left` columns or rows being left.
  unfoldable pub tile_row : (row left col : ℕ) → Result Error (List ℕ)
  tile_row row zero col = ok []
  tile_row row (suc left) col = do
    colour ← pixel screen (saturating_add x col) (saturating_add y row)
    rest ← tile_row row left (col + 1)
    ok (from_rgba f (or_black colour) ∷ rest)

  unfoldable pub tile_lines : (w left row : ℕ) → Result Error (List ℕ)
  tile_lines w zero row = ok []
  tile_lines w (suc left) row = do
    line ← tile_row row w 0
    rest ← tile_lines w left (row + 1)
    ok (line ++ rest)

  unfoldable pub tile_pixels : (w h : ℕ) → Result Error (List ℕ)
  tile_pixels w h = tile_lines w h 0

  -- Those of `raw_rect`.
  unfoldable pub raw_row : (row left col : ℕ) → Result Error (List ℕ)
  raw_row row zero col = ok []
  raw_row row (suc left) col = do
    colour ← pixel screen (saturating_add x col) (saturating_add y row)
    rest ← raw_row row left (col + 1)
    ok (write_pixel f (from_rgba f (or_black colour)) ++ rest)

  unfoldable pub raw_lines : (w left row : ℕ) → Result Error (List ℕ)
  raw_lines w zero row = ok []
  raw_lines w (suc left) row = do
    line ← raw_row row w 0
    rest ← raw_lines w left (row + 1)
    ok (line ++ rest)

  unfoldable pub raw_rect : (w h : ℕ) → Result Error (List ℕ)
  raw_rect w h = raw_lines w h 0

pub data Encoding : Type 0 where
  negotiated raw zrle : Encoding

unfoldable pub first_usable : List ℕ → ℕ
first_usable [] = enc_raw
first_usable (e ∷ advertised) =
    if (e == enc_zrle) || (e == enc_raw) then e else first_usable advertised

unfoldable pub choose_encoding : Encoding → List ℕ → ℕ
choose_encoding negotiated advertised = first_usable advertised
choose_encoding raw advertised = enc_raw
choose_encoding zrle advertised = enc_zrle

unfoldable pub update_header : ℕ → List ℕ
update_header rects = 0 ∷ 0 ∷ be16 rects

unfoldable pub rect_header : (x y w h encoding : ℕ) → List ℕ
rect_header x y w h encoding = be16 x ++ (be16 y ++ (be16 w ++ (be16 h ++ be32 encoding)))
