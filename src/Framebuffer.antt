-- ===== src/Framebuffer.antt =====
-- The framebuffer of crates/bolide-rfb/src/lib.rs, and the rectangles that client.rs paints into it:
-- check_bounds, blit_raw, blit_rgba and copy_rect. A `usize` product of two `u16`s and 4 does not wrap.
pub mod Geometry
pub mod Blit
pub mod Copy
pub mod Raw
use bolide.Base.{
  ℕ, zero, suc, ◌+◌, ◌*◌, Bool, true, false, ◌||◌, List, [], ◌∷◌, ◌++◌, Option, none, some, Result,
  ok, err, panic, ◌>>=◌, ◌>>◌, ensure, leb, ltb, length, replicate, if◌then◌else◌, not,
}
use bolide.Base.Bytes.{copy_at, slice, index}
use bolide.Error.{Error, protocol, does_not_fit, raw_needs, came_up_short}
use bolide.Proto.Format.{PixelFormat, Rgba, rgba_bytes, bytes_per_pixel, read_pixel, to_rgba}
use bolide.Rows.{copy_rows}

pub record Framebuffer : Type 0 where
  pub width : ℕ
  pub height : ℕ
  pub rgba : List ℕ

-- The loop over `chunks_exact_mut(4)`: a chunk of fewer than four bytes is left alone.
unfoldable pub set_alpha : List ℕ → List ℕ
set_alpha (r ∷ g ∷ b ∷ a ∷ rest) = r ∷ g ∷ b ∷ 255 ∷ set_alpha rest
set_alpha rest = rest

unfoldable pub black : ℕ → ℕ → Framebuffer
unfolding set_alpha
black width height = record {
  width = width;
  height = height;
  rgba = set_alpha (replicate (width * height * 4) 0);
}

unfoldable pub pixel : Framebuffer → ℕ → ℕ → Result Error (Option Rgba)
pixel fb x y =
    if leb fb.width x || leb fb.height y
    then ok none
    else (let i = (y * fb.width + x) * 4 in
        do
          r ← index fb.rgba i
          g ← index fb.rgba (i + 1)
          b ← index fb.rgba (i + 2)
          a ← index fb.rgba (i + 3)
          ok (some (record { r = r; g = g; b = b; a = a })))

unfoldable pub check_bounds : Framebuffer → ℕ → ℕ → ℕ → ℕ → Result Error (Unit {0})
check_bounds fb x y w h =
    if ltb fb.width (x + w) || ltb fb.height (y + h)
    then err (protocol (does_not_fit w h x y fb.width fb.height))
    else ok tt

-- One row of `blit_raw`: `left` columns from `col` on.
unfoldable pub raw_columns :
    PixelFormat → List ℕ → (src dst : ℕ → ℕ) → ℕ → ℕ → List ℕ → Result Error (List ℕ)
raw_columns f from src dst zero col into = ok into
raw_columns f from src dst (suc left) col into = do
  wire ← slice from (src col) (bytes_per_pixel f)
  into' ← copy_at into (dst col) (rgba_bytes (to_rgba f (read_pixel f wire)))
  raw_columns f from src dst left (col + 1) into'

unfoldable pub raw_rows :
    PixelFormat → List ℕ → (src dst : ℕ → ℕ → ℕ) → ℕ → ℕ → ℕ → List ℕ → Result Error (List ℕ)
raw_rows f from src dst w zero row into = ok into
raw_rows f from src dst w (suc left) row into = do
  into' ← raw_columns f from (src row) (dst row) w 0 into
  raw_rows f from src dst w left (row + 1) into'

unfoldable pub blit_raw :
    Framebuffer → ℕ → ℕ → ℕ → ℕ → PixelFormat → List ℕ → Result Error Framebuffer
blit_raw fb x y w h f bytes = do
  check_bounds fb x y w h
  let bpp = bytes_per_pixel f
  ensure (leb (w * h * bpp) (length bytes)) (protocol (raw_needs w h (w * h * bpp) (length bytes)))
  let stride = fb.width * 4
  out ←
      raw_rows f bytes (λ row col. (row * w + col) * bpp)
        (λ row col. (y + row) * stride + (x + col) * 4) w h 0 fb.rgba
  ok (record fb { rgba = out })

unfoldable pub blit_rgba : Framebuffer → ℕ → ℕ → ℕ → ℕ → List ℕ → Result Error Framebuffer
blit_rgba fb x y w h bytes = do
  check_bounds fb x y w h
  ensure (leb (w * h * 4) (length bytes)) (protocol came_up_short)
  let stride = fb.width * 4
  out ← copy_rows (λ row. (y + row) * stride + x * 4) (λ row. row * w * 4) (w * 4) h 0 bytes fb.rgba
  ok (record fb { rgba = out })

-- The source is copied out whole into `scratch` before anything is written back.
unfoldable pub copy_rect : Framebuffer → ℕ → ℕ → ℕ → ℕ → ℕ → ℕ → Result Error Framebuffer
copy_rect fb x y w h src_x src_y = do
  check_bounds fb x y w h
  check_bounds fb src_x src_y w h
  let stride = fb.width * 4
  scratch ←
      copy_rows (λ row. row * w * 4) (λ row. (src_y + row) * stride + src_x * 4) (w * 4) h 0 fb.rgba
        (replicate (w * h * 4) 0)
  out ←
      copy_rows (λ row. (y + row) * stride + x * 4) (λ row. row * w * 4) (w * 4) h 0 scratch fb.rgba
  ok (record fb { rgba = out })
