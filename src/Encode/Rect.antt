-- ===== src/Encode/Rect.antt =====
-- crates/bolide-testkit/src/encode.rs: ZrleWriter, the tiles of a rect and its payload. The pass through
-- flate2's deflater, which keeps its state between rects, is a parameter.
use bolide.Base.{
  ℕ, zero, suc, ◌+◌, ◌-◌, ◌%◌, ◌^◌, min, ltb, true, false, List, [], ◌++◌, length, Result, ok,
  stuck, ◌>>=◌,
}
use bolide.Base.Bytes.{be32}
use bolide.Error.{Error}
use bolide.Proto.{zrle_tile}
use bolide.Proto.Format.{PixelFormat}
use bolide.Encode.{ZrleTiling, encode_tile}
use bolide.Encode.Screen.{Screen, tile_pixels}

module _ (tiling : ZrleTiling) (screen : Screen) (f : PixelFormat) where
  -- The inner `while tx < x1`, and the outer `while ty < y1`. A round goes on by a pixel at least.
  unfoldable pub tiles_across : (x1 ty th fuel tx : ℕ) → Result Error (List ℕ)
  tiles_across x1 ty th zero tx = stuck
  tiles_across x1 ty th (suc fuel) tx = elim (ltb tx x1) [
    | true ↦ (do
      let tw = min zrle_tile (x1 - tx)
      px ← tile_pixels screen f (tx % 2 ^ 16) (ty % 2 ^ 16) tw th
      tile ← encode_tile px tw tiling f
      rest ← tiles_across x1 ty th fuel (tx + tw)
      ok (tile ++ rest))
    | false ↦ ok []
  ]

  unfoldable pub tiles_down : (x0 x1 y1 fuel ty : ℕ) → Result Error (List ℕ)
  unfolding tiles_across
  tiles_down x0 x1 y1 zero ty = stuck
  tiles_down x0 x1 y1 (suc fuel) ty = elim (ltb ty y1) [
    | true ↦ (do
      let th = min zrle_tile (y1 - ty)
      line ← tiles_across x1 ty th (x1 - x0 + 1) x0
      rest ← tiles_down x0 x1 y1 fuel (ty + th)
      ok (line ++ rest))
    | false ↦ ok []
  ]

  unfoldable pub tiles : (x y w h : ℕ) → Result Error (List ℕ)
  unfolding tiles_down
  tiles x y w h = tiles_down x (x + w) (y + h) (h + 1) y

-- What `deflate` gives for the bytes of a rect, and the stream behind it.
pub record Deflater : Type 1 where
  pub Stream : Type 0
  pub deflate : Stream → List ℕ → Stream × List ℕ

module _ (deflater : Deflater) where
  open deflater use {Stream, deflate}

  unfoldable pub rect :
      ZrleTiling → Screen → PixelFormat → (x y w h : ℕ) → Stream → Result Error (Stream × List ℕ)
  rect tiling screen f x y w h z = do
    plain ← tiles tiling screen f x y w h
    let (z', compressed) = deflate z plain
    ok (z', be32 (length compressed % 2 ^ 32) ++ compressed)
