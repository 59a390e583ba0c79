-- ===== src/Zrle/Tiles.antt =====
-- zrle.rs: `decode_tiles`, the 64 by 64 tiles of a rect.
pub mod Total
use bolide.Base.{
  ℕ, zero, suc, ◌+◌, ◌-◌, ◌*◌, min, List, ltb, length, replicate, true, false, Result, ok, err,
  panic, stuck,
}
use bolide.Error.{Error}
use bolide.Proto.{zrle_tile}
use bolide.Proto.Format.{PixelFormat}
use bolide.Rows.{copy_rows}
use bolide.Zrle.Cursor.{Cursor, Decoder, pure, hang, lift, ◌>>=◌}
use bolide.Zrle.Tile.{decode_tile}

-- The inner `while tx < rect_w` of one row of tiles, over `out`. Each round moves `tx` on by a tile.
unfoldable pub tile_columns : PixelFormat → (rect_w ty th fuel tx : ℕ) → List ℕ → Decoder (List ℕ)
tile_columns f rect_w ty th zero tx out = hang
tile_columns f rect_w ty th (suc fuel) tx out = elim (ltb tx rect_w) [
  | true ↦ do
    let tw = min zrle_tile (rect_w - tx)
    pixels ← decode_tile f tw th
    out' ← lift (
        copy_rows (λ row. ((ty + row) * rect_w + tx) * 4) (λ row. row * tw * 4) (tw * 4) th 0 pixels
          out)
    tile_columns f rect_w ty th fuel (tx + zrle_tile) out'
  | false ↦ pure out
]

-- The outer `while ty < rect_h`.
unfoldable pub tile_rows : PixelFormat → (rect_w rect_h fuel ty : ℕ) → List ℕ → Decoder (List ℕ)
tile_rows f rect_w rect_h zero ty out = hang
tile_rows f rect_w rect_h (suc fuel) ty out = elim (ltb ty rect_h) [
  | true ↦ do
    let th = min zrle_tile (rect_h - ty)
    out' ← tile_columns f rect_w ty th (rect_w + 1) 0 out
    tile_rows f rect_w rect_h fuel (ty + zrle_tile) out'
  | false ↦ pure out
]

-- A fuel of a round for each pixel of the side, and one more, is enough.
unfoldable pub decode_tiles : List ℕ → PixelFormat → ℕ → ℕ → Result Error (List ℕ)
decode_tiles bytes f w h =
    elim (tile_rows f w h (h + 1) 0 (replicate (w * h * 4) 0) (record { bytes = bytes; pos = 0 })) [
      | ok (out, _) ↦ ok out
      | err e ↦ err e
      | panic ↦ panic
      | stuck ↦ stuck
    ]
