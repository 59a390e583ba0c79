-- ===== src/Tests/Zrle.antt =====
-- Tiles on the inputs of zrle.rs's own tests.
use bolide.Base.{ℕ, ◌*◌, ◌≡◌, refl, arith, List, [], ◌∷◌, Returns, length, ok, err}
use bolide.Base.Bytes.{copy_at, index, first, slice}
use bolide.Error.{protocol, run_overflows}
use bolide.Proto.Format.{rgbx_32, bytes_per_pixel, cpixel_bytes, cpixel_offset, read_pixel, to_rgba}
use bolide.Rows.{copy_rows}
use bolide.Zrle.Cursor.{Cursor, take_bytes, take_u8}
use bolide.Zrle.Outcome.{Gives}
use bolide.Zrle.Pixels.{widen, read_cpixel, read_palette, run_length_loop, read_run_length}
use bolide.Zrle.Tile.{
  packed_bits, push_run, palette_entry, packed_field, packed_columns, packed_rows, plain_rle,
  decode_body, decode_tile,
}
use bolide.Zrle.Tile.Total.{IsTile, decode_tile-IsTile}
use bolide.Zrle.Tiles.{tile_columns, tile_rows, decode_tiles}
use bolide.Zrle.Tiles.Total.{decode_tiles_total}

-- Three pixels of palette indices 0, 1, 2 in two bits each, with padding bits that are set.
abbrev padded_rows : List ℕ
padded_rows = 3 ∷ 255 ∷ 0 ∷ 0 ∷ 0 ∷ 255 ∷ 0 ∷ 0 ∷ 0 ∷ 255 ∷ 0x1b ∷ 0x93 ∷ []

a_row_restarts_on_a_byte :
    decode_tiles padded_rows rgbx_32 3 2
    ≡ ok (
        255 ∷ 0 ∷ 0 ∷ 255 ∷ 0 ∷ 255 ∷ 0 ∷ 255 ∷ 0 ∷ 0 ∷ 255 ∷ 255 ∷ 0 ∷ 0 ∷ 255 ∷ 255 ∷ 0 ∷ 255 ∷ 0
        ∷ 255 ∷ 255 ∷ 0 ∷ 0 ∷ 255 ∷ [])
unfolding decode_tiles tile_rows tile_columns copy_rows copy_at slice index first decode_tile
    decode_body packed_rows packed_columns packed_field palette_entry packed_bits read_palette
    read_cpixel widen take_bytes take_u8 cpixel_bytes cpixel_offset bytes_per_pixel read_pixel
    to_rgba
a_row_restarts_on_a_byte = refl

overflowing_run :
    decode_tiles (128 ∷ 255 ∷ 0 ∷ 0 ∷ 8 ∷ []) rgbx_32 2 2 ≡ err (protocol (run_overflows 9 4))
unfolding decode_tiles tile_rows tile_columns copy_rows first decode_tile decode_body plain_rle
    push_run read_run_length run_length_loop copy_at read_cpixel widen take_bytes take_u8
    cpixel_bytes cpixel_offset bytes_per_pixel read_pixel to_rgba
overflowing_run = refl

abbrev at_start : Cursor
at_start = record { bytes = padded_rows; pos = 0 }

decode_tile-IsTile_example : Gives (IsTile 3 2 at_start) at_start (decode_tile rgbx_32 3 2)
decode_tile-IsTile_example = decode_tile-IsTile rgbx_32 3 2 at_start (omega arith)

decode_tiles_total_example :
    Returns (λ (out : List ℕ). length out ≡ 3 * 2 * 4) (decode_tiles padded_rows rgbx_32 3 2)
decode_tiles_total_example = decode_tiles_total padded_rows rgbx_32 3 2
