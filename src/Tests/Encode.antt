-- ===== src/Tests/Encode.antt =====
-- encode.rs on a tile of three colours.
use bolide.Base.{
  some, get_elem?, length, ◌+◌, ◌*◌, ℕ, ◌<◌, ◌^◌, ◌≡◌, refl, arith, List, [], ◌∷◌, ◌++◌, All, ok,
  inl, inr,
}
use bolide.Proto.Format.{
  rgbx_32, bytes_per_pixel, cpixel_bytes, cpixel_drops_high_byte, cpixel_offset, write_pixel,
}
use bolide.Zrle.Tile.{decode_tile}
use bolide.Encode
use bolide.Encode.{
  encode_tile, encode_as, choose, palette_of, palette_loop, runs_of, runs_from, index_bits, is_some,
  expect, pack_chunks, pack_rows, pack_row, write_cpixel, write_cpixels,
}
use bolide.Encode.Screen.{Screen, tile_pixels, raw_rect}
use bolide.Encode.Screen.Rects.{written, ValueAt, tile_pixels-raw_rect}
use bolide.Encode.Stream.{Decodes}
use bolide.Encode.Pixels.{Packs, paints}
use bolide.Encode.Tile.{decode_tile-encode_tile}

abbrev flag : List ℕ
flag = 0xff ∷ 0xff00 ∷ 0xff0000 ∷ 0xff0000 ∷ 0xff ∷ 0xff ∷ []

packs : (p : ℕ) → p < 2 ^ 24 → Packs rgbx_32 p
unfolding bytes_per_pixel cpixel_bytes cpixel_drops_high_byte
packs p h = (omega arith, omega arith, inr (omega arith, inl (refl, h)))

all_pack : All (Packs rgbx_32) flag
all_pack = (
  packs 0xff (omega arith),
  (
    packs 0xff00 (omega arith),
    (
      packs 0xff0000 (omega arith),
      (packs 0xff0000 (omega arith), (packs 0xff (omega arith), (packs 0xff (omega arith), tt))),
    ),
  ),
)

flag_bytes :
    encode_tile flag 3 Encode.packed_palette rgbx_32
    ≡ ok (3 ∷ 0xff ∷ 0 ∷ 0 ∷ 0 ∷ 0xff ∷ 0 ∷ 0 ∷ 0 ∷ 0xff ∷ 0x18 ∷ 0x80 ∷ [])
unfolding encode_tile encode_as choose palette_of palette_loop runs_of runs_from index_bits is_some
    expect pack_chunks pack_rows pack_row write_cpixel write_cpixels bytes_per_pixel cpixel_bytes
    cpixel_offset write_pixel
flag_bytes = refl

decode_tile-encode_tile_example :
    (bytes : List ℕ) × (encode_tile flag 3 Encode.packed_palette rgbx_32 ≡ ok bytes)
    × ((t : List ℕ) → Decodes (decode_tile rgbx_32 3 2) (bytes ++ t) (paints rgbx_32 flag) t)
decode_tile-encode_tile_example =
    decode_tile-encode_tile flag 3 2 Encode.packed_palette rgbx_32 (omega arith) (omega arith) refl
      all_pack

abbrev grey : Screen
grey = record { width = 2; height = 1; rgba = 7 ∷ 7 ∷ 7 ∷ 255 ∷ 9 ∷ 9 ∷ 9 ∷ 255 ∷ [] }

-- A rect that runs off the screen.
tile_pixels-raw_rect_example :
    (px : List ℕ) × (tile_pixels grey rgbx_32 1 0 3 2 ≡ ok px)
    × (raw_rect grey rgbx_32 1 0 3 2 ≡ ok (written rgbx_32 px))
    × (length px ≡ 3 * 2)
    × ((row col : ℕ)
        → row < 2
        → col < 3
        → (v : ℕ) × (get_elem? px (row * 3 + col) ≡ some v)
          × ValueAt grey rgbx_32 1 0 refl col row v)
tile_pixels-raw_rect_example = tile_pixels-raw_rect grey rgbx_32 1 0 refl 3 2
