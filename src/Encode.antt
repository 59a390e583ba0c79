-- ===== src/Encode.antt =====
-- crates/bolide-testkit/src/encode.rs: the server half of the encodings, and `Screen` of lib.rs. The
-- deflater that the tiles go through is flate2's and is left out.
pub mod Rect
pub mod Stream
pub mod Pixels
pub mod Runs
pub mod Palette
pub mod Packed
pub mod Forms
pub mod Tile
pub mod Screen
use bolide.Base.{
  ℕ, zero, suc, ◌+◌, ◌-◌, ◌*◌, ◌%◌, ◌^◌, min, bit_or, Bool, true, false, ◌&&◌, ◌||◌, List, [], ◌∷◌,
  ◌++◌, Option, none, some, Result, ok, err, panic, stuck, ◌>>=◌, leb, ltb, ◌==◌, length, take,
  drop, contains, position, if◌then◌else◌,
}
use bolide.Base.Bytes.{be16, index}
use bolide.Error.{Error}
use bolide.Proto.{zrle_tile}
use bolide.Proto.Format.{PixelFormat, Rgba, write_pixel, from_rgba, cpixel_bytes, cpixel_offset}

pub data ZrleTiling : Type 0 where
  auto raw solid packed_palette plain_rle palette_rle : ZrleTiling

unfoldable pub copy_rect : ℕ → ℕ → List ℕ
copy_rect src_x src_y = be16 src_x ++ be16 src_y

-- What is pushed: `wire[off..off + n]`.
unfoldable pub write_cpixel : PixelFormat → ℕ → List ℕ
write_cpixel f pixel =
    let wire = write_pixel f pixel in
    let off = cpixel_offset f in take (min (cpixel_bytes f) (length wire - off)) (drop off wire)

unfoldable pub write_cpixels : PixelFormat → List ℕ → List ℕ
write_cpixels f [] = []
write_cpixels f (p ∷ px) = write_cpixel f p ++ write_cpixels f px

-- The loop, over the palette so far.
unfoldable pub palette_loop : List ℕ → List ℕ → List ℕ
palette_loop palette [] = palette
palette_loop palette (p ∷ px) = elim (contains palette p) [
  | true ↦ palette_loop palette px
  | false ↦ elim (ltb 128 (length palette + 1)) [
    | true ↦ palette ++ p ∷ []
    | false ↦ palette_loop (palette ++ p ∷ []) px
  ]
]

unfoldable pub palette_of : List ℕ → List ℕ
palette_of px = palette_loop [] px

-- The loop, with the last run of `out` set aside.
unfoldable pub runs_from : ℕ → ℕ → List ℕ → List (ℕ × ℕ)
runs_from v n [] = (v, n) ∷ []
runs_from v n (p ∷ px) = elim (v == p) [
  | true ↦ runs_from v (n + 1) px
  | false ↦ (v, n) ∷ runs_from p 1 px
]

unfoldable pub runs_of : List ℕ → List (ℕ × ℕ)
runs_of [] = []
runs_of (p ∷ px) = runs_from p 1 px

unfoldable pub index_bits : ℕ → Option ℕ
index_bits n =
    if n == 2
    then some 1
    else if leb 3 n && leb n 4
    then some 2
    else if leb 5 n && leb n 16
    then some 4
    else none

unfoldable pub is_some : Option ℕ → Bool
is_some none = false
is_some (some n) = true

-- The loop on `n`; a round takes 255 from it.
unfoldable pub run_length_rest : ℕ → ℕ → Result Error (List ℕ)
run_length_rest zero n = stuck
run_length_rest (suc fuel) n = elim (leb 255 n) [
  | true ↦ do rest ← run_length_rest fuel (n - 255); ok (255 ∷ rest)
  | false ↦ ok (n % 256 ∷ [])
]

-- A run is never empty, so that the source's `len - 1` does not wrap.
unfoldable pub write_run_length : ℕ → Result Error (List ℕ)
write_run_length len = run_length_rest len (len - 1)

unfoldable pub auto_tiling : (palette runs pixels : ℕ) → ZrleTiling
auto_tiling palette runs pixels =
    if palette == 1
    then solid
    else if is_some (index_bits palette)
    then packed_palette
    else if leb palette 127
    then palette_rle
    else if ltb (runs * 2) pixels
    then plain_rle
    else raw

-- The first `match` of `encode_tile`: a form that the tile cannot express falls back.
unfoldable pub choose : ZrleTiling → (palette runs pixels : ℕ) → ZrleTiling
choose raw palette runs pixels = raw
choose solid palette runs pixels = if palette == 1 then solid else auto_tiling palette runs pixels
choose packed_palette palette runs pixels =
    if is_some (index_bits palette) then packed_palette else auto_tiling palette runs pixels
choose plain_rle palette runs pixels = plain_rle
choose palette_rle palette runs pixels =
    if leb 2 palette && leb palette 127 then palette_rle else auto_tiling palette runs pixels
choose auto palette runs pixels = auto_tiling palette runs pixels

-- `expect`.
unfoldable pub expect : Option ℕ → Result Error ℕ
expect (some n) = ok n
expect none = panic

-- One row of packed indices, over the bits of the byte begun; the `u8` loses what is shifted out.
unfoldable pub pack_row : List ℕ → (bits acc used : ℕ) → List ℕ → Result Error (List ℕ)
pack_row palette bits acc used [] = ok (if ltb 0 used then acc * 2 ^ (8 - used) % 256 ∷ [] else [])
pack_row palette bits acc used (p ∷ row) = do
  idx ← expect (position palette p)
  let acc' = bit_or (acc * 2 ^ bits % 256) (idx % 256)
  elim (used + bits == 8) [
    | true ↦ do rest ← pack_row palette bits 0 0 row; ok (acc' ∷ rest)
    | false ↦ pack_row palette bits acc' (used + bits) row
  ]

-- `px.chunks(w)`, which panics on 0. A chunk takes a pixel at least, so as many rounds as there are
-- pixels are enough.
unfoldable pub pack_rows : List ℕ → (bits w fuel : ℕ) → List ℕ → Result Error (List ℕ)
pack_rows palette bits w fuel [] = ok []
pack_rows palette bits w zero (p ∷ px) = stuck
pack_rows palette bits w (suc fuel) (p ∷ px) = do
  row ← pack_row palette bits 0 0 (take w (p ∷ px))
  rest ← pack_rows palette bits w fuel (drop w (p ∷ px))
  ok (row ++ rest)

unfoldable pub pack_chunks : List ℕ → (bits w : ℕ) → List ℕ → Result Error (List ℕ)
pack_chunks palette bits w px = if w == 0 then panic else pack_rows palette bits w (length px) px

unfoldable pub write_runs : PixelFormat → List (ℕ × ℕ) → Result Error (List ℕ)
write_runs f [] = ok []
write_runs f ((value, len) ∷ runs) = do
  run ← write_run_length len
  rest ← write_runs f runs
  ok (write_cpixel f value ++ (run ++ rest))

-- One run of palette indices.
unfoldable pub write_entry : ℕ → ℕ → Result Error (List ℕ)
write_entry idx len =
    if len == 1
    then ok (idx % 256 ∷ [])
    else (do run ← write_run_length len; ok (bit_or (idx % 256) 0x80 ∷ run))

unfoldable pub write_entries : List ℕ → List (ℕ × ℕ) → Result Error (List ℕ)
write_entries palette [] = ok []
write_entries palette ((value, len) ∷ runs) = do
  idx ← expect (position palette value)
  entry ← write_entry idx len
  rest ← write_entries palette runs
  ok (entry ++ rest)

-- The second `match`: what the chosen form pushes for a tile `w` wide.
unfoldable pub encode_as : ZrleTiling → PixelFormat → List ℕ → ℕ → Result Error (List ℕ)
encode_as auto f px w = ok (0 ∷ write_cpixels f px)
encode_as raw f px w = ok (0 ∷ write_cpixels f px)
encode_as solid f px w = do colour ← index (palette_of px) 0; ok (1 ∷ write_cpixel f colour)
encode_as packed_palette f px w = do
  let palette = palette_of px
  bits ← expect (index_bits (length palette))
  rows ← pack_chunks palette bits w px
  ok (length palette % 256 ∷ (write_cpixels f palette ++ rows))
encode_as plain_rle f px w = do runs ← write_runs f (runs_of px); ok (128 ∷ runs)
encode_as palette_rle f px w = do
  let palette = palette_of px
  entries ← write_entries palette (runs_of px)
  ok ((128 + length palette % 256) % 256 ∷ (write_cpixels f palette ++ entries))

unfoldable pub encode_tile : List ℕ → ℕ → ZrleTiling → PixelFormat → Result Error (List ℕ)
encode_tile px w tiling f =
    encode_as (choose tiling (length (palette_of px)) (length (runs_of px)) (length px)) f px w
