-- ===== src/Zrle/Tile.antt =====
-- zrle.rs: `decode_tile`, one tile as `tw * th * 4` bytes of RGBA.
pub mod Packed
pub mod Runs
pub mod Total
use bolide.Base.{
  ℕ, zero, suc, ◌+◌, ◌-◌, ◌*◌, ◌/◌, ◌%◌, ◌^◌, bit_and, Bool, true, false, not, ◌&&◌, List, [], ◌∷◌,
  ◌++◌, Option, none, some, Result, ok, err, panic, stuck, leb, ltb, ◌==◌, length, get_elem?,
  if◌then◌else◌,
}
use bolide.Base.Bytes.{index}
use bolide.Error.{
  Error, protocol, packed_index, rle_index, subencoding, tile_carried, run_overflows,
}
use bolide.Proto.Format.{PixelFormat, Rgba, rgba_bytes}
use bolide.Zrle.Cursor.{Cursor, Decoder, pure, fail, hang, lift, ◌>>=◌, take_bytes, take_u8}
use bolide.Zrle.Pixels.{read_cpixel, read_palette, read_run_length}

unfoldable pub packed_bits : ℕ → ℕ
packed_bits n = if leb n 2 then 1 else if leb n 4 then 2 else 4

-- `run` copies of a colour.
abbrev pub repeat_colour : ℕ → Rgba → List ℕ
repeat_colour zero colour = []
repeat_colour (suc run) colour = rgba_bytes colour ++ repeat_colour run colour

unfoldable pub push_run : List ℕ → Rgba → ℕ → ℕ → Result Error (List ℕ)
push_run px colour run count =
    if ltb count (length px / 4 + run)
    then err (protocol (run_overflows run count))
    else ok (px ++ repeat_colour run colour)

-- Subencoding 0: `count` CPIXELs.
unfoldable pub raw_pixels : PixelFormat → ℕ → List ℕ → Decoder (List ℕ)
raw_pixels f zero px = pure px
raw_pixels f (suc count) px = do
  colour ← read_cpixel f
  raw_pixels f count (px ++ rgba_bytes colour)

-- `palette.get(idx)`, with the error of the caller's loop.
unfoldable pub palette_entry : List Rgba → ℕ → Error → Result Error Rgba
palette_entry palette idx e = elim (get_elem? palette idx) [ none ↦ err e | some entry ↦ ok entry ]

-- The index field of column `col` in the bytes of its row.
unfoldable pub packed_field : List ℕ → ℕ → ℕ → Result Error ℕ
packed_field raw bits col =
    let bit = col * bits in
    let shift = 8 - bits - bit % 8 in
    elim (index raw (bit / 8)) [
      | ok byte ↦ ok (bit_and (byte / 2 ^ shift) (2 ^ bits - 1))
      | err e ↦ err e
      | panic ↦ panic
      | stuck ↦ stuck
    ]

-- The columns of one row, `left` of them from `col` on.
unfoldable pub packed_columns : List Rgba → List ℕ → ℕ → ℕ → ℕ → List ℕ → Decoder (List ℕ)
packed_columns palette raw bits col zero px = pure px
packed_columns palette raw bits col (suc left) px = do
  idx ← lift (packed_field raw bits col)
  entry ← lift (palette_entry palette idx (protocol (packed_index idx (length palette))))
  packed_columns palette raw bits (col + 1) left (px ++ rgba_bytes entry)

-- Every row starts on a fresh byte.
unfoldable pub packed_rows : List Rgba → ℕ → ℕ → List ℕ → Decoder (List ℕ)
packed_rows palette tw zero px = pure px
packed_rows palette tw (suc rows) px = do
  let bits = packed_bits (length palette)
  raw ← take_bytes ((tw * bits + 7) / 8)
  px' ← packed_columns palette raw bits 0 tw px
  packed_rows palette tw rows px'

-- Subencoding 128. Each round adds a pixel at least, so `count` rounds fill the tile, and one more
-- finds it full.
unfoldable pub plain_rle : PixelFormat → ℕ → ℕ → List ℕ → Decoder (List ℕ)
plain_rle f zero count px = hang
plain_rle f (suc fuel) count px = elim (ltb (length px) (count * 4)) [
  | true ↦ do
    colour ← read_cpixel f
    run ← read_run_length
    px' ← lift (push_run px colour run count)
    plain_rle f fuel count px'
  | false ↦ pure px
]

-- The run of an entry byte, and its palette index.
unfoldable pub rle_entry : ℕ → Decoder (ℕ × ℕ)
rle_entry b =
    if not (bit_and b 0x80 == 0)
    then (do run ← read_run_length; pure (bit_and b 0x7f, run))
    else pure (b, 1)

-- Subencodings 130 to 255, with the same bound on the rounds.
unfoldable pub palette_rle : List Rgba → ℕ → ℕ → List ℕ → Decoder (List ℕ)
palette_rle palette zero count px = hang
palette_rle palette (suc fuel) count px = elim (ltb (length px) (count * 4)) [
  | true ↦ do
    b ← take_u8
    (idx, run) ← rle_entry b
    entry ← lift (palette_entry palette idx (protocol (rle_index idx (length palette))))
    px' ← lift (push_run px entry run count)
    palette_rle palette fuel count px'
  | false ↦ pure px
]

-- The `match` on the subencoding byte.
unfoldable pub decode_body : PixelFormat → ℕ → ℕ → ℕ → Decoder (List ℕ)
decode_body f sub tw th =
    let count = tw * th in
    if sub == 0
    then raw_pixels f count []
    else if sub == 1
    then (do colour ← read_cpixel f; pure (repeat_colour count colour))
    else if leb 2 sub && leb sub 16
    then (do palette ← read_palette f sub; packed_rows palette tw th [])
    else if sub == 128
    then plain_rle f (count + 1) count []
    else if leb 130 sub && leb sub 255
    then (do palette ← read_palette f (sub - 128); palette_rle palette (count + 1) count [])
    else fail (protocol (subencoding sub))

unfoldable pub decode_tile : PixelFormat → ℕ → ℕ → Decoder (List ℕ)
decode_tile f tw th = do
  let count = tw * th
  sub ← take_u8
  px ← decode_body f sub tw th
  if length px == count * 4 then pure px else fail (protocol (tile_carried (length px / 4) count))
