-- ===== src/Proto/Format.antt =====
-- `PixelFormat` of proto.rs: the 16-byte block, CPIXEL geometry, and pixels to and from the wire.
pub mod Block
pub mod Pixels
pub mod Colours
use mathlib.Core.List.{reverse, foldl}
use bolide.Base.{
  ℕ, zero, suc, ◌+◌, ◌-◌, ◌*◌, ◌/◌, ◌%◌, ◌^◌, ◌<◌, min, max, bit_and, bit_or, Bool, true, false,
  not, ◌&&◌, ◌||◌, List, [], ◌∷◌, ◌++◌, leb, ◌==◌, if◌then◌else◌, length, take, get_elem?, Option,
  none, some,
}
use bolide.Base.Bytes.{be16, from_be16}

pub record PixelFormat : Type 0 where
  pub bits_per_pixel : ℕ
  pub depth : ℕ
  pub big_endian : Bool
  pub true_colour : Bool
  pub red_max : ℕ
  pub green_max : ℕ
  pub blue_max : ℕ
  pub red_shift : ℕ
  pub green_shift : ℕ
  pub blue_shift : ℕ

-- One `[u8; 4]` colour.
pub record Rgba : Type 0 where
  pub r : ℕ
  pub g : ℕ
  pub b : ℕ
  pub a : ℕ

abbrev pub rgba_bytes : Rgba → List ℕ
rgba_bytes c = c.r ∷ c.g ∷ c.b ∷ c.a ∷ []

abbrev pub rgbx_32 : PixelFormat
rgbx_32 = record {
  bits_per_pixel = 32;
  depth = 24;
  big_endian = false;
  true_colour = true;
  red_max = 255;
  green_max = 255;
  blue_max = 255;
  red_shift = 0;
  green_shift = 8;
  blue_shift = 16;
}

unfoldable pub bytes_per_pixel : PixelFormat → ℕ
bytes_per_pixel f = (f.bits_per_pixel + 7) / 8

abbrev pub max_shift : PixelFormat → ℕ
max_shift f = max (max f.red_shift f.green_shift) f.blue_shift

abbrev pub min_shift : PixelFormat → ℕ
min_shift f = min (min f.red_shift f.green_shift) f.blue_shift

unfoldable pub cpixel_bytes : PixelFormat → ℕ
unfolding bytes_per_pixel
cpixel_bytes f =
    if f.bits_per_pixel == 32 && leb f.depth 24 && f.true_colour
    then (if leb (max_shift f) 23 || leb 8 (min_shift f) then 3 else bytes_per_pixel f)
    else bytes_per_pixel f

unfoldable pub cpixel_drops_high_byte : PixelFormat → Bool
cpixel_drops_high_byte f = leb (max_shift f) 23

-- The `match` on (big_endian, cpixel_drops_high_byte).
offset_of : Bool → Bool → ℕ
offset_of false true = 0
offset_of false false = 1
offset_of true true = 1
offset_of true false = 0

unfoldable pub cpixel_offset : PixelFormat → ℕ
unfolding offset_of cpixel_drops_high_byte
cpixel_offset f =
    if cpixel_bytes f == bytes_per_pixel f
    then 0
    else offset_of f.big_endian (cpixel_drops_high_byte f)

abbrev pub from_bool : Bool → ℕ
from_bool b = if b then 1 else 0

unfoldable pub encode : PixelFormat → List ℕ
encode f =
    f.bits_per_pixel
    ∷ f.depth
    ∷ from_bool f.big_endian
    ∷ from_bool f.true_colour
    ∷ (be16 f.red_max
        ++ (be16 f.green_max
            ++ (be16 f.blue_max ++ f.red_shift ∷ f.green_shift ∷ f.blue_shift ∷ 0 ∷ 0 ∷ 0 ∷ [])))

-- `b[i]` of a `[u8; 16]`: every index below is in range.
abbrev at : List ℕ → ℕ → ℕ
at b i = elim (get_elem? b i) [ none ↦ 0 | some v ↦ v ]

unfoldable pub decode : List ℕ → PixelFormat
decode b = record {
  bits_per_pixel = at b 0;
  depth = at b 1;
  big_endian = not (at b 2 == 0);
  true_colour = not (at b 3 == 0);
  red_max = from_be16 (at b 4) (at b 5);
  green_max = from_be16 (at b 6) (at b 7);
  blue_max = from_be16 (at b 8) (at b 9);
  red_shift = at b 10;
  green_shift = at b 11;
  blue_shift = at b 12;
}

-- `(v << 8) | byte` on a `u32`.
unfoldable pub shift_in : ℕ → ℕ → ℕ
shift_in v byte = bit_or (v * 256 % 2 ^ 32) byte

unfoldable pub read_pixel : PixelFormat → List ℕ → ℕ
unfolding shift_in
read_pixel f wire =
    let n = min (min (bytes_per_pixel f) 4) (length wire) in
    if f.big_endian
    then foldl shift_in 0 (take n wire)
    else foldl shift_in 0 (reverse (take n wire))

abbrev pub shr32 : ℕ → ℕ → ℕ
shr32 v s = v / 2 ^ (s % 32)

abbrev pub shl32 : ℕ → ℕ → ℕ
shl32 v s = v * 2 ^ (s % 32) % 2 ^ 32

unfoldable pub scale : ℕ → ℕ → ℕ
scale raw top =
    if top == 0
    then 0
    else (let v = bit_and raw top in
        if top == 255 then v % 256 else (v * 255 + top / 2) / top % 256)

unfoldable pub unscale : ℕ → ℕ → ℕ
unscale v top =
    if top == 0 then 0 else if top == 255 then v else bit_and ((v * top + 127) / 255) top

unfoldable pub to_rgba : PixelFormat → ℕ → Rgba
unfolding scale
to_rgba f pixel = record {
  r = scale (shr32 pixel f.red_shift) f.red_max;
  g = scale (shr32 pixel f.green_shift) f.green_max;
  b = scale (shr32 pixel f.blue_shift) f.blue_max;
  a = 255;
}

unfoldable pub from_rgba : PixelFormat → Rgba → ℕ
unfolding unscale
from_rgba f c =
    bit_or
      (bit_or (shl32 (unscale c.r f.red_max) f.red_shift)
        (shl32 (unscale c.g f.green_max) f.green_shift))
      (shl32 (unscale c.b f.blue_max) f.blue_shift)

-- `(pixel >> (8 * i)) as u8`
abbrev pub byte_of : ℕ → ℕ → ℕ
byte_of pixel i = pixel / 2 ^ (8 * i) % 256

-- The bytes n - 1 down to 0, and the bytes i up to i + n - 1.
unfoldable pub bytes_down : ℕ → ℕ → List ℕ
bytes_down zero pixel = []
bytes_down (suc n) pixel = byte_of pixel n ∷ bytes_down n pixel

unfoldable pub bytes_up : ℕ → ℕ → ℕ → List ℕ
bytes_up zero i pixel = []
bytes_up (suc n) i pixel = byte_of pixel i ∷ bytes_up n (i + 1) pixel

-- What `write_pixel` pushes onto its output.
unfoldable pub write_pixel : PixelFormat → ℕ → List ℕ
unfolding bytes_down bytes_up
write_pixel f pixel =
    let n = min (bytes_per_pixel f) 4 in
    if f.big_endian then bytes_down n pixel else bytes_up n 0 pixel
