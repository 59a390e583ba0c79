-- ===== src/Tests/Proto.antt =====
-- Runs of the pixel format on the inputs of proto.rs's own tests.
use bolide.Base.{◌≡◌, refl, arith, true, false, [], ◌∷◌, length}
use bolide.Proto.Format.{
  PixelFormat, rgbx_32, encode, decode, read_pixel, write_pixel, to_rgba, from_rgba, cpixel_bytes,
  cpixel_offset, bytes_per_pixel,
}
use bolide.Proto.Format.Block.{decode-encode}
use bolide.Proto.Format.Pixels.{read_pixel-write_pixel}
use bolide.Proto.Format.Colours.{to_rgba-from_rgba}

abbrev rgb_565 : PixelFormat
rgb_565 = record {
  bits_per_pixel = 16;
  depth = 16;
  big_endian = false;
  true_colour = true;
  red_max = 31;
  green_max = 63;
  blue_max = 31;
  red_shift = 11;
  green_shift = 5;
  blue_shift = 0;
}

encode-rgbx :
    encode rgbx_32 ≡ 32 ∷ 24 ∷ 0 ∷ 1 ∷ 0 ∷ 255 ∷ 0 ∷ 255 ∷ 0 ∷ 255 ∷ 0 ∷ 8 ∷ 16 ∷ 0 ∷ 0 ∷ 0 ∷ []
unfolding encode
encode-rgbx = refl

white_565 :
    to_rgba rgb_565 (read_pixel rgb_565 (0xff ∷ 0xff ∷ []))
    ≡ record { r = 255; g = 255; b = 255; a = 255 }
unfolding to_rgba read_pixel bytes_per_pixel
white_565 = refl

cpixels :
    (cpixel_bytes rgbx_32 ≡ 3)
    × (cpixel_offset rgbx_32 ≡ 0)
    × (cpixel_bytes rgb_565 ≡ 2)
    × (cpixel_offset rgb_565 ≡ 0)
unfolding cpixel_bytes cpixel_offset
cpixels = (refl, refl, refl, refl)

decode-encode_example : (decode (encode rgb_565) ≡ rgb_565) × (length (encode rgb_565) ≡ 16)
decode-encode_example = decode-encode rgb_565 (omega arith)

read_pixel-write_pixel_example : read_pixel rgb_565 (write_pixel rgb_565 0xf81f) ≡ 0xf81f
unfolding bytes_per_pixel
read_pixel-write_pixel_example = read_pixel-write_pixel rgb_565 0xf81f (omega arith) (omega arith)

to_rgba-from_rgba_example :
    to_rgba rgbx_32 (from_rgba rgbx_32 (record { r = 17; g = 34; b = 51; a = 255 }))
    ≡ record { r = 17; g = 34; b = 51; a = 255 }
to_rgba-from_rgba_example =
    to_rgba-from_rgba (record { r = 17; g = 34; b = 51; a = 255 }) (omega arith) (omega arith)
      (omega arith) refl
