-- ===== src/Proto/Format/Block.antt =====
-- The 16-byte PIXEL_FORMAT block: `decode` reads back what `encode` writes.
use bolide.Base.{◌≡◌, arith, length}
use bolide.Base.Bytes.{IsU16}
use bolide.Proto.Format.{PixelFormat, encode, decode}

-- The ranges of the fields' machine types.
pub record IsTyped (f : PixelFormat) : Type 0 where
  pub red_max_range : IsU16 f.red_max
  pub green_max_range : IsU16 f.green_max
  pub blue_max_range : IsU16 f.blue_max

-- Every pixel format survives the trip through its 16-byte wire block.
pub decode-encode :
    (f : PixelFormat) → IsTyped f → (decode (encode f) ≡ f) × (length (encode f) ≡ 16)
unfolding encode decode
decode-encode f t = ground arith
