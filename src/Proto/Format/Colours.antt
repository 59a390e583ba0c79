-- ===== src/Proto/Format/Colours.antt =====
-- Colours to and from a pixel value: `to_rgba`, `from_rgba` and the scaling of one channel.
use bolide.Base.{ℕ, ◌+◌, ◌*◌, ◌/◌, ◌%◌, ◌^◌, ◌≤◌, ◌<◌, bit_or, ◌≡◌, arith}
use bolide.Base.Bits.{bit_and_255, bit_and_self, zero-bit_and, bit_or-disjoint_left}
use bolide.Base.Bytes.{IsByte}
use bolide.Proto.Format.{Rgba, scale, unscale, to_rgba, from_rgba, rgbx_32}

-- A channel always lands in a byte.
pub scale-IsByte : (raw top : ℕ) → IsByte (scale raw top)
unfolding scale
scale-IsByte raw top = ground arith

-- A quotient whose remainder is in range.
quotient : (q r d : ℕ) → r < d → (q * d + r) / d ≡ q
quotient q r d h = grind arith

-- The mask keeps a channel at most `top`, and then the cast of the quotient to a byte loses nothing.
pub scale_exact : (v top : ℕ) → v ≤ top → 0 < top → (v * 255 + top / 2) / top ≤ 255
scale_exact v top h k = grind (arith, quotient 255 (top / 2) top)

full : (top : ℕ) → 0 < top → (top * 255 + top / 2) / top ≡ 255
full top h =
    let e : top * 255 + top / 2 ≡ 255 * top + top / 2 = omega arith in
    rw e (quotient 255 (top / 2) top (omega arith))

-- The two ends of a channel's range survive `unscale` and then `scale`, whatever the width.
scale-unscale_ends :
    (top : ℕ) → 0 < top → (scale (unscale 0 top) top ≡ 0) × (scale (unscale 255 top) top ≡ 255)
unfolding scale unscale
scale-unscale_ends top h = ground (
  arith,
  zero-bit_and top,
  bit_and_self top,
  bit_and_255 255,
  full top h,
  quotient 0 (top / 2) top,
)

pack :
    (r g b : ℕ)
    → IsByte r
    → IsByte g
    → IsByte b
    → bit_or (bit_or (r * 1 % 2 ^ 32) (g * 256 % 2 ^ 32)) (b * 65536 % 2 ^ 32)
      ≡ b * 65536 + (g * 256 + r)
pack r g b hr hg hb =
    let er : r * 1 % 2 ^ 32 ≡ r = omega arith in
    let eg : g * 256 % 2 ^ 32 ≡ g * 256 = omega arith in
    let eb : b * 65536 % 2 ^ 32 ≡ b * 65536 = omega arith in
    rw (er, eg, eb, bit_or-disjoint_left 8 g r hr)
      (bit_or-disjoint_left 16 b (g * 256 + r) (omega arith))

-- An opaque colour survives the trip through a pixel of the format that the client asks for.
pub to_rgba-from_rgba :
    (c : Rgba)
    → IsByte c.r
    → IsByte c.g
    → IsByte c.b
    → c.a ≡ 255
    → to_rgba rgbx_32 (from_rgba rgbx_32 c) ≡ c
unfolding to_rgba from_rgba unscale
to_rgba-from_rgba c hr hg hb ha =
    let v : ℕ = c.b * 65536 + (c.g * 256 + c.r) in
    rw (pack c.r c.g c.b hr hg hb)
      (ground (arith, bit_and_255 (v / 1), bit_and_255 (v / 256), bit_and_255 (v / 65536)))
