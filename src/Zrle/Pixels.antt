-- ===== src/Zrle/Pixels.antt =====
-- zrle.rs: CPIXELs, palettes and run lengths.
pub mod Total
use bolide.Base.{
  ℕ, zero, suc, ◌+◌, ◌-◌, ◌==◌, Bool, true, false, List, [], ◌∷◌, ◌++◌, Result, ok, err, panic,
  stuck, length, replicate, not, if◌then◌else◌,
}
use bolide.Base.Bytes.{copy_at}
use bolide.Error.{Error}
use bolide.Proto.Format.{
  PixelFormat, Rgba, bytes_per_pixel, cpixel_bytes, cpixel_offset, read_pixel, to_rgba,
}
use bolide.Zrle.Cursor.{Cursor, Decoder, pure, lift, ◌>>=◌, take_bytes, take_u8}

-- A 3-byte CPIXEL put back into a zeroed full pixel, and read.
unfoldable pub widen : PixelFormat → List ℕ → Result Error Rgba
widen f bytes = elim (copy_at (replicate (bytes_per_pixel f) 0) (cpixel_offset f) bytes) [
  | ok wire ↦ ok (to_rgba f (read_pixel f wire))
  | err e ↦ err e
  | panic ↦ panic
  | stuck ↦ stuck
]

unfoldable pub read_cpixel : PixelFormat → Decoder Rgba
read_cpixel f = do
  bytes ← take_bytes (cpixel_bytes f)
  if cpixel_bytes f == bytes_per_pixel f
      then pure (to_rgba f (read_pixel f bytes))
      else lift (widen f bytes)

-- `(0..n).map(|_| read_cpixel(cur, fmt)).collect()`
unfoldable pub read_palette : PixelFormat → ℕ → Decoder (List Rgba)
read_palette f zero = pure []
read_palette f (suc n) = do colour ← read_cpixel f; rest ← read_palette f n; pure (colour ∷ rest)

-- The loop of `read_run_length`, from the sum so far. A round takes a byte, so the bytes that are
-- left bound the rounds; the last round finds none.
unfoldable pub run_length_loop : ℕ → ℕ → Decoder ℕ
run_length_loop zero len c = stuck
run_length_loop (suc fuel) len c =
    (do
      b ← take_u8
      let len' = len + b
      elim (not (b == 0xff)) [ true ↦ pure len' | false ↦ run_length_loop fuel len' ])
      c

unfoldable pub read_run_length : Decoder ℕ
read_run_length c = run_length_loop (length c.bytes - c.pos + 1) 1 c
