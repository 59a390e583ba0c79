-- ===== src/Zrle/Tile/Total.antt =====
-- `decode_tile` on any bytes: a tile of the right size, or an error. It neither panics nor hangs.
use bolide.Base.{ℕ, ◌+◌, ◌-◌, ◌*◌, ◌≡◌, ◌==◌, ◌&&◌, leb, ==_iff, arith, List, [], All, length}
use bolide.Base.Bytes.{IsByte}
use bolide.Proto.Format.{PixelFormat, Rgba}
use bolide.Zrle.Cursor.{Cursor, Decoder, pure, ◌>>=◌, take_u8}
use bolide.Zrle.Outcome.{
  Gives, Gives-bind, Gives-weaken, Gives-if, After, After-trans, TookOne, TookOne-After,
  take_u8-TookOne,
}
use bolide.Zrle.Pixels.{read_cpixel, read_palette}
use bolide.Zrle.Pixels.Total.{IsColour, Reads, read_cpixel-Reads, read_palette-Reads}
use bolide.Zrle.Tile.{repeat_colour, decode_body, decode_tile}
use bolide.Zrle.Tile.Packed.{
  repeat_colour-IsByte, Within, After-Within, packed_rows-Reads, raw_pixels-Reads,
}
use bolide.Zrle.Tile.Runs.{Enough, plain_rle-Reads, palette_rle-Reads}

full_fuel : (count : ℕ) → Enough (count + 1) count []
full_fuel count = record { some_left = omega arith; enough = omega arith }

solid-Reads :
    (f : PixelFormat) (count : ℕ) (c : Cursor)
    → Gives
        (Reads (All IsByte) c)
        c
        (λ d. ◌>>=◌ (read_cpixel f) (λ colour. pure (repeat_colour count colour)) d)
solid-Reads f count c =
    Gives-bind (Reads IsColour c) _ c (read_cpixel f) _ (read_cpixel-Reads f c)
      (λ colour c1 p. (repeat_colour-IsByte count colour p.0, p.1))

-- A palette, and then pixels that name its entries.
with_palette :
    (f : PixelFormat) (n : ℕ) (c : Cursor) (body : List Rgba → Decoder (List ℕ))
    → Within c
    → ((palette : List Rgba) (c' : Cursor)
        → All IsColour palette
        → Within c'
        → Gives (Reads (All IsByte) c') c' (body palette))
    → Gives (Reads (All IsByte) c) c (λ d. ◌>>=◌ (read_palette f n) body d)
with_palette f n c body w go =
    Gives-bind (Reads (λ p. All IsColour p × (length p ≡ n)) c) _ c (read_palette f n) body
      (read_palette-Reads f n c w)
      (λ palette c1 p.
        Gives-weaken (Reads (All IsByte) c1) (Reads (All IsByte) c) c1 (body palette)
          (go palette c1 p.0.0 (After-Within p.1)) (λ out c2 q. (q.0, After-trans p.1 q.1)))

-- Whatever the subencoding says, the tile's bytes are decoded or refused.
decode_body-Reads :
    (f : PixelFormat) (sub tw th : ℕ) (c : Cursor)
    → Within c
    → Gives (Reads (All IsByte) c) c (decode_body f sub tw th)
unfolding decode_body
decode_body-Reads f sub tw th c w =
    Gives-if (Reads (All IsByte) c) c _ _ (sub == 0) (λ _. raw_pixels-Reads f (tw * th) [] c tt w)
      (λ _.
        Gives-if (Reads (All IsByte) c) c _ _ (sub == 1) (λ _. solid-Reads f (tw * th) c)
          (λ _.
            Gives-if (Reads (All IsByte) c) c _ _ (leb 2 sub && leb sub 16)
              (λ _.
                with_palette f sub c _ w
                  (λ palette c1 hp w1. packed_rows-Reads palette tw th [] c1 hp tt w1))
              (λ _.
                Gives-if (Reads (All IsByte) c) c _ _ (sub == 128)
                  (λ _. plain_rle-Reads f (tw * th + 1) (tw * th) [] c (full_fuel (tw * th)) tt w)
                  (λ _.
                    Gives-if (Reads (All IsByte) c) c _ _ (leb 130 sub && leb sub 255)
                      (λ _. with_palette f (sub - 128) c _ w (λ palette c1 hp w1.
                        palette_rle-Reads palette (tw * th + 1) (tw * th) [] c1 hp
                          (full_fuel (tw * th)) tt w1))
                      (λ _. tt)))))

-- A decoded tile: `tw * th` pixels of four bytes, read from the bytes at the cursor.
abbrev pub IsTile : ℕ → ℕ → Cursor → List ℕ → Cursor → Type 0
IsTile tw th c px c' = (length px ≡ tw * th * 4) × All IsByte px × After c c'

-- On any bytes, in any pixel format, `decode_tile` returns: either a tile of exactly `tw * th` pixels of
-- four bytes, with the cursor moved forward within its bytes, or an error. No index is out of range,
-- and no loop runs on.
pub decode_tile-IsTile :
    (f : PixelFormat) (tw th : ℕ) (c : Cursor)
    → Within c
    → Gives (IsTile tw th c) c (decode_tile f tw th)
unfolding decode_tile
decode_tile-IsTile f tw th c w =
    Gives-bind (TookOne c) (IsTile tw th c) c take_u8 _ (take_u8-TookOne c) (λ sub c1 t.
      Gives-bind (Reads (All IsByte) c1) (IsTile tw th c) c1 (decode_body f sub tw th) _
        (decode_body-Reads f sub tw th c1 (After-Within (TookOne-After t)))
        (λ px c2 p.
          Gives-if (IsTile tw th c) c2 (pure px) _ (length px == tw * th * 4)
            (λ e. ((==_iff _ _).0 e, p.0, After-trans (TookOne-After t) p.1)) (λ _. tt)))
