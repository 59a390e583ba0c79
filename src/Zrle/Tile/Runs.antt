-- ===== src/Zrle/Tile/Runs.antt =====
-- The RLE loops on any bytes: they end, and give bytes or an error.
use bolide.Base.{
  ℕ, zero, suc, ◌+◌, ◌-◌, ◌*◌, ◌≤◌, ◌<◌, ◌≡◌, ◌==◌, not, ltb, ltb→lt, bit_and, refl, arith, List,
  All, length,
}
use bolide.Base.Bytes.{IsByte}
use bolide.Proto.Format.{PixelFormat, Rgba}
use bolide.Zrle.Cursor.{Cursor, Decoder, pure, lift, ◌>>=◌, take_u8}
use bolide.Zrle.Outcome.{
  Gives, Gives-bind, Gives-weaken, Gives-lift, Gives-if, Gives-elim, After, After-trans, TookOne,
  TookOne-After, take_u8-TookOne,
}
use bolide.Zrle.Pixels.{read_cpixel, read_run_length}
use bolide.Zrle.Pixels.Total.{IsColour, Reads, read_cpixel-Reads, read_run_length-Reads}
use bolide.Zrle.Tile.{push_run, palette_entry, plain_rle, rle_entry, palette_rle}
use bolide.Zrle.Tile.Packed.{Filled, push_run-Filled, palette_entry-IsColour, Within, After-Within}

-- The fuel left fills the tile: each round of an RLE loop adds a pixel.
pub record Enough (fuel count : ℕ) (px : List ℕ) : Type 0 where
  pub some_left : 1 ≤ fuel
  pub enough : count * 4 ≤ length px + (fuel - 1) * 4

Enough-next :
    (fuel count run : ℕ) (px px' : List ℕ)
    → Enough (suc fuel) count px
    → length px < count * 4
    → 1 ≤ run
    → Filled (length px + 4 * run) px'
    → Enough fuel count px'
Enough-next fuel count run px px' e m r g = record {
  some_left = omega (arith, e.enough);
  enough = omega (arith, e.enough, g.long);
}

-- The end of a round: the run is pushed, and the loop goes on from there.
pushed :
    (loop : List ℕ → Decoder (List ℕ)) (fuel count run : ℕ) (px : List ℕ) (colour : Rgba)
    (c c' : Cursor)
    → ((px' : List ℕ)
        → Enough fuel count px'
        → All IsByte px'
        → Gives (Reads (All IsByte) c') c' (loop px'))
    → Enough (suc fuel) count px
    → length px < count * 4
    → 1 ≤ run
    → IsColour colour
    → All IsByte px
    → After c c'
    → Gives (Reads (All IsByte) c) c' (λ d. ◌>>=◌ (lift (push_run px colour run count)) loop d)
pushed loop fuel count run px colour c c' again e m r k h p =
    Gives-bind (λ px' d. Filled (length px + 4 * run) px' × (d ≡ c')) (Reads (All IsByte) c) c'
      (lift (push_run px colour run count)) loop
      (Gives-lift (Filled (length px + 4 * run)) c' (push_run px colour run count)
        (push_run-Filled px colour run count h k))
      (λ px' d g. rw g.1 (
        Gives-weaken (Reads (All IsByte) c') (Reads (All IsByte) c) c' (loop px')
          (again px' (Enough-next fuel count run px px' e m r g.0) g.0.bytes)
          (λ out c3 q. (q.0, After-trans p q.1))))

pub plain_rle-Reads :
    (f : PixelFormat) (fuel count : ℕ) (px : List ℕ) (c : Cursor)
    → Enough fuel count px
    → All IsByte px
    → Within c
    → Gives (Reads (All IsByte) c) c (plain_rle f fuel count px)
unfolding plain_rle
plain_rle-Reads f zero count px c e h w = absurd (omega (arith, e.some_left))
plain_rle-Reads f (suc fuel) count px c e h w =
    Gives-elim (Reads (All IsByte) c) c _ (pure px) (ltb (length px) (count * 4))
      (λ more.
        Gives-bind (Reads IsColour c) _ c (read_cpixel f) _ (read_cpixel-Reads f c) (λ colour c1 p.
          Gives-bind (Reads (λ run. 1 ≤ run) c1) _ c1 read_run_length _ (read_run_length-Reads c1)
            (λ run c2 q.
              pushed (plain_rle f fuel count) fuel count run px colour c c2
                (λ px' e' h'. plain_rle-Reads f fuel count px' c2 e' h' (After-Within q.1)) e
                (ltb→lt _ _ more) q.0 p.0 h (After-trans p.1 q.1))))
      (λ full. (h, record { same_bytes = refl; forward = omega arith; within = w }))

rle_entry-Reads :
    (b : ℕ) (c : Cursor) → Within c → Gives (Reads (λ (r : ℕ × ℕ). 1 ≤ r.1) c) c (rle_entry b)
unfolding rle_entry
rle_entry-Reads b c w =
    Gives-if (Reads (λ (r : ℕ × ℕ). 1 ≤ r.1) c) c _ (pure (b, 1)) (not (bit_and b 0x80 == 0))
      (λ _.
        Gives-bind (Reads (λ run. 1 ≤ run) c) _ c read_run_length _ (read_run_length-Reads c)
          (λ run c1 p. (p.0, p.1)))
      (λ _. (omega arith, record { same_bytes = refl; forward = omega arith; within = w }))

pub palette_rle-Reads :
    (palette : List Rgba) (fuel count : ℕ) (px : List ℕ) (c : Cursor)
    → All IsColour palette
    → Enough fuel count px
    → All IsByte px
    → Within c
    → Gives (Reads (All IsByte) c) c (palette_rle palette fuel count px)
unfolding palette_rle
palette_rle-Reads palette zero count px c hp e h w = absurd (omega (arith, e.some_left))
palette_rle-Reads palette (suc fuel) count px c hp e h w =
    Gives-elim (Reads (All IsByte) c) c _ (pure px) (ltb (length px) (count * 4))
      (λ more. Gives-bind (TookOne c) _ c take_u8 _ (take_u8-TookOne c) (λ b c1 t.
        Gives-bind (Reads (λ (r : ℕ × ℕ). 1 ≤ r.1) c1) _ c1 (rle_entry b) _
          (rle_entry-Reads b c1 (After-Within (TookOne-After t)))
          (λ r c2 q.
            Gives-bind (λ entry d. IsColour entry × (d ≡ c2)) _ c2
              (lift (palette_entry palette r.0 _)) _
              (Gives-lift IsColour c2 (palette_entry palette r.0 _)
                (palette_entry-IsColour palette r.0 _ hp))
              (λ entry d k. rw k.1 (
                pushed (palette_rle palette fuel count) fuel count r.1 px entry c c2
                  (λ px' e' h'.
                    palette_rle-Reads palette fuel count px' c2 hp e' h' (After-Within q.1))
                  e (ltb→lt _ _ more) q.0 k.0 h (After-trans (TookOne-After t) q.1))))))
      (λ full. (h, record { same_bytes = refl; forward = omega arith; within = w }))
