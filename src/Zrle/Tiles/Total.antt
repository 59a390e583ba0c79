-- ===== src/Zrle/Tiles/Total.antt =====
-- `decode_tiles` on any bytes: a rect of the right size, or an error.
use bolide.Base.{
  ℕ, zero, suc, ◌+◌, ◌-◌, ◌*◌, ◌≤◌, min, ◌≡◌, refl, ◌∙◌, arith, List, ltb, ltb→lt, length,
  length-replicate, replicate, Result, ok, err, panic, stuck, Returns,
}
use bolide.Error.{Error}
use bolide.Proto.{zrle_tile}
use bolide.Proto.Format.{PixelFormat}
use bolide.Rows.{copy_rows}
use bolide.Rows.Copied.{Fits, copy_rows-Copied}
use bolide.Framebuffer.Geometry.{row_end, packed_row_fits}
use bolide.Zrle.Cursor.{Cursor, pure, lift}
use bolide.Zrle.Outcome.{
  Gives, Gives-bind, Gives-weaken, Gives-lift, Gives-elim, After, After-trans,
}
use bolide.Zrle.Tile.{decode_tile}
use bolide.Zrle.Tile.Packed.{Within, After-Within}
use bolide.Zrle.Tile.Total.{IsTile, decode_tile-IsTile}
use bolide.Zrle.Tiles.{tile_columns, tile_rows, decode_tiles}

-- The output keeps its size.
abbrev Sized : ℕ → Cursor → List ℕ → Cursor → Type 0
Sized size c out c' = (length out ≡ size) × After c c'

-- A tile that starts within the rect fits into it.
tile-Fits :
    (rect_w rect_h ty tx tw th : ℕ) (pixels out : List ℕ)
    → tx + tw ≤ rect_w
    → ty + th ≤ rect_h
    → length out ≡ rect_w * rect_h * 4
    → length pixels ≡ tw * th * 4
    → Fits
        (λ row. ((ty + row) * rect_w + tx) * 4)
        (λ row. row * tw * 4)
        (tw * 4)
        pixels
        th
        0
        (length out)
tile-Fits rect_w rect_h ty tx tw th pixels out hx hy ho hp = record {
  apart = λ r s _ p _. omega (arith, row_end rect_w (ty + r) (ty + s) (omega arith));
  dst_fits = λ r _ p. omega (arith, row_end rect_w (ty + r) rect_h (omega arith));
  src_fits = λ r _ p. omega (arith, packed_row_fits tw th r (omega arith));
}

copy_tile :
    (rect_w rect_h ty tx tw th : ℕ) (pixels out : List ℕ)
    → tx + tw ≤ rect_w
    → ty + th ≤ rect_h
    → length out ≡ rect_w * rect_h * 4
    → length pixels ≡ tw * th * 4
    → Returns
        (λ (out' : List ℕ). length out' ≡ rect_w * rect_h * 4)
        (copy_rows {E = Error}
          (λ row. ((ty + row) * rect_w + tx) * 4)
          (λ row. row * tw * 4)
          (tw * 4)
          th
          0
          pixels
          out)
copy_tile rect_w rect_h ty tx tw th pixels out hx hy ho hp =
    let (out', e, k) =
      copy_rows-Copied (λ row. ((ty + row) * rect_w + tx) * 4) (λ row. row * tw * 4) (tw * 4) pixels
        {E = Error} th 0 out (tile-Fits rect_w rect_h ty tx tw th pixels out hx hy ho hp) in
    rw e (k.same_length ∙ ho)

tile_columns-Sized :
    (f : PixelFormat) (rect_w rect_h ty th fuel tx : ℕ) (out : List ℕ) (c : Cursor)
    → 1 ≤ fuel
    → rect_w ≤ tx + (fuel - 1)
    → ty + th ≤ rect_h
    → length out ≡ rect_w * rect_h * 4
    → Within c
    → Gives (Sized (rect_w * rect_h * 4) c) c (tile_columns f rect_w ty th fuel tx out)
unfolding tile_columns
tile_columns-Sized f rect_w rect_h ty th zero tx out c left m hy ho w = absurd (omega arith)
tile_columns-Sized f rect_w rect_h ty th (suc fuel) tx out c left m hy ho w =
    Gives-elim (Sized (rect_w * rect_h * 4) c) c _ (pure out) (ltb tx rect_w)
      (λ more.
        let tw : ℕ = min zrle_tile (rect_w - tx) in
        Gives-bind (IsTile tw th c) _ c (decode_tile f tw th) _ (decode_tile-IsTile f tw th c w)
          (λ pixels c1 p.
            Gives-bind (λ (o : List ℕ) d. (length o ≡ rect_w * rect_h * 4) × (d ≡ c1)) _ c1
              (lift (
                copy_rows (λ row. ((ty + row) * rect_w + tx) * 4) (λ row. row * tw * 4) (tw * 4) th
                  0 pixels out))
              _
              (Gives-lift (λ (o : List ℕ). length o ≡ rect_w * rect_h * 4) c1 _
                (copy_tile rect_w rect_h ty tx tw th pixels out (omega (arith, ltb→lt _ _ more)) hy
                  ho p.0))
              (λ out' d k. rw k.1 (
                Gives-weaken (Sized (rect_w * rect_h * 4) c1) (Sized (rect_w * rect_h * 4) c) c1
                  (tile_columns f rect_w ty th fuel (tx + zrle_tile) out')
                  (tile_columns-Sized f rect_w rect_h ty th fuel (tx + zrle_tile) out' c1
                    (omega (arith, ltb→lt _ _ more)) (omega (arith, ltb→lt _ _ more)) hy k.0
                    (After-Within p.2))
                  (λ o c2 q. (q.0, After-trans p.2 q.1))))))
      (λ _. (ho, record { same_bytes = refl; forward = omega arith; within = w }))

tile_rows-Sized :
    (f : PixelFormat) (rect_w rect_h fuel ty : ℕ) (out : List ℕ) (c : Cursor)
    → 1 ≤ fuel
    → rect_h ≤ ty + (fuel - 1)
    → length out ≡ rect_w * rect_h * 4
    → Within c
    → Gives (Sized (rect_w * rect_h * 4) c) c (tile_rows f rect_w rect_h fuel ty out)
unfolding tile_rows
tile_rows-Sized f rect_w rect_h zero ty out c left m ho w = absurd (omega arith)
tile_rows-Sized f rect_w rect_h (suc fuel) ty out c left m ho w =
    Gives-elim (Sized (rect_w * rect_h * 4) c) c _ (pure out) (ltb ty rect_h)
      (λ more.
        let th : ℕ = min zrle_tile (rect_h - ty) in
        Gives-bind (Sized (rect_w * rect_h * 4) c) _ c
          (tile_columns f rect_w ty th (rect_w + 1) 0 out) _
          (tile_columns-Sized f rect_w rect_h ty th (rect_w + 1) 0 out c (omega arith) (omega arith)
            (omega (arith, ltb→lt _ _ more)) ho w)
          (λ out' c1 p.
            Gives-weaken (Sized (rect_w * rect_h * 4) c1) (Sized (rect_w * rect_h * 4) c) c1
              (tile_rows f rect_w rect_h fuel (ty + zrle_tile) out')
              (tile_rows-Sized f rect_w rect_h fuel (ty + zrle_tile) out' c1
                (omega (arith, ltb→lt _ _ more)) (omega (arith, ltb→lt _ _ more)) p.0
                (After-Within p.1))
              (λ o c2 q. (q.0, After-trans p.1 q.1))))
      (λ _. (ho, record { same_bytes = refl; forward = omega arith; within = w }))

-- Whatever bytes a server sends, `decode_tiles` returns: either `w * h * 4` bytes, as many as the rect has, or
-- an error. No copy is out of range, and the loops over the tiles end.
pub decode_tiles_total :
    (bytes : List ℕ) (f : PixelFormat) (w h : ℕ)
    → Returns (λ (out : List ℕ). length out ≡ w * h * 4) (decode_tiles bytes f w h)
unfolding decode_tiles
decode_tiles_total bytes f w h = finish (tile_rows f w h (h + 1) 0 blank start) rows
  where
    blank : List ℕ
    blank = replicate (w * h * 4) 0

    start : Cursor
    start = record { bytes = bytes; pos = 0 }

    rows : Returns (λ r. Sized (w * h * 4) start r.0 r.1) (tile_rows f w h (h + 1) 0 blank start)
    rows =
        tile_rows-Sized f w h (h + 1) 0 blank start (omega arith) (omega arith)
          (length-replicate (w * h * 4) 0) (omega arith)

    finish :
        (r : Result Error (List ℕ × Cursor))
        → Returns (λ r. Sized (w * h * 4) start r.0 r.1) r
        → Returns
            (λ (out : List ℕ). length out ≡ w * h * 4)
            (elim r [ ok (out, _) ↦ ok out | err e ↦ err e | panic ↦ panic | stuck ↦ stuck ])
    finish (ok (out, c)) k = k.0
    finish (err e) k = tt
    finish panic k = absurd k
    finish stuck k = absurd k
