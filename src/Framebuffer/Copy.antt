-- ===== src/Framebuffer/Copy.antt =====
-- `copy_rect` moves a rectangle as it was before the copy, also onto itself.
use bolide.Base.{
  ℕ, ◌+◌, ◌-◌, ◌*◌, ◌<◌, ◌≡◌, refl, ap, ◌∙◌, arith, List, ok, length, replicate, length-replicate,
  get_elem?,
}
use bolide.Error.{Error}
use bolide.Framebuffer.{Framebuffer, copy_rect}
use bolide.Framebuffer.Blit.{
  IsSized, InBounds, Inside, Outside, Painted, dst_row, check_bounds_ok, rows_fit, Copied-Painted,
}
use bolide.Framebuffer.Geometry.{offset, row_fits, packed_row_fits, packed_rows_apart}
use bolide.Rows.Copied.{Copied, Fits, copy_rows-Copied}

module _ (fb : Framebuffer) (x y w h src_x src_y : ℕ) where
  -- `out` is `fb` with the rectangle at (src_x, src_y) of `fb` moved to (x, y).
  pub record Moved (out : Framebuffer) : Type 0 where
    pub same_width : out.width ≡ fb.width
    pub same_height : out.height ≡ fb.height
    pub out_sized : IsSized out
    pub moved :
        (px py c : ℕ)
        → Inside x y w h px py
        → c < 4
        → get_elem? out.rgba (offset fb.width px py c)
          ≡ get_elem? fb.rgba (offset fb.width (src_x + (px - x)) (src_y + (py - y)) c)
    pub kept :
        (px py c : ℕ)
        → Outside x y w h px py
        → px < fb.width
        → c < 4
        → get_elem? out.rgba (offset fb.width px py c) ≡ get_elem? fb.rgba (offset fb.width px py c)

  abbrev scratch : List ℕ
  scratch = replicate (w * h * 4) 0

  scratch-Fits :
      IsSized fb
      → InBounds fb src_x src_y w h
      → Fits (λ row. row * w * 4) (dst_row fb src_x src_y w h) (w * 4) fb.rgba h 0 (length scratch)
  scratch-Fits v s = record {
    apart = λ r t _ p _. packed_rows_apart w r t p;
    dst_fits =
        λ r _ p. rw (length-replicate {A = ℕ} (w * h * 4) 0) (packed_row_fits w h r (omega arith));
    src_fits = λ r _ p.
        rw v.sized (row_fits fb.width src_x src_y w s.right fb.height r (omega (arith, s.bottom)));
  }

  -- The bytes of one pixel in the scratch copy are those of the source pixel.
  scratch_pixel :
      (taken : List ℕ)
      → InBounds fb src_x src_y w h
      → Copied (λ row. row * w * 4) (dst_row fb src_x src_y w h) (w * 4) fb.rgba h 0 scratch taken
      → (col row c : ℕ) → col < w
      → row < h
      → c < 4
      → get_elem? taken (offset w col row c)
        ≡ get_elem? fb.rgba (offset fb.width (src_x + col) (src_y + row) c)
  scratch_pixel taken s k col row c hcol hrow hc =
      ap (get_elem? taken) place
      ∙ k.inside row (col * 4 + c) (omega arith) (omega arith) (omega arith)
      ∙ ap (get_elem? fb.rgba) (source (src_y + row))
    where
      place : offset w col row c ≡ row * w * 4 + (col * 4 + c)
      place = omega arith

      source :
          (sy : ℕ)
          → sy * (fb.width * 4) + src_x * 4 + (col * 4 + c) ≡ offset fb.width (src_x + col) sy c
      source sy = omega arith

  -- A move between rectangles that lie within the framebuffer puts at every pixel of the destination
  -- what stood at the matching pixel of the source before the copy, however the two overlap, and
  -- leaves every other pixel alone.
  pub copy_rect-Moved :
      IsSized fb
      → InBounds fb x y w h
      → InBounds fb src_x src_y w h
      → (out : Framebuffer) × (copy_rect fb x y w h src_x src_y ≡ ok out) × Moved out
  unfolding copy_rect
  copy_rect-Moved v b s =
      let (taken, e, k) =
        copy_rows-Copied (λ row. row * w * 4) (dst_row fb src_x src_y w h) (w * 4) fb.rgba
          {E = Error} h 0 scratch (scratch-Fits v s) in
      let whole : length taken ≡ w * h * 4 =
        k.same_length ∙ length-replicate {A = ℕ} (w * h * 4) 0 in
      let (out, e', k') =
        copy_rows-Copied (dst_row fb x y w h) (λ row. row * w * 4) (w * 4) taken {E = Error} h 0
          fb.rgba (rows_fit fb x y w h taken v b (omega arith)) in
      let p : Painted fb (record fb { rgba = out }) x y w h taken =
        Copied-Painted fb x y w h taken out v b k' in
      (
        record fb { rgba = out },
        rw (check_bounds_ok fb x y w h b, check_bounds_ok fb src_x src_y w h s, e, e'),
        record {
          same_width = refl;
          same_height = refl;
          out_sized = p.out_sized;
          moved = λ px py c i hc.
              p.painted px py c i hc
              ∙ scratch_pixel taken s k (px - x) (py - y) c (omega (arith, i.to_right, i.from_left))
                  (omega (arith, i.to_bottom, i.from_top)) hc;
          kept = p.kept;
        },
      )
