-- ===== src/Framebuffer/Blit.antt =====
-- `blit_rgba` paints its rectangle and nothing else, or refuses.
use bolide.Base.{
  ℕ, ◌+◌, ◌-◌, ◌*◌, ◌≤◌, ◌<◌, ◌≡◌, refl, ap, ◌∙◌, ◌⊎◌, inl, inr, arith, List, ok, err, length,
  get_elem?, le→leb, lt→leb, dec_le,
}
use bolide.Error.{Error, protocol, does_not_fit, came_up_short}
use bolide.Framebuffer.{Framebuffer, check_bounds, blit_rgba}
use bolide.Framebuffer.Geometry.{
  offset, rows_apart, row_fits, packed_row_fits, offset_inside, offset_outside,
}
use bolide.Rows.Copied.{Copied, Fits, copy_rows-Copied}

-- The buffer holds four bytes for each pixel.
pub record IsSized (fb : Framebuffer) : Type 0 where
  pub sized : length fb.rgba ≡ fb.width * fb.height * 4

-- The rectangle lies within the framebuffer.
pub record InBounds (fb : Framebuffer) (x y w h : ℕ) : Type 0 where
  pub right : x + w ≤ fb.width
  pub bottom : y + h ≤ fb.height

-- The pixel is inside the rectangle, or outside it.
pub record Inside (x y w h px py : ℕ) : Type 0 where
  pub from_left : x ≤ px
  pub to_right : px < x + w
  pub from_top : y ≤ py
  pub to_bottom : py < y + h

abbrev pub Outside : ℕ → ℕ → ℕ → ℕ → ℕ → ℕ → Type 0
Outside x y w h px py = (px < x) ⊎ ((x + w ≤ px) ⊎ ((py < y) ⊎ (y + h ≤ py)))

-- `out` is `fb` with the `w * h` pixels of `bytes` at (x, y), four bytes each.
pub record Painted (fb out : Framebuffer) (x y w h : ℕ) (bytes : List ℕ) : Type 0 where
  pub same_width : out.width ≡ fb.width
  pub same_height : out.height ≡ fb.height
  pub out_sized : IsSized out
  pub painted :
      (px py c : ℕ)
      → Inside x y w h px py
      → c < 4
      → get_elem? out.rgba (offset fb.width px py c)
        ≡ get_elem? bytes (offset w (px - x) (py - y) c)
  pub kept :
      (px py c : ℕ)
      → Outside x y w h px py
      → px < fb.width
      → c < 4
      → get_elem? out.rgba (offset fb.width px py c) ≡ get_elem? fb.rgba (offset fb.width px py c)

module _ (fb : Framebuffer) (x y w h : ℕ) where
  abbrev pub dst_row : ℕ → ℕ
  dst_row row = (y + row) * (fb.width * 4) + x * 4

  pub check_bounds_ok : InBounds fb x y w h → check_bounds fb x y w h ≡ ok tt
  unfolding check_bounds
  check_bounds_ok b = ground arith

  -- Copying the rows of `bytes` into place paints the rectangle.
  pub rows_fit :
      (bytes : List ℕ)
      → IsSized fb
      → InBounds fb x y w h
      → w * h * 4 ≤ length bytes
      → Fits dst_row (λ row. row * w * 4) (w * 4) bytes h 0 (length fb.rgba)
  rows_fit bytes v b enough = record {
    apart = λ r s _ p _. rows_apart fb.width x y w b.right r s p;
    dst_fits =
        λ r _ p. rw v.sized (row_fits fb.width x y w b.right fb.height r (omega (arith, b.bottom)));
    src_fits = λ r _ p. omega (arith, packed_row_fits w h r (omega arith));
  }

  pub Copied-Painted :
      (bytes out : List ℕ)
      → IsSized fb
      → InBounds fb x y w h
      → Copied dst_row (λ row. row * w * 4) (w * 4) bytes h 0 fb.rgba out
      → Painted fb (record fb { rgba = out }) x y w h bytes
  Copied-Painted bytes out v b k = record {
    same_width = refl;
    same_height = refl;
    out_sized = record { sized = k.same_length ∙ v.sized };
    painted = λ px py c i hc.
        ap (get_elem? out) (offset_inside fb.width x y w b.right px py c i.from_left i.from_top)
        ∙ k.inside (py - y) ((px - x) * 4 + c) (omega arith)
            (omega (arith, i.to_bottom, i.from_top)) (omega (arith, i.to_right, i.from_left))
        ∙ ap (get_elem? bytes) (packed_offset (py - y) (px - x) c);
    kept = λ px py c o hp hc. k.outside (offset fb.width px py c) (λ r _ p.
        offset_outside fb.width x y w b.right px py c r hp hc (λ e. beside px py r p o e));
  }
    where
      packed_offset : (row col c : ℕ) → row * w * 4 + (col * 4 + c) ≡ offset w col row c
      packed_offset row col c = omega arith

      beside :
          (px py r : ℕ) → r < 0 + h → Outside x y w h px py → y + r ≡ py → (px < x) ⊎ (x + w ≤ px)
      beside px py r p o e = omega arith

  -- A rectangle that lies within the framebuffer and has its pixels is painted, every byte of it, and
  -- the bytes of every other pixel are what they were.
  pub blit_rgba-Painted :
      (bytes : List ℕ)
      → IsSized fb
      → InBounds fb x y w h
      → w * h * 4 ≤ length bytes
      → (out : Framebuffer) × (blit_rgba fb x y w h bytes ≡ ok out) × Painted fb out x y w h bytes
  unfolding blit_rgba
  blit_rgba-Painted bytes v b enough =
      let (out, e, k) =
        copy_rows-Copied dst_row (λ row. row * w * 4) (w * 4) bytes {E = Error} h 0 fb.rgba
          (rows_fit bytes v b enough) in
      (
        record fb { rgba = out },
        rw (check_bounds_ok b, le→leb _ _ enough, e),
        Copied-Painted bytes out v b k,
      )

  abbrev pub SticksOut : Type 0
  SticksOut = (fb.width < x + w) ⊎ (fb.height < y + h)

  pub check_bounds_err :
      SticksOut → check_bounds fb x y w h ≡ err (protocol (does_not_fit w h x y fb.width fb.height))
  unfolding check_bounds
  check_bounds_err o = ground arith

  pub bounds_cases : SticksOut ⊎ InBounds fb x y w h
  bounds_cases = elim (dec_le (x + w) fb.width) [
    | no wide ↦ inl (inl (omega arith))
    | yes right ↦ elim (dec_le (y + h) fb.height) [
      | no tall ↦ inl (inr (omega arith))
      | yes bottom ↦ inr (record { right = right; bottom = bottom })
    ]
  ]

  blit_rgba_short :
      (bytes : List ℕ)
      → InBounds fb x y w h
      → length bytes < w * h * 4
      → blit_rgba fb x y w h bytes ≡ err (protocol came_up_short)
  unfolding blit_rgba
  blit_rgba_short bytes b short = rw (check_bounds_ok b, lt→leb _ _ short)

  blit_rgba_err :
      (bytes : List ℕ)
      → SticksOut
      → blit_rgba fb x y w h bytes ≡ err (protocol (does_not_fit w h x y fb.width fb.height))
  unfolding blit_rgba
  blit_rgba_err bytes o = rw (check_bounds_err o)

  -- Every outcome of `blit_rgba` on a framebuffer of the right size. It paints a rectangle that lies
  -- within the framebuffer and has its bytes; it refuses one that sticks out, and one that lies within
  -- but comes up short. It never panics.
  pub blit_rgba_cases :
      (bytes : List ℕ)
      → IsSized fb
      → (InBounds fb x y w h
          × (out : Framebuffer) × (blit_rgba fb x y w h bytes ≡ ok out)
          × Painted fb out x y w h bytes)
        ⊎ ((SticksOut
              × (blit_rgba fb x y w h bytes
                  ≡ err (protocol (does_not_fit w h x y fb.width fb.height))))
            ⊎ (InBounds fb x y w h
                × (length bytes < w * h * 4)
                × (blit_rgba fb x y w h bytes ≡ err (protocol came_up_short))))
  blit_rgba_cases bytes v = elim bounds_cases [
    | inl o ↦ inr (inl (o, blit_rgba_err bytes o))
    | inr b ↦ elim (dec_le (w * h * 4) (length bytes)) [
      | yes enough ↦ let (out, e, k) = blit_rgba-Painted bytes v b enough in inl (b, out, e, k)
      | no short ↦ inr (inr (b, omega arith, blit_rgba_short bytes b (omega arith)))
    ]
  ]
