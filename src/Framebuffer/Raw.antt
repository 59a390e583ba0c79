-- ===== src/Framebuffer/Raw.antt =====
-- `blit_raw` does what decoding the pixels of the rectangle and then `blit_rgba` would.
use bolide.Base.{
  ℕ, zero, suc, ◌-◌, ◌+◌, ◌*◌, ◌≤◌, ◌<◌, ◌≡◌, refl, sym, ap, ap₂, ◌∙◌, inl, inr, arith, List, [],
  ◌++◌, ok, length, length-append, take, drop, drop-add, take-append-drop, length-take, le→leb,
}
use mathlib.Core.List.{append_assoc}
use bolide.Error.{Error}
use bolide.Base.Bytes.Slices.{slice_ok, copy_at_ok, overwritten, length-overwritten}
use bolide.Base.Bytes.Chunks.{overwritten-append_right}
use bolide.Proto.Format.{PixelFormat, rgba_bytes, bytes_per_pixel, read_pixel, to_rgba}
use bolide.Rows.{copy_rows}
use bolide.Framebuffer.{Framebuffer, raw_columns, raw_rows, blit_raw, blit_rgba}
use bolide.Framebuffer.Geometry.{packed_row_fits, row_fits}
use bolide.Framebuffer.Blit.{
  IsSized, InBounds, dst_row, check_bounds_ok, check_bounds_err, bounds_cases,
}

-- The `i`th pixel of `bytes`, and `n` of them from the `i`th on, in RGBA.
abbrev pub wire_pixel : PixelFormat → List ℕ → ℕ → List ℕ
wire_pixel f bytes i =
    rgba_bytes
      (to_rgba f (read_pixel f (take (bytes_per_pixel f) (drop (i * bytes_per_pixel f) bytes))))

unfoldable pub wire_pixels : PixelFormat → List ℕ → ℕ → ℕ → List ℕ
wire_pixels f bytes zero i = []
wire_pixels f bytes (suc n) i = wire_pixel f bytes i ++ wire_pixels f bytes n (i + 1)

module _ {A : Type 0} (dst : List A) (a : ℕ) where
  overwritten-nil : overwritten dst a [] ≡ dst
  overwritten-nil = let e : a + 0 ≡ a = omega arith in rw e (take-append-drop a dst)

  -- Two copies, the second right behind the first.
  overwritten-append :
      (p q : List A)
      → a + length p ≤ length dst
      → overwritten (overwritten dst a p) (a + length p) q ≡ overwritten dst a (p ++ q)
  overwritten-append p q h =
      overwritten-append_right (take a dst) (p ++ drop (a + length p) dst) q (a + length p)
        (length p) (omega (arith, length-take a dst))
      ∙ ap (λ z. take a dst ++ z)
          (overwritten-append_right p (drop (a + length p) dst) q (length p) 0 (omega arith)
            ∙ ap (λ z. p ++ (q ++ drop z (drop (a + length p) dst))) (omega arith)
            ∙ ap (λ z. p ++ (q ++ z)) (sym (drop-add (a + length p) (length q) dst))
            ∙ sym (append_assoc p q _)
            ∙ ap (λ z. (p ++ q) ++ drop z dst) (omega (arith, length-append p q)))

four : (n : ℕ) → suc n * 4 ≡ suc (suc (suc (suc (n * 4))))
four n = omega arith

module _ (f : PixelFormat) (bytes : List ℕ) where
  length-wire_pixels : (n i : ℕ) → length (wire_pixels f bytes n i) ≡ n * 4
  unfolding wire_pixels
  length-wire_pixels zero i = refl
  length-wire_pixels (suc n) i = omega (arith, length-wire_pixels n (i + 1))

  drop-wire_pixels :
      (n m i : ℕ) → drop (n * 4) (wire_pixels f bytes (n + m) i) ≡ wire_pixels f bytes m (i + n)
  unfolding wire_pixels
  drop-wire_pixels zero m i =
      let e : zero + m ≡ m = omega arith in let e' : i + 0 ≡ i = omega arith in rw (e, e')
  drop-wire_pixels (suc n) m i =
      let e : suc n + m ≡ suc (n + m) = omega arith in
      let e' : i + 1 + n ≡ i + suc n = omega arith in
      rw (e, four n) (drop-wire_pixels n m (i + 1) ∙ ap (wire_pixels f bytes m) e')

  take-wire_pixels :
      (n m i : ℕ) → take (n * 4) (wire_pixels f bytes (n + m) i) ≡ wire_pixels f bytes n i
  unfolding wire_pixels
  take-wire_pixels zero m i = refl
  take-wire_pixels (suc n) m i =
      let e : suc n + m ≡ suc (n + m) = omega arith in
      rw (e, four n) (ap (λ q. wire_pixel f bytes i ++ q) (take-wire_pixels n m (i + 1)))

scaled : (w h row col b : ℕ) → row < h → col < w → (row * w + col) * b + b ≤ w * h * b
scaled w h row col b r c =
    let inside : row * w + col + 1 ≤ w * h = grind arith in
    let wider : (row * w + col + 1) * b ≤ w * h * b = grind arith in grind arith

module _ (fb : Framebuffer) (x y w h : ℕ) (f : PixelFormat) (bytes : List ℕ)
    (fits : InBounds fb x y w h) (enough : w * h * bytes_per_pixel f ≤ length bytes) where
  -- Where a pixel is read, and where it is written.
  abbrev src : ℕ → ℕ → ℕ
  src row col = (row * w + col) * bytes_per_pixel f

  abbrev dst : ℕ → ℕ → ℕ
  dst row col = (y + row) * (fb.width * 4) + (x + col) * 4

  abbrev at : ℕ → ℕ
  at = dst_row fb x y w h

  src_fits : (row col : ℕ) → row < h → col < w → src row col + bytes_per_pixel f ≤ length bytes
  src_fits row col r c = omega (arith, scaled w h row col (bytes_per_pixel f) r c, enough)

  row_at : (row col : ℕ) → dst row col ≡ at row + col * 4
  row_at row col = omega arith

  columns-overwritten :
      (row : ℕ)
      → row < h
      → (left col : ℕ) (into : List ℕ) → col + left ≤ w
      → at row + w * 4 ≤ length into
      → raw_columns f bytes (src row) (dst row) left col into
        ≡ ok (overwritten into (at row + col * 4) (wire_pixels f bytes left (row * w + col)))
  unfolding raw_columns wire_pixels
  columns-overwritten row r zero col into c k =
      ap ok (sym (overwritten-nil into (at row + col * 4)))
  columns-overwritten row r (suc left) col into c k =
      let i = row * w + col in
      let p = wire_pixel f bytes i in
      rw
        (
          slice_ok {E = Error} bytes (src row col) (bytes_per_pixel f)
              (src_fits row col r (omega arith)),
          row_at row col,
          copy_at_ok {E = Error} into (at row + col * 4) p (omega arith),
        )
        (columns-overwritten row r left (col + 1) (overwritten into (at row + col * 4) p)
            (omega arith)
            (omega (arith, length-overwritten into (at row + col * 4) p (omega arith)))
          ∙ ap ok (
              ap₂ (overwritten (overwritten into (at row + col * 4) p)) (omega arith)
                (ap (wire_pixels f bytes left) (omega arith))
              ∙ overwritten-append into (at row + col * 4) p (wire_pixels f bytes left (i + 1))
                  (omega arith)))

  abbrev pixels : List ℕ
  pixels = wire_pixels f bytes (w * h) 0

  -- A row of the rectangle, decoded.
  row_of :
      (row : ℕ)
      → row < h
      → take (w * 4) (drop (row * w * 4) pixels) ≡ wire_pixels f bytes w (row * w)
  row_of row r =
      let m = w * h - row * w - w in
      let whole : w * h ≡ row * w + (w + m) = omega (arith, packed_row_fits w h row r) in
      rw whole (
        ap (take (w * 4)) (drop-wire_pixels f bytes (row * w) (w + m) 0)
        ∙ take-wire_pixels f bytes w m (0 + row * w)
        ∙ ap (wire_pixels f bytes w) (omega arith))

  columns_whole :
      (row : ℕ) (into : List ℕ)
      → row < h
      → at row + w * 4 ≤ length into
      → raw_columns f bytes (src row) (dst row) w 0 into
        ≡ ok (overwritten into (at row) (wire_pixels f bytes w (row * w)))
  columns_whole row into r k =
      columns-overwritten row r w 0 into (omega arith) k
      ∙ ap ok (ap₂ (overwritten into) (omega arith) (ap (wire_pixels f bytes w) (omega arith)))

  rows-copied :
      (left row : ℕ) (into : List ℕ)
      → row + left ≤ h
      → length into ≡ fb.width * fb.height * 4
      → raw_rows f bytes src dst w left row into
        ≡ copy_rows at (λ row. row * w * 4) (w * 4) left row pixels into
  unfolding raw_rows copy_rows
  rows-copied zero row into k v = refl
  rows-copied (suc left) row into k v =
      let r : row < h = omega arith in
      let room : at row + w * 4 ≤ length into =
        rw v (row_fits fb.width x y w fits.right fb.height row (omega (arith, fits.bottom))) in
      let count = length-wire_pixels f bytes w (row * w) in
      rw
        (
          columns_whole row into r room,
          slice_ok {E = Error} pixels (row * w * 4) (w * 4)
              (omega (arith, packed_row_fits w h row r, length-wire_pixels f bytes (w * h) 0)),
          row_of row r,
          copy_at_ok {E = Error} into (at row) (wire_pixels f bytes w (row * w))
              (omega (arith, count)),
        )
        (rows-copied left (row + 1) (overwritten into (at row) (wire_pixels f bytes w (row * w)))
          (omega arith)
          (length-overwritten into (at row) (wire_pixels f bytes w (row * w)) (omega (arith, count))
            ∙ v))

  blit_raw-blit_rgba' : IsSized fb → blit_raw fb x y w h f bytes ≡ blit_rgba fb x y w h pixels
  unfolding blit_raw blit_rgba
  blit_raw-blit_rgba' v =
      rw
        (
          check_bounds_ok fb x y w h fits,
          le→leb (w * h * bytes_per_pixel f) (length bytes) enough,
          le→leb (w * h * 4) (length pixels) (omega (arith, length-wire_pixels f bytes (w * h) 0)),
          rows-copied h 0 fb.rgba (omega arith) v.sized,
        )
        refl

-- `blit_raw` of a rectangle whose bytes are all there does what `blit_rgba` does with its pixels
-- decoded beforehand, whether the rectangle lies within the framebuffer or is refused.
pub blit_raw-blit_rgba :
    (fb : Framebuffer) (x y w h : ℕ) (f : PixelFormat) (bytes : List ℕ)
    → IsSized fb
    → w * h * bytes_per_pixel f ≤ length bytes
    → blit_raw fb x y w h f bytes ≡ blit_rgba fb x y w h (wire_pixels f bytes (w * h) 0)
unfolding blit_raw blit_rgba
blit_raw-blit_rgba fb x y w h f bytes v enough = elim (bounds_cases fb x y w h) [
  | inl o ↦ rw (check_bounds_err fb x y w h o) refl
  | inr b ↦ blit_raw-blit_rgba' fb x y w h f bytes b enough v
]
