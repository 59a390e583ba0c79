-- ===== src/Record/Fitted.antt =====
-- record.rs: a fitted frame has the size of the video.
use native.Mathlib.Nat.{div-le_of_le-mul, div-lt_iff_lt-mul}
use bolide.Base.{
  ℕ, zero, suc, ◌+◌, ◌-◌, ◌*◌, ◌/◌, ◌%◌, ◌≤◌, ◌<◌, Bool-cases, ◌&&◌, ◌||◌, List, ok, leb, leb→le,
  ◌==◌, ==_iff, length, Returns, Returns-bind, Returns-if, ◌≡◌, refl, ap, ◌∙◌, inl, inr, arith,
  length-take, length-drop, take, drop,
}
use bolide.Base.Bytes.Slices.{slice_ok, copy_at_ok, length-overwritten}
use bolide.Error.{Error}
use bolide.Framebuffer.{Framebuffer}
use bolide.Rows.Copied.{copy_rows-Copied}
use bolide.Record.{Geometry, even, for_screen, black_pixels, scaled, fit_row, fit_rows, fit}

length-black_pixels : (n : ℕ) → length (black_pixels n) ≡ n * 4
unfolding black_pixels
length-black_pixels zero = refl
length-black_pixels (suc n) = omega (arith, length-black_pixels n)

-- Sides of the canvas: even, and room for a pixel.
even_lem : (side : ℕ) → side ≤ 65535 → (even side % 2 ≡ 0) × (2 ≤ even side) × (even side ≤ 65534)
unfolding even
even_lem side h = ground arith

-- The size fits the canvas.
abbrev Within : ℕ × ℕ → ℕ → ℕ → Type 0
Within s cw ch = (1 ≤ s.0) × (s.0 ≤ cw) × (1 ≤ s.1) × (s.1 ≤ ch)

scaled-Within :
    (fw fh cw ch : ℕ) → 1 ≤ fw → 1 ≤ fh → 1 ≤ cw → 1 ≤ ch → Within (scaled fw fh cw ch) cw ch
unfolding scaled
scaled-Within fw fh cw ch a b c d = elim (Bool-cases (leb fw cw && leb fh ch)) [
  | inl e ↦ rw e (ground (arith, e, a, b))
  | inr e ↦ elim (Bool-cases (leb (fh * cw) (fw * ch))) [
    | inl e' ↦
        let low : fh * cw / fw ≤ ch = div-le_of_le-mul fw (leb→le _ _ e') in
        rw (e, e') (c, omega arith, omega arith, omega (arith, low, d))
    | inr e' ↦
        let low : fw * ch / fh ≤ cw = div-le_of_le-mul fh (ground (arith, e')) in
        rw (e, e') (omega arith, omega (arith, low, c), d, omega arith)
  ]
]

-- A source coordinate lies in the frame.
below_scaled : (d f s : ℕ) → d < s → 1 ≤ f → d * f / s < f
below_scaled d f s h k = (div-lt_iff_lt-mul (omega (arith, h))).1 (grind (arith, h, k))

rows_below : (q c h : ℕ) → q < h → q * c + c ≤ c * h
rows_below q c h k = grind (arith, k)

module _ (rgba : List ℕ) (fw fh cw ch sw sh ox oy : ℕ) (size : length rgba ≡ fw * fh * 4)
    (across : ox + sw ≤ cw) (down : oy + sh ≤ ch) (fw_pos : 1 ≤ fw) (fh_pos : 1 ≤ fh) where
  -- The row read, and the row written.
  source_fits : (sy : ℕ) → sy < fh → sy * fw * 4 + fw * 4 ≤ length rgba
  source_fits sy h =
      let rows : sy * fw + fw ≤ fw * fh = grind (arith, h) in omega (arith, size, rows)

  canvas_fits : (dy : ℕ) → dy < sh → (oy + dy) * cw + cw ≤ cw * ch
  canvas_fits dy h = rows_below (oy + dy) cw ch (omega (arith, down, h))

  fit_row-Returns :
      (dy : ℕ) (out : List ℕ)
      → dy < sh
      → length out ≡ cw * ch * 4
      → Returns (λ out'. length out' ≡ cw * ch * 4) (fit_row rgba fw fh cw sw sh ox oy dy out)
  unfolding fit_row
  fit_row-Returns dy out h e =
      let sy = dy * fh / sh in
      let low : sy < fh = below_scaled dy fh sh h fh_pos in
      let source = source_fits sy low in
      let canvas = canvas_fits dy h in
      elim (Bool-cases (sw == fw)) [
        | inl same ↦
            let width : sw ≡ fw = (==_iff sw fw).0 same in
            let taken = take (fw * 4) (drop (sy * fw * 4) rgba) in
            let wide : length taken ≡ fw * 4 =
              length-take (fw * 4) (drop (sy * fw * 4) rgba)
              ∙ omega (arith, length-drop (sy * fw * 4) rgba, source) in
            let room : ((oy + dy) * cw + ox) * 4 + length taken ≤ length out =
              omega (arith, wide, width, across, canvas, e) in
            rw
              (
                same,
                slice_ok {E = Error} rgba (sy * fw * 4) (fw * 4) source,
                copy_at_ok {E = Error} out (((oy + dy) * cw + ox) * 4) taken room,
              )
              (length-overwritten out (((oy + dy) * cw + ox) * 4) taken room ∙ e)
        | inr other ↦
            let (out', done, copied) =
              copy_rows-Copied (λ dx. ((oy + dy) * cw + ox + dx) * 4)
                (λ dx. (sy * fw + dx * fw / sw) * 4) 4 rgba {E = Error} sw 0 out
                (record {
                  apart = λ r s a b c. omega arith;
                  dst_fits = λ r a b. omega (arith, across, canvas, e);
                  src_fits =
                      λ r a b. omega (arith, source, below_scaled r fw sw (omega arith) fw_pos);
                }) in
            rw (other, done) (copied.same_length ∙ e)
      ]

  fit_rows-Returns :
      (left dy : ℕ) (out : List ℕ)
      → dy + left ≤ sh
      → length out ≡ cw * ch * 4
      → Returns (λ out'. length out' ≡ cw * ch * 4) (fit_rows rgba fw fh cw sw sh ox oy left dy out)
  unfolding fit_rows
  fit_rows-Returns zero dy out h e = e
  fit_rows-Returns (suc left) dy out h e =
      Returns-bind (λ out'. length out' ≡ cw * ch * 4) (λ out'. length out' ≡ cw * ch * 4)
        (fit_row rgba fw fh cw sw sh ox oy dy out) _ (fit_row-Returns dy out (omega (arith, h)) e)
        (λ out' e'. fit_rows-Returns left (dy + 1) out' (omega (arith, h)) e')

-- What `fit` gives on a canvas with a pixel.
pub fit-Returns :
    (frame : Framebuffer) (canvas : Geometry)
    → length frame.rgba ≡ frame.width * frame.height * 4
    → 1 ≤ canvas.width
    → 1 ≤ canvas.height
    → Returns (λ out. length out ≡ canvas.width * canvas.height * 4) (fit frame canvas)
unfolding fit
fit-Returns frame canvas size wide high =
    let Whole : List ℕ → Type 0 = λ out. length out ≡ canvas.width * canvas.height * 4 in
    let blank : Whole (black_pixels (canvas.width * canvas.height)) =
      length-black_pixels (canvas.width * canvas.height) in
    Returns-if Whole (ok frame.rgba) _
      ((frame.width == canvas.width) && (frame.height == canvas.height))
      (λ same.
        let width : frame.width ≡ canvas.width = ground (arith, same) in
        let height : frame.height ≡ canvas.height = ground (arith, same) in
        size ∙ ap (λ a. a * frame.height * 4) width ∙ ap (λ b. canvas.width * b * 4) height)
      (λ _.
        Returns-if Whole (ok (black_pixels (canvas.width * canvas.height))) _
          ((frame.width == 0) || (frame.height == 0)) (λ _. blank)
          (λ some_pixels.
            let fw_pos : 1 ≤ frame.width = ground (arith, some_pixels) in
            let fh_pos : 1 ≤ frame.height = ground (arith, some_pixels) in
            let s = scaled frame.width frame.height canvas.width canvas.height in
            let fits =
              scaled-Within frame.width frame.height canvas.width canvas.height fw_pos fh_pos wide
                high in
            fit_rows-Returns frame.rgba frame.width frame.height canvas.width canvas.height (s.0)
              (s.1) ((canvas.width - s.0) / 2) ((canvas.height - s.1) / 2) size
              (omega (arith, fits)) (omega (arith, fits)) fw_pos fh_pos (s.1) 0
              (black_pixels (canvas.width * canvas.height)) (omega arith) blank))

-- A frame of any size, complete, is fitted to the video of any screen: nothing is out of range, the result
-- has the video's size, and both of the video's sides are even.
pub fit-for_screen :
    (frame : Framebuffer) (width height : ℕ)
    → length frame.rgba ≡ frame.width * frame.height * 4
    → width ≤ 65535
    → height ≤ 65535
    → ((for_screen width height).width % 2 ≡ 0)
      × ((for_screen width height).height % 2 ≡ 0)
      × Returns
          (λ out.
            length out ≡ (for_screen width height).width * (for_screen width height).height * 4)
          (fit frame (for_screen width height))
unfolding for_screen
fit-for_screen frame width height size wide high =
    let (even_w, some_w, _) = even_lem width wide in
    let (even_h, some_h, _) = even_lem height high in
    (
      even_w,
      even_h,
      fit-Returns frame (for_screen width height) size (omega (arith, some_w))
          (omega (arith, some_h)),
    )
