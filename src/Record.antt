-- ===== src/Record.antt =====
-- crates/bolide-cli/src/record.rs: the size of a video, and a frame fitted to it. ffmpeg is left out.
pub mod Fitted
pub mod Loop
use bolide.Base.{
  ℕ, zero, suc, ◌+◌, ◌-◌, ◌*◌, ◌/◌, ◌%◌, max, Bool, true, false, ◌&&◌, ◌||◌, List, [], ◌∷◌, ◌++◌,
  Result, ok, ◌>>=◌, leb, ◌==◌, if◌then◌else◌,
}
use bolide.Base.Bytes.{slice, copy_at}
use bolide.Error.{Error}
use bolide.Framebuffer.{Framebuffer}
use bolide.Rows.{copy_rows}

pub record Geometry : Type 0 where
  pub width : ℕ
  pub height : ℕ

-- `u16::MAX` has no even number above it.
unfoldable pub even : ℕ → ℕ
even side = if leb side 1 then 2 else if side == 65535 then 65534 else side + side % 2

unfoldable pub for_screen : ℕ → ℕ → Geometry
for_screen width height = record { width = even width; height = even height }

-- `[0, 0, 0, 255].repeat(n)`
unfoldable pub black_pixels : ℕ → List ℕ
black_pixels zero = []
black_pixels (suc n) = 0 ∷ 0 ∷ 0 ∷ 255 ∷ black_pixels n

-- The size of the frame on the canvas.
unfoldable pub scaled : (fw fh cw ch : ℕ) → ℕ × ℕ
scaled fw fh cw ch =
    if leb fw cw && leb fh ch
    then (fw, fh)
    else if leb (fh * cw) (fw * ch)
    then (cw, max (fh * cw / fw) 1)
    else (max (fw * ch / fh) 1, ch)

module _ (rgba : List ℕ) (fw fh cw sw sh ox oy : ℕ) where
  -- One round of the loop over `dy`.
  unfoldable pub fit_row : ℕ → List ℕ → Result Error (List ℕ)
  fit_row dy out =
      let sy = dy * fh / sh in
      let row = (oy + dy) * cw in
      if sw == fw
      then (do taken ← slice rgba (sy * fw * 4) (fw * 4); copy_at out ((row + ox) * 4) taken)
      else copy_rows (λ dx. (row + ox + dx) * 4) (λ dx. (sy * fw + dx * fw / sw) * 4) 4 sw 0 rgba
          out

  unfoldable pub fit_rows : ℕ → ℕ → List ℕ → Result Error (List ℕ)
  fit_rows zero dy out = ok out
  fit_rows (suc left) dy out = do out' ← fit_row dy out; fit_rows left (dy + 1) out'

unfoldable pub fit : Framebuffer → Geometry → Result Error (List ℕ)
fit frame canvas =
    let (sw, sh) = scaled frame.width frame.height canvas.width canvas.height in
    if (frame.width == canvas.width) && (frame.height == canvas.height)
    then ok frame.rgba
    else if (frame.width == 0) || (frame.height == 0)
    then ok (black_pixels (canvas.width * canvas.height))
    else fit_rows frame.rgba frame.width frame.height canvas.width sw sh ((canvas.width - sw) / 2)
        ((canvas.height - sh) / 2) sh 0 (black_pixels (canvas.width * canvas.height))
