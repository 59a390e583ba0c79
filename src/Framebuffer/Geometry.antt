-- ===== src/Framebuffer/Geometry.antt =====
-- Offsets of rows and pixels inside a framebuffer of `width * height` pixels of four bytes.
use bolide.Base.{ℕ, ◌+◌, ◌-◌, ◌*◌, ◌≤◌, ◌<◌, ◌≡◌, ◌⊎◌, inl, inr, ap, arith, dec_lt}

-- The bytes `(py * width + px) * 4` to `+ 3` are those of pixel (px, py).
abbrev pub offset : ℕ → ℕ → ℕ → ℕ → ℕ
offset width px py c = (py * width + px) * 4 + c

pub row_end : (width a b : ℕ) → a < b → a * (width * 4) + width * 4 ≤ b * (width * 4)
row_end width a b h = grind arith

module _ (width x y w : ℕ) (x_fits : x + w ≤ width) where
  pub rows_apart :
      (r s : ℕ) → r < s → (y + r) * (width * 4) + x * 4 + w * 4 ≤ (y + s) * (width * 4) + x * 4
  rows_apart r s h = omega (arith, row_end width (y + r) (y + s) (omega arith))

  pub row_fits :
      (height r : ℕ) → y + r < height → (y + r) * (width * 4) + x * 4 + w * 4 ≤ width * height * 4
  row_fits height r h = omega (arith, row_end width (y + r) height h)

  -- A byte of pixel (px, py) is at its column's place in row `py - y` of the rectangle ...
  pub offset_inside :
      (px py c : ℕ)
      → x ≤ px
      → y ≤ py
      → offset width px py c ≡ (y + (py - y)) * (width * 4) + x * 4 + ((px - x) * 4 + c)
  offset_inside px py c hx hy =
      let e : y + (py - y) ≡ py = omega arith in omega (arith, ap (λ t. t * width) e)

  -- ... and outside the rectangle it is in none of the rows.
  pub offset_outside :
      (px py c r : ℕ)
      → px < width
      → c < 4
      → (y + r ≡ py → (px < x) ⊎ (x + w ≤ px))
      → (offset width px py c < (y + r) * (width * 4) + x * 4)
        ⊎ ((y + r) * (width * 4) + x * 4 + w * 4 ≤ offset width px py c)
  offset_outside px py c r hx hc out = elim (dec_lt py (y + r)) [
    | yes above ↦ inl (omega (arith, row_end width py (y + r) above))
    | no not_above ↦ elim (dec_lt (y + r) py) [
      | yes below ↦ inr (omega (arith, row_end width (y + r) py below))
      | no not_below ↦ beside (omega arith)
    ]
  ]
    where
      beside :
          y + r ≡ py
          → (offset width px py c < (y + r) * (width * 4) + x * 4)
            ⊎ ((y + r) * (width * 4) + x * 4 + w * 4 ≤ offset width px py c)
      beside e = elim (out e) [
        | inl left ↦ inl (omega (arith, ap (λ t. t * width) e))
        | inr right ↦ inr (omega (arith, ap (λ t. t * width) e))
      ]

pub packed_row_fits : (w h r : ℕ) → r < h → r * w * 4 + w * 4 ≤ w * h * 4
packed_row_fits w h r k = grind arith

pub packed_rows_apart : (w r s : ℕ) → r < s → r * w * 4 + w * 4 ≤ s * w * 4
packed_rows_apart w r s k = grind arith
