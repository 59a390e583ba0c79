-- ===== src/Encode/Screen/Rects.antt =====
-- encode.rs: a rect of a screen is read whole, in either encoding.
use mathlib.Core.List.{append_assoc}
use bolide.Base.{
  ℕ, zero, suc, ◌+◌, ◌*◌, ◌≤◌, ◌<◌, Bool-cases, ◌||◌, ◌⊎◌, min, true, get_elem?,
  get_elem?-append_left, get_elem?-append_right, Option, none, some, List, [], ◌∷◌, ◌++◌, ok, leb,
  length, length-append, ◌≡◌, refl, sym, ap, ◌∙◌, inl, inr, arith,
}
use bolide.Error.{Error}
use bolide.Base.Bytes.{index, first}
use bolide.Proto.Format.{PixelFormat, Rgba, write_pixel, from_rgba}
use bolide.Encode.Screen.{
  Screen, pixel, saturating_add, or_black, tile_row, tile_lines, tile_pixels, raw_row, raw_lines,
  raw_rect,
}

-- A screen has four bytes for each of its pixels.
abbrev pub Complete : Screen → Type 0
Complete screen = length screen.rgba ≡ screen.width * screen.height * 4

pixel_place : (x y w h : ℕ) → x < w → y < h → y * w + x < w * h
pixel_place x y w h a b = let rows : y * w + w ≤ w * h = grind (arith, b) in omega (arith, rows, a)

-- The colour that a place has: black off the screen, and the four bytes of the pixel on it.
abbrev pub Shown : Screen → (a b : ℕ) → Rgba → Type 0
Shown screen a b c =
    (((screen.width ≤ a) ⊎ (screen.height ≤ b)) × (c ≡ record { r = 0; g = 0; b = 0; a = 255 }))
    ⊎ ((a < screen.width)
        × (b < screen.height)
        × (get_elem? screen.rgba ((b * screen.width + a) * 4) ≡ some c.r)
        × (get_elem? screen.rgba ((b * screen.width + a) * 4 + 1) ≡ some c.g)
        × (get_elem? screen.rgba ((b * screen.width + a) * 4 + 2) ≡ some c.b)
        × (get_elem? screen.rgba ((b * screen.width + a) * 4 + 3) ≡ some c.a))

index_read :
    (xs : List ℕ) (i : ℕ)
    → i < length xs
    → (v : ℕ) × (index {E = Error} xs i ≡ ok v) × (get_elem? xs i ≡ some v)
unfolding index first
index_read [] i h = absurd (omega arith)
index_read (x ∷ xs) zero h = (x, refl, refl)
index_read (x ∷ xs) (suc i) h = index_read xs i (omega arith)

off_screen :
    (screen : Screen) (x y : ℕ)
    → (leb screen.width x || leb screen.height y) ≡ true
    → (screen.width ≤ x) ⊎ (screen.height ≤ y)
off_screen screen x y e = elim (Bool-cases (leb screen.width x)) [
  | inl h ↦ inl (ground (arith, h))
  | inr h ↦ inr (ground (arith, h, e))
]

pixel_read :
    (screen : Screen) (x y : ℕ)
    → Complete screen
    → (c : Option Rgba) × (pixel screen x y ≡ ok c) × Shown screen x y (or_black c)
unfolding pixel or_black
pixel_read screen x y full = elim (Bool-cases (leb screen.width x || leb screen.height y)) [
  | inl e ↦ (none, rw (e, pixel) refl, inl (off_screen screen x y e, refl))
  | inr e ↦
      let across : x < screen.width = ground (arith, e) in
      let down : y < screen.height = ground (arith, e) in
      let place = pixel_place x y screen.width screen.height across down in
      let at = (y * screen.width + x) * 4 in
      let (r, er, gr) = index_read screen.rgba at (omega (arith, full, place)) in
      let (g, eg, gg) = index_read screen.rgba (at + 1) (omega (arith, full, place)) in
      let (b, eb, gb) = index_read screen.rgba (at + 2) (omega (arith, full, place)) in
      let (a, ea, ga) = index_read screen.rgba (at + 3) (omega (arith, full, place)) in
      (
        some (record { r = r; g = g; b = b; a = a }),
        rw (e, er, eg, eb, ea, pixel) refl,
        inr (across, down, gr, gg, gb, ga),
      )
]

-- The bytes of pixel values, one after the other.
abbrev pub written : PixelFormat → List ℕ → List ℕ
written f [] = []
written f (p ∷ px) = write_pixel f p ++ written f px

written-append :
    (f : PixelFormat) (xs ys : List ℕ) → written f (xs ++ ys) ≡ written f xs ++ written f ys
written-append f [] ys = refl
written-append f (x ∷ xs) ys =
    ap (λ q. write_pixel f x ++ q) (written-append f xs ys)
    ∙ sym (append_assoc (write_pixel f x) (written f xs) (written f ys))

module _ (screen : Screen) (f : PixelFormat) (x y : ℕ) (full : Complete screen) where
  -- The value for column `col` and row `row` of the rect at `x` and `y`, where no place is past 65535.
  abbrev pub ValueAt : (col row v : ℕ) → Type 0
  ValueAt col row v =
      (c : Rgba) × Shown screen (min (x + col) 65535) (min (y + row) 65535) c × (v ≡ from_rgba f c)

  -- The pixels of a line from `col` on, and those of the lines from `row` on.
  abbrev InLine : (row left col : ℕ) → List ℕ → Type 0
  InLine row left col px =
      (k a : ℕ) → k < left → a ≡ col + k → (v : ℕ) × (get_elem? px k ≡ some v) × ValueAt a row v

  abbrev InLines : (w left row : ℕ) → List ℕ → Type 0
  InLines w left row px =
      (k b a : ℕ)
      → k < left
      → a < w
      → b ≡ row + k
      → (v : ℕ) × (get_elem? px (k * w + a) ≡ some v) × ValueAt a b v

  next-InLine :
      (row left col v : ℕ) (px : List ℕ)
      → ValueAt col row v
      → InLine row left (col + 1) px
      → InLine row (suc left) col (v ∷ px)
  next-InLine row left col v px here rest zero a h e =
      let same : a ≡ col = omega (arith, e) in rw same (v, refl, here)
  next-InLine row left col v px here rest (suc k) a h e = rest k a (omega arith) (omega (arith, e))

  next-InLines :
      (w left row : ℕ) (line px : List ℕ)
      → length line ≡ w
      → InLine row w 0 line
      → InLines w left (row + 1) px
      → InLines w (suc left) row (line ++ px)
  next-InLines w left row line px n here rest zero b a h across e =
      let same : b ≡ row = omega (arith, e) in
      let (v, at, value) = here a a across (omega arith) in
      let front : get_elem? (line ++ px) (0 * w + a) ≡ get_elem? line a =
        ap (get_elem? (line ++ px)) (omega arith)
        ∙ get_elem?-append_left line px a (omega (arith, n, across)) in
      rw same (v, front ∙ at, value)
  next-InLines w left row line px n here rest (suc k) b a h across e =
      let (v, at, value) = rest k b a (omega arith) across (omega (arith, e)) in
      let wide : suc k * w ≡ w + k * w = grind arith in
      (
        v,
        get_elem?-append_right line px (suc k * w + a) (k * w + a) (omega (arith, n, wide)) ∙ at,
        value,
      )

  row_read :
      (row left col : ℕ)
      → (px : List ℕ) × (tile_row screen f x y row left col ≡ ok px)
        × (raw_row screen f x y row left col ≡ ok (written f px))
        × (length px ≡ left)
        × InLine row left col px
  unfolding tile_row raw_row saturating_add
  row_read row zero col = ([], refl, refl, refl, λ k a h e. absurd (omega arith))
  row_read row (suc left) col =
      let (c, e, shown) = pixel_read screen (min (x + col) 65535) (min (y + row) 65535) full in
      let (px, t, r, n, line) = row_read row left (col + 1) in
      let v = from_rgba f (or_black c) in
      (
        v ∷ px,
        rw (e, t) refl,
        rw (e, r) refl,
        omega (arith, n),
        next-InLine row left col v px (or_black c, shown, refl) line,
      )

  lines_read :
      (w left row : ℕ)
      → (px : List ℕ) × (tile_lines screen f x y w left row ≡ ok px)
        × (raw_lines screen f x y w left row ≡ ok (written f px))
        × (length px ≡ w * left)
        × InLines w left row px
  unfolding tile_lines raw_lines
  lines_read w zero row = ([], refl, refl, omega arith, λ k b a h across e. absurd (omega arith))
  lines_read w (suc left) row =
      let (line, t, r, n, here) = row_read row w 0 in
      let (rest, t', r', n', behind) = lines_read w left (row + 1) in
      let area : w + w * left ≡ w * suc left = grind arith in
      (
        line ++ rest,
        rw (t, t') refl,
        rw (r, r') (ap ok (sym (written-append f line rest))),
        length-append line rest ∙ omega (arith, n, n', area),
        next-InLines w left row line rest n here behind,
      )

  -- From a complete screen any rect is read, on the screen or off it. `tile_pixels` gives as many values
  -- as it has pixels, row by row, and `raw_rect` writes out the same values. Each is the value in the
  -- client's format of what the screen has at the rect's place plus the column and the row, with the sums
  -- held at 65535: the four bytes of that pixel, or black where it is off the screen.
  pub tile_pixels-raw_rect :
      (w h : ℕ)
      → (px : List ℕ) × (tile_pixels screen f x y w h ≡ ok px)
        × (raw_rect screen f x y w h ≡ ok (written f px))
        × (length px ≡ w * h)
        × ((row col : ℕ)
            → row < h
            → col < w
            → (v : ℕ) × (get_elem? px (row * w + col) ≡ some v) × ValueAt col row v)
  unfolding tile_pixels raw_rect
  tile_pixels-raw_rect w h =
      let (px, t, r, n, lines) = lines_read w h 0 in
      (px, t, r, n, λ row col a b. lines row row col a b (omega arith))
