-- ===== src/Zrle/Tile/Packed.antt =====
-- Pixels pushed from any bytes: raw tiles and packed rows are read, or refused.
use bolide.Base.{
  ℕ, zero, suc, ◌+◌, ◌*◌, ◌/◌, ◌≤◌, ◌<◌, ◌≡◌, ltb, refl, ap, arith, List, [], ◌∷◌, ◌++◌, All,
  All-append, ok, Returns, Returns-if, length, length-append,
}
use bolide.Base.Bytes.{IsByte, index, first}
use bolide.Error.{Error}
use bolide.Proto.Format.{PixelFormat, Rgba, rgba_bytes}
use bolide.Zrle.Cursor.{Cursor, lift, take_bytes}
use bolide.Zrle.Outcome.{
  Gives, Gives-bind, Gives-weaken, Gives-lift, After, After-trans, Took, Took-After,
  take_bytes-Took,
}
use bolide.Zrle.Pixels.{read_cpixel}
use bolide.Zrle.Pixels.Total.{IsColour, Reads, read_cpixel-Reads}
use bolide.Zrle.Tile.{
  packed_bits, repeat_colour, push_run, raw_pixels, palette_entry, packed_field, packed_columns,
  packed_rows,
}

-- A colour adds four bytes.
pub rgba_bytes-IsByte : (c : Rgba) → IsColour c → All IsByte (rgba_bytes c)
rgba_bytes-IsByte c h = omega arith

pub length-repeat_colour : (n : ℕ) (c : Rgba) → length (repeat_colour n c) ≡ 4 * n
length-repeat_colour zero c = omega arith
length-repeat_colour (suc n) c = omega (arith, length-repeat_colour n c)

pub repeat_colour-IsByte : (n : ℕ) (c : Rgba) → IsColour c → All IsByte (repeat_colour n c)
repeat_colour-IsByte zero c h = tt
repeat_colour-IsByte (suc n) c h =
    (h.r_byte, (h.g_byte, (h.b_byte, (omega (arith, h.opaque), repeat_colour-IsByte n c h))))

-- The pixels gained: bytes, as many as `size` and more.
pub record Filled (size : ℕ) (px : List ℕ) : Type 0 where
  pub long : size ≤ length px
  pub bytes : All IsByte px

pub push_run-Filled :
    (px : List ℕ) (c : Rgba) (run count : ℕ)
    → All IsByte px
    → IsColour c
    → Returns (Filled (length px + 4 * run)) (push_run px c run count)
unfolding push_run
push_run-Filled px c run count h k =
    Returns-if (Filled (length px + 4 * run)) _ _ (ltb count (length px / 4 + run)) (λ _. tt)
      (λ _. record {
        long = omega (arith, length-append px (repeat_colour run c), length-repeat_colour run c);
        bytes = All-append IsByte px (repeat_colour run c) h (repeat_colour-IsByte run c k);
      })

pub palette_entry-IsColour :
    (palette : List Rgba) (idx : ℕ) (e : Error)
    → All IsColour palette
    → Returns IsColour (palette_entry palette idx e)
unfolding palette_entry
palette_entry-IsColour [] idx e h = tt
palette_entry-IsColour (c ∷ palette) zero e h = h.0
palette_entry-IsColour (c ∷ palette) (suc idx) e h = palette_entry-IsColour palette idx e h.1

-- The byte of column `col` is one of its row's bytes.
pub index-Returns :
    (xs : List ℕ) (i : ℕ) → i < length xs → (v : ℕ) × (index {E = Error} xs i ≡ ok v)
unfolding index first
index-Returns [] i h = absurd (omega arith)
index-Returns (x ∷ xs) zero h = (x, refl)
index-Returns (x ∷ xs) (suc i) h = index-Returns xs i (omega arith)

packed_field-Returns :
    (raw : List ℕ) (bits col : ℕ)
    → col * bits / 8 < length raw
    → Returns (λ _. Unit {0}) (packed_field raw bits col)
unfolding packed_field
packed_field-Returns raw bits col h =
    let (v, e) = index-Returns raw (col * bits / 8) h in rw (e, packed_field) tt

column_in_row : (col tw bits : ℕ) → col < tw → 1 ≤ bits → col * bits / 8 < (tw * bits + 7) / 8
column_in_row col tw bits h k = omega (arith, wide)
  where
    wide : col * bits + bits ≤ tw * bits
    wide = grind arith

packed_bits_pos : (n : ℕ) → 1 ≤ packed_bits n
unfolding packed_bits
packed_bits_pos n = ground arith

packed_columns-Reads :
    (palette : List Rgba) (raw : List ℕ) (bits tw col left : ℕ) (px : List ℕ) (c : Cursor)
    → All IsColour palette
    → 1 ≤ bits
    → length raw ≡ (tw * bits + 7) / 8
    → col + left ≡ tw
    → All IsByte px
    → c.pos ≤ length c.bytes
    → Gives (Reads (All IsByte) c) c (packed_columns palette raw bits col left px)
unfolding packed_columns
packed_columns-Reads palette raw bits tw col zero px c hp hb hr hc h w =
    (h, record { same_bytes = refl; forward = omega arith; within = w })
packed_columns-Reads palette raw bits tw col (suc left) px c hp hb hr hc h w =
    Gives-bind (λ _ d. Unit {0} × (d ≡ c)) _ c (lift (packed_field raw bits col)) _
      (Gives-lift (λ _. Unit) c (packed_field raw bits col)
        (packed_field-Returns raw bits col
          (omega (arith, column_in_row col tw bits (omega arith) hb))))
      (λ idx d k.
        Gives-bind (λ entry d'. IsColour entry × (d' ≡ d)) _ d (lift (palette_entry palette idx _))
          _
          (Gives-lift IsColour d (palette_entry palette idx _)
            (palette_entry-IsColour palette idx _ hp))
          (λ entry d' k'.
            rw (k'.1, k.1)
              (packed_columns-Reads palette raw bits tw (col + 1) left (px ++ rgba_bytes entry) c hp
                hb hr (omega arith)
                (All-append IsByte px (rgba_bytes entry) h (rgba_bytes-IsByte entry k'.0)) w)))

-- The cursor stands within its bytes, and stays there.
abbrev pub Within : Cursor → Type 0
Within c = c.pos ≤ length c.bytes

pub After-Within : {c c' : Cursor} → After c c' → Within c'
After-Within p = omega (arith, p.within, ap length p.same_bytes)

pub packed_rows-Reads :
    (palette : List Rgba) (tw rows : ℕ) (px : List ℕ) (c : Cursor)
    → All IsColour palette
    → All IsByte px
    → Within c
    → Gives (Reads (All IsByte) c) c (packed_rows palette tw rows px)
unfolding packed_rows
packed_rows-Reads palette tw zero px c hp h w =
    (h, record { same_bytes = refl; forward = omega arith; within = w })
packed_rows-Reads palette tw (suc rows) px c hp h w =
    let bits : ℕ = packed_bits (length palette) in
    Gives-bind (Took ((tw * bits + 7) / 8) c) _ c (take_bytes ((tw * bits + 7) / 8)) _
      (take_bytes-Took ((tw * bits + 7) / 8) c)
      (λ raw c1 t.
        Gives-bind (Reads (All IsByte) c1) _ c1 (packed_columns palette raw bits 0 tw px) _
          (packed_columns-Reads palette raw bits tw 0 tw px c1 hp (packed_bits_pos (length palette))
            t.size (omega arith) h (After-Within (Took-After t)))
          (λ px' c2 p.
            Gives-weaken (Reads (All IsByte) c2) (Reads (All IsByte) c) c2
              (packed_rows palette tw rows px')
              (packed_rows-Reads palette tw rows px' c2 hp p.0 (After-Within p.1))
              (λ out c3 q. (q.0, After-trans (Took-After t) (After-trans p.1 q.1)))))

pub raw_pixels-Reads :
    (f : PixelFormat) (count : ℕ) (px : List ℕ) (c : Cursor)
    → All IsByte px
    → Within c
    → Gives (Reads (All IsByte) c) c (raw_pixels f count px)
unfolding raw_pixels
raw_pixels-Reads f zero px c h w =
    (h, record { same_bytes = refl; forward = omega arith; within = w })
raw_pixels-Reads f (suc count) px c h w =
    Gives-bind (Reads IsColour c) _ c (read_cpixel f) _ (read_cpixel-Reads f c) (λ colour c1 p.
      Gives-weaken (Reads (All IsByte) c1) (Reads (All IsByte) c) c1
        (raw_pixels f count (px ++ rgba_bytes colour))
        (raw_pixels-Reads f count (px ++ rgba_bytes colour) c1
          (All-append IsByte px (rgba_bytes colour) h (rgba_bytes-IsByte colour p.0))
          (After-Within p.1))
        (λ out c2 q. (q.0, After-trans p.1 q.1)))
