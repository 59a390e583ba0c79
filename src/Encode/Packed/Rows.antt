-- ===== src/Encode/Packed/Rows.antt =====
-- encode.rs: the rows of a packed tile one after the other, and the loop of zrle.rs that reads them.
use mathlib.Core.List.{append_assoc, append-nil}
use bolide.Base.{
  ℕ, zero, suc, ◌+◌, ◌*◌, ◌/◌, ◌^◌, ◌≤◌, ◌==◌, false, List, [], ◌∷◌, ◌++◌, All, map, ok, length,
  length-take, length-drop, length-map, take, drop, take-append-drop, ◌≡◌, refl, sym, ap, ◌∙◌,
  arith,
}
use bolide.Proto.Format.{PixelFormat, Rgba, to_rgba}
use bolide.Zrle.Cursor.{take_bytes}
use bolide.Zrle.Tile.{packed_bits, packed_columns, packed_rows}
use bolide.Encode.{pack_row, pack_rows, pack_chunks}
use bolide.Encode.Palette.{Names}
use bolide.Encode.Stream.{Decodes, Decodes-bind, Decodes-take, Decodes-pure}
use bolide.Encode.Pixels.{paints, paints-append}
use bolide.Encode.Packed.{row_read}
use bolide.Encode.Packed.Fields.{Width}

module _ (P : ℕ → Type 0) where
  All-take : (n : ℕ) (xs : List ℕ) → All P xs → All P (take n xs)
  All-take zero xs h = tt
  All-take (suc n) [] h = tt
  All-take (suc n) (x ∷ xs) h = (h.0, All-take n xs h.1)

  All-drop : (n : ℕ) (xs : List ℕ) → All P xs → All P (drop n xs)
  All-drop zero xs h = h
  All-drop (suc n) [] h = tt
  All-drop (suc n) (x ∷ xs) h = All-drop n xs h.1

module _ (palette : List ℕ) (bits w fuel : ℕ) where
  rows-nil : pack_rows palette bits w fuel [] ≡ ok []
  unfolding pack_rows
  rows-nil = refl

  rows_more :
      (px : List ℕ) {row rest : List ℕ}
      → 1 ≤ length px
      → pack_row palette bits 0 0 (take w px) ≡ ok row
      → pack_rows palette bits w fuel (drop w px) ≡ ok rest
      → pack_rows palette bits w (suc fuel) px ≡ ok (row ++ rest)
  unfolding pack_rows
  rows_more [] h e e' = absurd (omega arith)
  rows_more (p ∷ px) h e e' = rw e (rw e' refl)

module _ (f : PixelFormat) (palette : List ℕ) (bits : ℕ) (width : Width bits)
    (few : length palette ≤ 2 ^ bits) (agree : packed_bits (length palette) ≡ bits) where
  abbrev colours : List Rgba
  colours = map (to_rgba f) palette

  abbrev Painted : (w h : ℕ) → List ℕ → List ℕ → Type 0
  Painted w h px bytes =
      (acc t : List ℕ) → Decodes (packed_rows colours w h acc) (bytes ++ t) (acc ++ paints f px) t

  no_rows : (w : ℕ) → Painted w 0 [] []
  unfolding packed_rows
  no_rows w acc t = rw (append-nil acc) (Decodes-pure acc t)

  Painted-rows :
      (w h : ℕ) (px row rest : List ℕ)
      → length row ≡ (w * bits + 7) / 8
      → ((acc t : List ℕ)
          → Decodes (packed_columns colours row bits 0 w acc) t (acc ++ paints f (take w px)) t)
      → Painted w h (drop w px) rest
      → Painted w (suc h) px (row ++ rest)
  unfolding packed_rows
  Painted-rows w h px row rest size read read' acc t =
      let agree' : packed_bits (length colours) ≡ bits =
        ap packed_bits (length-map (to_rgba f) palette) ∙ agree in
      let split : acc ++ paints f px ≡ (acc ++ paints f (take w px)) ++ paints f (drop w px) =
        ap (λ q. acc ++ paints f q) (sym (take-append-drop w px))
        ∙ ap (λ q. acc ++ q) (paints-append f (take w px) (drop w px))
        ∙ sym (append_assoc acc (paints f (take w px)) (paints f (drop w px))) in
      rw (append_assoc row rest t, split, agree')
        (Decodes-bind (take_bytes ((w * bits + 7) / 8)) _ (Decodes-take row (rest ++ t) _ size) (
          Decodes-bind (packed_columns colours row bits 0 w acc) _ (read acc (rest ++ t))
            (read' (acc ++ paints f (take w px)) t)))

  rows_read :
      (w h fuel : ℕ) (px : List ℕ)
      → 1 ≤ w
      → length px ≡ w * h
      → length px ≤ fuel
      → All (Names palette) px
      → (bytes : List ℕ) × (pack_rows palette bits w fuel px ≡ ok bytes) × Painted w h px bytes
  rows_read w zero fuel [] wide area enough named = ([], rows-nil palette bits w fuel, no_rows w)
  rows_read w zero fuel (p ∷ px) wide area enough named = absurd (omega (arith, area))
  rows_read w (suc h) zero px wide area enough named =
      let long : length px ≡ w + w * h = area ∙ grind arith in
      absurd (omega (arith, long, wide, enough))
  rows_read w (suc h) (suc fuel) px wide area enough named =
      let long : length px ≡ w + w * h = area ∙ grind arith in
      let whole : length (take w px) ≡ w = length-take w px ∙ omega (arith, long) in
      let left : length (drop w px) ≡ w * h = length-drop w px ∙ omega (arith, long) in
      let (row, written, size, read) =
        row_read f palette bits width few (take w px) w whole (All-take _ w px named) in
      let (rest, written', read') =
        rows_read w h fuel (drop w px) wide left (omega (arith, left, long))
          (All-drop _ w px named) in
      (
        row ++ rest,
        rows_more palette bits w fuel px (omega (arith, long)) written written',
        Painted-rows w h px row rest size read read',
      )

  -- The chunks of a tile `w` wide, read as its `h` rows.
  pub chunks_read :
      (w h : ℕ) (px : List ℕ)
      → 1 ≤ w
      → length px ≡ w * h
      → All (Names palette) px
      → (bytes : List ℕ) × (pack_chunks palette bits w px ≡ ok bytes)
        × ((t : List ℕ)
            → Decodes (packed_rows (map (to_rgba f) palette) w h []) (bytes ++ t) (paints f px) t)
  unfolding pack_chunks
  chunks_read w h px wide area named =
      let some_columns : (w == 0) ≡ false = ground arith in
      let (bytes, written, read) = rows_read w h (length px) px wide area (omega arith) named in
      (bytes, rw some_columns written, λ t. read [] t)
