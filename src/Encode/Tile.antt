-- ===== src/Encode/Tile.antt =====
-- encode.rs: a tile that a server encodes, decoded by zrle.rs.
use mathlib.Core.List.{append_assoc}
use bolide.Base.{
  ℕ, ◌+◌, ◌*◌, ◌%◌, ◌^◌, ◌≤◌, ◌==◌, ==_iff, leb, ◌&&◌, true, Bool-cases, some, List, [], ◌∷◌, ◌++◌,
  All, map, Result, ok, length, ◌≡◌, refl, sym, ap, ◌∙◌, inl, inr, arith,
}
use bolide.Base.Bytes.{index, first}
use bolide.Error.{Error}
use bolide.Proto.Format.{PixelFormat, Rgba, to_rgba}
use bolide.Zrle.Cursor.{Decoder, ◌>>=◌, take_u8}
use bolide.Zrle.Pixels.{read_cpixel, read_palette}
use bolide.Zrle.Tile.{
  decode_body, decode_tile, packed_bits, packed_rows, plain_rle, palette_rle, repeat_colour,
}
use bolide.Encode
use bolide.Encode.{
  ZrleTiling, choose, encode_as, encode_tile, expect, index_bits, is_some, palette_of, runs_of,
  write_cpixel, write_cpixels,
}
use bolide.Encode.Stream.{Decodes, Decodes-bind, Decodes-pure, Decodes-u8}
use bolide.Encode.Pixels.{Packs, Decodes-cpixel, Decodes-palette, paints, length-paints}
use bolide.Encode.Palette.{palette_of-Names, All-palette_of}
use bolide.Encode.Runs.{spread, spread-runs_of}
use bolide.Encode.Runs.Plain.{Room, plain-Runs_read}
use bolide.Encode.Runs.Indexed.{entries_read}
use bolide.Encode.Packed.Fields.{Width}
use bolide.Encode.Packed.Rows.{chunks_read}
use bolide.Encode.Forms.{Fits, choose-Fits, palette_of_nonempty, paints_solid, single, raw_read}

module _ (f : PixelFormat) (n w h : ℕ) where
  body_packed :
      2 ≤ n
      → n ≤ 16
      → decode_body f n w h ≡ (do palette ← read_palette f n; packed_rows palette w h [])
  unfolding decode_body
  body_packed low high = ground arith

  body_rle :
      2 ≤ n
      → n ≤ 127
      → decode_body f (128 + n) w h
        ≡ (do palette ← read_palette f n; palette_rle palette (w * h + 1) (w * h) [])
  unfolding decode_body
  body_rle low high = ground arith

-- The widths of a packed index, in the server and in the client.
index_bits_lem :
    (n : ℕ)
    → is_some (index_bits n) ≡ true
    → (bits : ℕ) × (index_bits n ≡ some bits)
      × (packed_bits n ≡ bits)
      × Width bits
      × (n ≤ 2 ^ bits)
      × (2 ≤ n)
      × (n ≤ 16)
unfolding index_bits is_some packed_bits
index_bits_lem n h = elim (Bool-cases (n == 2)) [
  | inl e ↦ (
    1,
    ground arith,
    ground arith,
    inl refl,
    omega (arith, (==_iff n 2).0 e),
    omega (arith, (==_iff n 2).0 e),
    omega (arith, (==_iff n 2).0 e),
  )
  | inr e ↦ elim (Bool-cases (leb 3 n && leb n 4)) [
    | inl e' ↦
        let low : 3 ≤ n = ground arith in
        let high : n ≤ 4 = ground arith in
        (
          2,
          ground arith,
          ground arith,
          inr (inl refl),
          high,
          omega (arith, low),
          omega (arith, high),
        )
    | inr e' ↦
        let low : 5 ≤ n = ground arith in
        let high : n ≤ 16 = ground arith in
        (4, ground arith, ground arith, inr (inr refl), high, omega (arith, low), high)
  ]
]

module _ (f : PixelFormat) (px : List ℕ) (w h : ℕ) (wide : 1 ≤ w) (area : length px ≡ w * h)
    (packs : All (Packs f) px) where
  -- A subencoding byte and a body that the client reads as the pixels.
  abbrev Written : Result Error (List ℕ) → Type 0
  Written r =
      (sub : ℕ) × (body : List ℕ) × (r ≡ ok (sub ∷ body))
      × ((t : List ℕ) → Decodes (decode_body f sub w h) (body ++ t) (paints f px) t)

  behind_palette :
      (palette rest : List ℕ) (k : List Rgba → Decoder (List ℕ)) (t : List ℕ)
      → All (Packs f) palette
      → Decodes (k (map (to_rgba f) palette)) (rest ++ t) (paints f px) t
      → Decodes
          (do colours ← read_palette f (length palette); k colours)
          ((write_cpixels f palette ++ rest) ++ t)
          (paints f px)
          t
  behind_palette palette rest k t named read = rw (append_assoc (write_cpixels f palette) rest t) (
      Decodes-bind (read_palette f (length palette)) k (Decodes-palette f palette (rest ++ t) named)
        read)

  Written-raw : Written (ok (0 ∷ write_cpixels f px))
  unfolding decode_body
  Written-raw = (0, write_cpixels f px, refl, λ t. rw (sym area) (raw_read f px [] t packs))

  Written-solid : length (palette_of px) ≡ 1 → Written (encode_as Encode.solid f px w)
  unfolding encode_as index first decode_body
  Written-solid one =
      let (c, e) = single (palette_of px) one in
      let named = rw e at (palette_of-Names px (omega (arith, one))) in
      let pack = rw e at (All-palette_of (Packs f) px packs) in
      (
        1,
        write_cpixel f c,
        rw e refl,
        λ t.
            rw (sym area, ← paints_solid f c px named)
              (Decodes-bind (read_cpixel f) _ (Decodes-cpixel f c t pack.0)
                (Decodes-pure (repeat_colour (length px) (to_rgba f c)) t)),
      )

  Written-packed :
      is_some (index_bits (length (palette_of px))) ≡ true
      → Written (encode_as Encode.packed_palette f px w)
  unfolding encode_as expect
  Written-packed some_bits =
      let palette = palette_of px in
      let (bits, e, agree, width, few, two, sixteen) = index_bits_lem (length palette) some_bits in
      let (bytes, written, read) =
        chunks_read f palette bits width few agree w h px wide area
          (palette_of-Names px (omega (arith, sixteen))) in
      let low : length palette % 256 ≡ length palette = omega (arith, sixteen) in
      (
        length palette,
        write_cpixels f palette ++ bytes,
        rw (e, written, low) refl,
        λ t. rw (body_packed f (length palette) w h two sixteen) (
            behind_palette palette bytes (λ p. packed_rows p w h []) t
              (All-palette_of (Packs f) px packs) (read t)),
      )

  first-Room : (runs : List (ℕ × ℕ)) → spread runs ≡ px → Room [] runs (w * h + 1) (w * h)
  first-Room runs same = record {
    fills = omega (arith, ap length same, area);
    rounds = omega (arith, ap length same, area);
  }

  read_as :
      (m : Decoder (List ℕ)) (s t : List ℕ) {out : List ℕ}
      → out ≡ px
      → Decodes m s (paints f out) t
      → Decodes m s (paints f px) t
  read_as m s t same h = rw (sym same) h

  Written-plain : Written (encode_as Encode.plain_rle f px w)
  unfolding encode_as decode_body
  Written-plain =
      let (same, some_pixels) = spread-runs_of px in
      let (bytes, written, read) = plain-Runs_read f (runs_of px) some_pixels (rw same packs) in
      (
        128,
        bytes,
        rw written refl,
        λ t.
            read_as (plain_rle f (w * h + 1) (w * h) []) (bytes ++ t) t same
              (read (w * h + 1) (w * h) [] t (first-Room (runs_of px) same)),
      )

  Written-rle :
      Fits Encode.palette_rle (length (palette_of px))
      → Written (encode_as Encode.palette_rle f px w)
  unfolding encode_as expect
  Written-rle (low, high) =
      let palette = palette_of px in
      let (same, some_pixels) = spread-runs_of px in
      let named = palette_of-Names px (omega (arith, high)) in
      let (bytes, written, read) =
        entries_read f palette high (runs_of px) some_pixels (rw same named) in
      let sub : (128 + length palette % 256) % 256 ≡ 128 + length palette = omega (arith, high) in
      (
        128 + length palette,
        write_cpixels f palette ++ bytes,
        rw (written, sub) refl,
        λ t. rw (body_rle f (length palette) w h low high) (
            behind_palette palette bytes (λ p. palette_rle p (w * h + 1) (w * h) []) t
              (All-palette_of (Packs f) px packs)
              (read_as (palette_rle (map (to_rgba f) palette) (w * h + 1) (w * h) []) (bytes ++ t) t
                same (read (w * h + 1) (w * h) [] t (first-Room (runs_of px) same)))),
      )

  Written-form :
      (form : ZrleTiling) → Fits form (length (palette_of px)) → Written (encode_as form f px w)
  unfolding encode_as
  Written-form Encode.auto h = Written-raw
  Written-form Encode.raw h = Written-raw
  Written-form Encode.solid h = Written-solid h
  Written-form Encode.packed_palette h = Written-packed h
  Written-form Encode.plain_rle h = Written-plain
  Written-form Encode.palette_rle h = Written-rle h

-- A tile of `w * h` pixels, one at least, that a CPIXEL of the format carries whole is encoded, in
-- whatever tiling, and from any bytes that begin with the encoding the client reads the colours of
-- those pixels, and stands behind it.
pub decode_tile-encode_tile :
    (px : List ℕ) (w h : ℕ) (tiling : ZrleTiling) (f : PixelFormat)
    → 1 ≤ w
    → 1 ≤ h
    → length px ≡ w * h
    → All (Packs f) px
    → (bytes : List ℕ) × (encode_tile px w tiling f ≡ ok bytes)
      × ((t : List ℕ) → Decodes (decode_tile f w h) (bytes ++ t) (paints f px) t)
unfolding encode_tile decode_tile
decode_tile-encode_tile px w h tiling f wide high area packs =
    let pixels : 1 ≤ length px = grind (arith, wide, high, area) in
    let form = choose tiling (length (palette_of px)) (length (runs_of px)) (length px) in
    let (sub, body, written, read) = Written-form f px w h wide area packs form (
      choose-Fits tiling (length (palette_of px)) (length (runs_of px)) (length px)
        (palette_of_nonempty px pixels)) in
    (
      sub ∷ body,
      written,
      λ t.
          let filled : (length (paints f px) == w * h * 4) ≡ true =
            (==_iff _ _).1 (length-paints f px ∙ ap (λ n. n * 4) area) in
          Decodes-bind take_u8 _ (Decodes-u8 sub (body ++ t)) (
            Decodes-bind (decode_body f sub w h) _ (read t)
              (rw filled (Decodes-pure (paints f px) t))),
    )
