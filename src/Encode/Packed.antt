-- ===== src/Encode/Packed.antt =====
-- encode.rs: the rows of a packed tile, and the loops of zrle.rs that read them.
pub mod Fields
pub mod Rows
use mathlib.Core.List.{append_assoc, append-nil}
use native.Mathlib.Nat.{zero-mod}
use bolide.Base.{
  ℕ, zero, suc, ◌+◌, ◌-◌, ◌*◌, ◌/◌, ◌%◌, ◌^◌, ◌≤◌, ◌<◌, lt→ltb, ltb, ◌==◌, ==_iff, ==-ne, Bool,
  true, false, Bool-cases, Option, none, some, List, [], ◌∷◌, ◌++◌, All, map, Result, ok, length,
  length-append, get_elem?, position, ◌≡◌, refl, sym, ap, ◌∙◌, inl, inr, arith, bit_or,
}
use bolide.Proto.Format.{PixelFormat, Rgba, to_rgba, rgba_bytes}
use bolide.Error.{Error, protocol, packed_index}
use bolide.Zrle.Cursor.{Decoder, ◌>>=◌, pure, lift, take_bytes}
use bolide.Zrle.Tile.{palette_entry, packed_field, packed_columns}
use bolide.Encode.{expect, pack_row}
use bolide.Encode.Palette.{Names, position_found}
use bolide.Encode.Stream.{Decodes, Decodes-bind, Decodes-lift, Decodes-pure}
use bolide.Encode.Pixels.{paints}
use bolide.Encode.Runs.Indexed.{entry_colour}
use bolide.Encode.Packed.Fields.{
  Width, Slot, Slot-fits, Slot-next, joined, joined_small, joined_push, byte_begins, padded_begins,
  packed_field_found,
}

-- The first of the bytes goes on from the bits in use.
abbrev Begins : List ℕ → (acc used : ℕ) → Type 0
Begins [] acc used = used ≡ 0
Begins (b ∷ bytes) acc used = b / 2 ^ (8 - used) ≡ acc

module _ (f : PixelFormat) (palette : List ℕ) (bits : ℕ) (width : Width bits)
    (few : length palette ≤ 2 ^ bits) where
  abbrev colours : List Rgba
  colours = map (to_rgba f) palette

  -- A row's bytes, read behind those of the columns before it.
  abbrev Columns : (used : ℕ) (row bytes : List ℕ) → Type 0
  Columns used row bytes =
      (pre acc t : List ℕ) (col : ℕ)
      → col * bits ≡ 8 * length pre + used
      → Decodes (packed_columns colours (pre ++ bytes) bits col (length row) acc) t
          (acc ++ paints f row) t

  record Row (acc used : ℕ) (row : List ℕ) (bytes : List ℕ) : Type 0 where
    begins : Begins bytes acc used
    size : length bytes ≡ (used + length row * bits + 7) / 8
    reads : Columns used row bytes

  abbrev Packed : Result Error (List ℕ) → (acc used : ℕ) → List ℕ → Type 0
  Packed r acc used row = (bytes : List ℕ) × (r ≡ ok bytes) × Row acc used row bytes

  row_end :
      (acc used : ℕ)
      → acc < 2 ^ used
      → used < 8
      → Packed (pack_row palette bits acc used []) acc used []
  unfolding pack_row packed_columns
  row_end acc zero h small = (
    [],
    refl,
    record {
      begins = refl;
      size = omega arith;
      reads = λ pre px t col at. rw (append-nil px) (Decodes-pure px t);
    },
  )
  row_end acc (suc used) h small =
      let s = acc * 2 ^ (8 - suc used) % 256 in
      (
        s ∷ [],
        rw (lt→ltb 0 (suc used) (omega arith)) refl,
        record {
          begins = padded_begins acc (suc used) small h;
          size = omega arith;
          reads = λ pre px t col at. rw (append-nil px) (Decodes-pure px t);
        },
      )

  -- One column, and those behind it.
  column_read :
      (acc used idx b p : ℕ) (row rest : List ℕ)
      → Slot bits used
      → idx < 2 ^ bits
      → b / 2 ^ (8 - (used + bits)) ≡ joined bits acc idx
      → get_elem? palette idx ≡ some p
      → ((pre px t : List ℕ) (col : ℕ)
          → col * bits ≡ 8 * length pre + (used + bits)
          → Decodes
              (packed_columns colours (pre ++ b ∷ rest) bits col (length row) px)
              t
              (px ++ paints f row)
              t)
      → Columns used (p ∷ row) (b ∷ rest)
  unfolding packed_columns
  column_read acc used idx b p row rest slot k e there more pre px t col at =
      let found =
        packed_field_found pre rest bits used acc idx col b width slot.0
          (Slot-fits bits used width slot) k e at in
      let error = protocol (packed_index idx (length colours)) in
      let next : (col + 1) * bits ≡ 8 * length pre + (used + bits) = grind (arith, at) in
      rw (← append_assoc px (rgba_bytes (to_rgba f p)) (paints f row)) (
        Decodes-bind (lift (packed_field (pre ++ b ∷ rest) bits col)) _
          (Decodes-lift (packed_field (pre ++ b ∷ rest) bits col) idx t found)
          (Decodes-bind (lift (palette_entry colours idx error)) _
            (Decodes-lift (palette_entry colours idx error) (to_rgba f p) t
              (entry_colour f palette idx p error there))
            (more pre (px ++ rgba_bytes (to_rgba f p)) t (col + 1) next)))

  push_full :
      (acc used idx p : ℕ) (row rest : List ℕ)
      → position palette p ≡ some idx
      → used + bits ≡ 8
      → pack_row palette bits 0 0 row ≡ ok rest
      → pack_row palette bits acc used (p ∷ row)
        ≡ ok (bit_or (acc * 2 ^ bits % 256) (idx % 256) ∷ rest)
  unfolding pack_row expect
  push_full acc used idx p row rest at full e =
      rw (at, (==_iff (used + bits) 8).1 full, pack_row) (rw e refl)

  push_part :
      (acc used idx p : ℕ) (row : List ℕ)
      → position palette p ≡ some idx
      → (used + bits == 8) ≡ false
      → pack_row palette bits acc used (p ∷ row)
        ≡ pack_row palette bits (bit_or (acc * 2 ^ bits % 256) (idx % 256)) (used + bits) row
  unfolding pack_row expect
  push_part acc used idx p row at part = rw (at, part, pack_row) refl

  width_pos : 1 ≤ bits
  width_pos = elim width [
    | inl e ↦ omega arith
    | inr (inl e) ↦ omega arith
    | inr (inr e) ↦ omega arith
  ]

  Row-begun :
      (acc used idx p : ℕ) (row bytes : List ℕ)
      → Slot bits used
      → idx < 2 ^ bits
      → get_elem? palette idx ≡ some p
      → Row (joined bits acc idx) (used + bits) row bytes
      → Row acc used (p ∷ row) bytes
  Row-begun acc used idx p row [] slot small there r = absurd (omega (arith, r.begins, width_pos))
  Row-begun acc used idx p row (b ∷ rest) slot small there r =
      let wide : length (p ∷ row) * bits ≡ bits + length row * bits = grind arith in
      record {
        begins = byte_begins bits used acc idx b small (Slot-fits bits used width slot) r.begins;
        size = omega (arith, r.size, wide);
        reads = column_read acc used idx b p row rest slot small r.begins there r.reads;
      }

  row-Packed :
      (acc used : ℕ) (row : List ℕ)
      → Slot bits used
      → acc < 2 ^ used
      → All (Names palette) row
      → Packed (pack_row palette bits acc used row) acc used row
  row-Packed acc used [] slot h named = row_end acc used h slot.0
  row-Packed acc used (p ∷ row) slot h named =
      let (idx, at, below, there) = position_found palette p named.0 in
      let fits = Slot-fits bits used width slot in
      let small : idx < 2 ^ bits = omega (arith, below, few) in
      let push = joined_push bits used acc idx h small fits in
      let wide : length (p ∷ row) * bits ≡ bits + length row * bits = grind arith in
      elim (Bool-cases (used + bits == 8)) [
        | inl e ↦
            let full : used + bits ≡ 8 = (==_iff (used + bits) 8).0 e in
            let (rest, written, r) =
              row-Packed 0 0 row (omega arith, zero-mod bits) (omega arith) named.1 in
            let b = joined bits acc idx in
            let whole : b / 2 ^ (8 - (used + bits)) ≡ b = rw full (omega arith) in
            (
              b ∷ rest,
              push_full acc used idx p row rest at full written ∙ ap (λ q. ok (q ∷ rest)) push,
              record {
                begins = byte_begins bits used acc idx b small fits whole;
                size = omega (arith, r.size, wide, full);
                reads =
                    column_read acc used idx b p row rest slot small whole there
                      (λ pre px t col at'. rw (← append_assoc pre (b ∷ []) rest) (
                        r.reads (pre ++ b ∷ []) px t col
                          (omega (arith, at', full, length-append pre (b ∷ [])))));
              },
            )
        | inr e ↦
            let (bytes, written, r) =
              row-Packed (joined bits acc idx) (used + bits) row
                (Slot-next bits used width slot (omega (arith, fits, ==-ne (used + bits) 8 e)))
                (joined_small bits used acc idx h small fits) named.1 in
            (
              bytes,
              push_part acc used idx p row at e
                  ∙ ap (λ q. pack_row palette bits q (used + bits) row) push
                  ∙ written,
              Row-begun acc used idx p row bytes slot small there r,
            )
      ]

  -- The decoder's columns of a row are the pixels that were packed.
  pub row_read :
      (row : List ℕ) (w : ℕ)
      → length row ≡ w
      → All (Names palette) row
      → (bytes : List ℕ) × (pack_row palette bits 0 0 row ≡ ok bytes)
        × (length bytes ≡ (w * bits + 7) / 8)
        × ((px t : List ℕ)
            → Decodes
                (packed_columns (map (to_rgba f) palette) bytes bits 0 w px)
                t
                (px ++ paints f row)
                t)
  row_read row w wide named =
      let (bytes, written, r) =
        row-Packed 0 0 row (omega arith, zero-mod bits) (omega arith) named in
      rw (sym wide) (bytes, written, omega (arith, r.size), λ px t. r.reads [] px t 0 (omega arith))
