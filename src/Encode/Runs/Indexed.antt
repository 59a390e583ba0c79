-- ===== src/Encode/Runs/Indexed.antt =====
-- encode.rs: RLE over a palette, and the loop of zrle.rs that reads it.
use mathlib.Core.Option
use mathlib.Core.List.{append_assoc, append-nil}
use bolide.Base.{
  ℕ, zero, suc, ◌+◌, ◌*◌, ◌%◌, ◌≤◌, ◌<◌, lt→ltb, ◌==◌, ==_iff, bit_and, bit_or, false, Bool-cases,
  some, List, [], ◌∷◌, ◌++◌, All, map, Result, ok, length, get_elem?, ◌≡◌, refl, ap, ◌∙◌, inl, inr,
  arith,
}
use bolide.Base.Bits.{bit_and_127, bit_and_128, bit_or-disjoint_left}
use bolide.Proto.Format.{PixelFormat, Rgba, to_rgba}
use bolide.Error.{Error, protocol, rle_index}
use bolide.Zrle.Cursor.{◌>>=◌, lift, take_u8}
use bolide.Zrle.Pixels.{read_run_length}
use bolide.Zrle.Tile.{push_run, rle_entry, palette_entry, palette_rle, repeat_colour}
use bolide.Encode.{expect, write_entry, write_entries}
use bolide.Encode.Palette.{Names, position_found}
use bolide.Encode.Stream.{Decodes, Decodes-bind, Decodes-lift, Decodes-pure, Decodes-u8}
use bolide.Encode.Pixels.{paints}
use bolide.Encode.Runs.{spread, Runs, run_length_read}
use bolide.Encode.Runs.Plain.{
  not_ltb, Decodes-push, All-spread_head, Room, Room-next, paints-spread,
}

-- The bytes of an entry, read as that entry whatever follows them.
abbrev Entry : Result Error (List ℕ) → ℕ → ℕ → Type 0
Entry r idx len =
    (b : ℕ) × (rest : List ℕ) × (r ≡ ok (b ∷ rest))
    × ((t : List ℕ) → Decodes (rle_entry b) (rest ++ t) (idx, len) t)

single-Entry : (idx : ℕ) → idx < 128 → Entry (write_entry idx 1) idx 1
unfolding write_entry rle_entry
single-Entry idx h =
    let low : idx % 256 ≡ idx = omega arith in
    let clear : bit_and idx 128 ≡ 0 = bit_and_128 idx ∙ omega arith in
    (idx, [], rw low refl, λ t. rw clear (Decodes-pure (idx, 1) t))

flagged : (idx : ℕ) → idx < 128 → bit_or (idx % 256) 128 ≡ idx + 128
flagged idx h =
    let low : idx % 256 ≡ idx = omega arith in
    rw low (omega (arith, bit_or-disjoint_left 7 1 idx h))

run-Entry :
    (idx len : ℕ) → idx < 128 → 1 ≤ len → (len == 1) ≡ false → Entry (write_entry idx len) idx len
unfolding write_entry rle_entry
run-Entry idx len h k ne =
    let (bytes, written, read) = run_length_read len k in
    let flag : bit_and (idx + 128) 128 ≡ 128 = bit_and_128 (idx + 128) ∙ omega arith in
    let value : bit_and (idx + 128) 127 ≡ idx = bit_and_127 (idx + 128) ∙ omega arith in
    (
      idx + 128,
      bytes,
      rw (ne, written, flagged idx h) refl,
      λ t. rw (flag, value) (Decodes-bind read_run_length _ (read t) (Decodes-pure (idx, len) t)),
    )

Entry-read : (idx len : ℕ) → idx < 128 → 1 ≤ len → Entry (write_entry idx len) idx len
Entry-read idx len h k = elim (Bool-cases (len == 1)) [
  | inl e ↦ let one : len ≡ 1 = (==_iff len 1).0 e in rw one (single-Entry idx h)
  | inr e ↦ run-Entry idx len h k e
]

get_elem?-map :
    {A B : Type 0} (g : A → B) (xs : List A) (i : ℕ) {a : A}
    → get_elem? xs i ≡ some a
    → get_elem? (map g xs) i ≡ some (g a)
get_elem?-map g [] i e = absurd (cc)
get_elem?-map g (x ∷ xs) zero e = ap (Option.map g) e
get_elem?-map g (x ∷ xs) (suc i) e = get_elem?-map g xs i e

-- The colour of an index is that of the pixel that stands there.
pub entry_colour :
    (f : PixelFormat) (palette : List ℕ) (idx v : ℕ) (e : Error)
    → get_elem? palette idx ≡ some v
    → palette_entry (map (to_rgba f) palette) idx e ≡ ok (to_rgba f v)
unfolding palette_entry
entry_colour f palette idx v e h = rw (get_elem?-map (to_rgba f) palette idx h, palette_entry) refl

palette_rle_round :
    (palette : List Rgba) (fuel count : ℕ) (px s out t : List ℕ)
    → length px < count * 4
    → Decodes
        (do
          b ← take_u8
          (idx, run) ← rle_entry b
          entry ← lift (palette_entry palette idx (protocol (rle_index idx (length palette))))
          px' ← lift (push_run px entry run count)
          palette_rle palette fuel count px')
        s
        out
        t
    → Decodes (palette_rle palette (suc fuel) count px) s out t
unfolding palette_rle
palette_rle_round palette fuel count px s out t h k c r =
    rw (lt→ltb (length px) (count * 4) h, palette_rle) (k c r)

palette_rle_full :
    (palette : List Rgba) (fuel count : ℕ) (px t : List ℕ)
    → length px ≡ count * 4
    → Decodes (palette_rle palette (suc fuel) count px) t px t
unfolding palette_rle
palette_rle_full palette fuel count px t h c r =
    rw (not_ltb (length px) (count * 4) (omega arith), palette_rle) (c, refl, r)

-- The entries that a server writes are what the client's loop paints.
module _ (f : PixelFormat) (palette : List ℕ) (few : length palette ≤ 127) where
  abbrev colours : List Rgba
  colours = map (to_rgba f) palette

  abbrev Painted : List (ℕ × ℕ) → List ℕ → Type 0
  Painted runs bytes =
      (fuel count : ℕ) (acc t : List ℕ)
      → Room acc runs fuel count
      → Decodes (palette_rle colours fuel count acc) (bytes ++ t) (acc ++ paints f (spread runs)) t

  no_runs : Painted [] []
  no_runs zero count acc t r = absurd (omega (arith, r.rounds))
  no_runs (suc fuel) count acc t r =
      rw (append-nil acc) (palette_rle_full colours fuel count acc t (omega (arith, r.fills)))

  more_runs :
      (v n idx b : ℕ) (runs : List (ℕ × ℕ)) (bytes rest : List ℕ)
      → 1 ≤ n
      → get_elem? palette idx ≡ some v
      → ((t : List ℕ) → Decodes (rle_entry b) (bytes ++ t) (idx, n) t)
      → Painted runs rest
      → Painted ((v, n) ∷ runs) ((b ∷ bytes) ++ rest)
  more_runs v n idx b runs bytes rest h there read read' zero count acc t r =
      absurd (omega (arith, r.rounds))
  more_runs v n idx b runs bytes rest h there read read' (suc fuel) count acc t r =
      let (more, fits, room) = Room-next f acc v n fuel count runs h r in
      let e = protocol (rle_index idx (length colours)) in
      palette_rle_round colours fuel count acc _ _ t more (
        rw (append_assoc bytes rest t, ← paints-spread f acc v n runs)
          (Decodes-bind take_u8 _ (Decodes-u8 b (bytes ++ (rest ++ t))) (
            Decodes-bind (rle_entry b) _ (read (rest ++ t)) (
              Decodes-bind (lift (palette_entry colours idx e)) _
                (Decodes-lift (palette_entry colours idx e) (to_rgba f v) (rest ++ t)
                  (entry_colour f palette idx v e there))
                (Decodes-bind (lift (push_run acc (to_rgba f v) n count)) _
                  (Decodes-push acc (to_rgba f v) n count (rest ++ t) fits)
                  (read' fuel count (acc ++ repeat_colour n (to_rgba f v)) t room))))))

  pub entries_read :
      (runs : List (ℕ × ℕ))
      → Runs runs
      → All (Names palette) (spread runs)
      → (bytes : List ℕ) × (write_entries palette runs ≡ ok bytes) × Painted runs bytes
  unfolding write_entries expect
  entries_read [] h named = ([], refl, no_runs)
  entries_read ((v, n) ∷ runs) h named =
      let (name, named') = All-spread_head (Names palette) n v (spread runs) h.0 named in
      let (idx, at, below, there) = position_found palette v name in
      let (b, bytes, written, read) = Entry-read idx n (omega (arith, below)) h.0 in
      let (rest, written', read') = entries_read runs h.1 named' in
      (
        (b ∷ bytes) ++ rest,
        rw (at, written, written') refl,
        more_runs v n idx b runs bytes rest h.0 there read read',
      )
