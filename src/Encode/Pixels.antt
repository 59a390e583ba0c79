-- ===== src/Encode/Pixels.antt =====
-- encode.rs against zrle.rs: CPIXELs.
use mathlib.Core.List.{append_assoc}
use bolide.Base.{
  ℕ, zero, suc, ◌*◌, ◌/◌, ◌%◌, ◌^◌, ◌≤◌, ◌<◌, ◌==◌, ==_iff, ==-ne, Bool, true, false, Bool-cases,
  List, [], ◌∷◌, ◌++◌, All, map, ok, length, take, replicate, ◌≡◌, ◌≢◌, refl, ap, ◌∙◌, ◌⊎◌, inl,
  inr, arith, if◌then◌else◌,
}
use bolide.Proto.Format.{
  PixelFormat, rgba_bytes, bytes_per_pixel, cpixel_bytes, cpixel_offset, cpixel_drops_high_byte,
  write_pixel, read_pixel, to_rgba, bytes_down, bytes_up,
}
use bolide.Proto.Format.Pixels.{read_pixel-write_pixel, length-write_pixel}
use bolide.Zrle.Cursor.{take_bytes}
use bolide.Zrle.Pixels.{widen, read_cpixel, read_palette}
use bolide.Zrle.Pixels.Total.{widen_ok, widened, cpixel_fits}
use bolide.Zrle.Tile.{repeat_colour}
use bolide.Encode.{write_cpixel, write_cpixels}
use bolide.Encode.Stream.{
  Decodes, Decodes-bind, Decodes-if, Decodes-take, Decodes-lift, Decodes-pure,
}

-- The pixel has the width of its format, and the byte that its CPIXEL drops is zero.
abbrev pub Packs : PixelFormat → ℕ → Type 0
Packs f p =
    (bytes_per_pixel f ≤ 4)
    × (p < 2 ^ (8 * bytes_per_pixel f))
    × ((cpixel_bytes f ≡ bytes_per_pixel f)
        ⊎ ((cpixel_bytes f ≢ bytes_per_pixel f)
            × (((cpixel_drops_high_byte f ≡ true) × (p < 2 ^ 24))
                ⊎ ((cpixel_drops_high_byte f ≡ false) × (p % 256 ≡ 0)))))

take_all : (n : ℕ) (xs : List ℕ) → length xs ≤ n → take n xs ≡ xs
take_all zero [] h = refl
take_all zero (x ∷ xs) h = absurd (omega arith)
take_all (suc n) [] h = refl
take_all (suc n) (x ∷ xs) h = ap (◌∷◌ x) (take_all n xs (omega arith))

small_word_at : (n p : ℕ) → n ≡ 4 → p < 2 ^ (8 * n) → p < 2 ^ 32
small_word_at n p e h = rw⁻¹ (ap (λ m. 2 ^ (8 * m)) e) h

module _ (f : PixelFormat) where
  small_word : (p : ℕ) → bytes_per_pixel f ≡ 4 → p < 2 ^ (8 * bytes_per_pixel f) → p < 2 ^ 32
  small_word p e h = small_word_at (bytes_per_pixel f) p e h

  offset_whole : cpixel_bytes f ≡ bytes_per_pixel f → cpixel_offset f ≡ 0
  unfolding cpixel_offset
  offset_whole e = rw ((==_iff _ _).1 e) refl

  -- Where the CPIXEL is the pixel.
  write_cpixel_whole :
      (p : ℕ)
      → bytes_per_pixel f ≤ 4
      → cpixel_bytes f ≡ bytes_per_pixel f
      → write_cpixel f p ≡ write_pixel f p
  unfolding write_cpixel
  write_cpixel_whole p h e =
      rw (offset_whole e, e) (take_all _ (write_pixel f p) (omega (arith, length-write_pixel f p)))

  -- The offset is 1 where the dropped byte comes first.
  first_dropped : Bool → Bool → ℕ
  first_dropped big high = if big then (if high then 1 else 0) else (if high then 0 else 1)

  offset_part :
      cpixel_bytes f ≢ bytes_per_pixel f
      → cpixel_offset f ≡ first_dropped f.big_endian (cpixel_drops_high_byte f)
  unfolding cpixel_offset cpixel_drops_high_byte first_dropped
  offset_part ne = ground arith

  wire_be :
      (p : ℕ)
      → f.big_endian ≡ true
      → bytes_per_pixel f ≡ 4
      → write_pixel f p
        ≡ p / 2 ^ 24 % 256 ∷ p / 2 ^ 16 % 256 ∷ p / 2 ^ 8 % 256 ∷ p / 2 ^ 0 % 256 ∷ []
  unfolding write_pixel bytes_down
  wire_be p b four = rw (four, b) refl

  wire_le :
      (p : ℕ)
      → f.big_endian ≡ false
      → bytes_per_pixel f ≡ 4
      → write_pixel f p
        ≡ p / 2 ^ 0 % 256 ∷ p / 2 ^ 8 % 256 ∷ p / 2 ^ 16 % 256 ∷ p / 2 ^ 24 % 256 ∷ []
  unfolding write_pixel bytes_up
  wire_le p b four = rw (four, b) refl

  -- The three bytes behind the offset, put back over zeros.
  abbrev Restored : ℕ → Type 0
  Restored p =
      (widened f (write_cpixel f p) ≡ write_pixel f p)
      × (length (write_cpixel f p) ≡ cpixel_bytes f)

  restored :
      (p a b c d : ℕ)
      → write_pixel f p ≡ a ∷ b ∷ c ∷ d ∷ []
      → cpixel_bytes f ≡ 3
      → bytes_per_pixel f ≡ 4
      → ((cpixel_offset f ≡ 0) × (d ≡ 0)) ⊎ ((cpixel_offset f ≡ 1) × (a ≡ 0))
      → Restored p
  unfolding write_cpixel
  restored p a b c d wire three four (inl (off, e)) = rw (wire, off, three, four, e) (refl, refl)
  restored p a b c d wire three four (inr (off, e)) = rw (wire, off, three, four, e) (refl, refl)

  -- Which byte is dropped, in either byte order, is a zero.
  Restored-part :
      (p : ℕ)
      → p < 2 ^ 32
      → cpixel_bytes f ≢ bytes_per_pixel f
      → ((cpixel_drops_high_byte f ≡ true) × (p < 2 ^ 24))
        ⊎ ((cpixel_drops_high_byte f ≡ false) × (p % 256 ≡ 0))
      → Restored p
  unfolding first_dropped
  Restored-part p small ne zero_byte =
      let (three, four, _) = cpixel_fits f ne in
      elim (Bool-cases f.big_endian) [
        | inl b ↦ restored p _ _ _ _ (wire_be p b four) three four (elim zero_byte [
          | inl (high, q) ↦ inr (offset_part ne ∙ rw (high, b) refl, omega arith)
          | inr (low, q) ↦ inl (offset_part ne ∙ rw (low, b) refl, omega arith)
        ])
        | inr b ↦ restored p _ _ _ _ (wire_le p b four) three four (elim zero_byte [
          | inl (high, q) ↦ inl (offset_part ne ∙ rw (high, b) refl, omega arith)
          | inr (low, q) ↦ inr (offset_part ne ∙ rw (low, b) refl, omega arith)
        ])
      ]

  -- A CPIXEL is read back as the colour of its pixel.
  pub Decodes-cpixel :
      (p : ℕ) (t : List ℕ)
      → Packs f p
      → Decodes (read_cpixel f) (write_cpixel f p ++ t) (to_rgba f p) t
  unfolding read_cpixel
  Decodes-cpixel p t (few, small, inl whole) =
      let same = write_cpixel_whole p few whole in
      Decodes-bind (take_bytes (cpixel_bytes f)) _
        (Decodes-take (write_cpixel f p) t (cpixel_bytes f)
          (ap length same ∙ length-write_pixel f p ∙ omega (arith, whole)))
        (Decodes-if _ _ (cpixel_bytes f == bytes_per_pixel f)
          (λ _. rw (same, read_pixel-write_pixel f p few small) (Decodes-pure (to_rgba f p) t))
          (λ part. absurd (==-ne _ _ part whole)))
  Decodes-cpixel p t (few, small, inr (ne, zero_byte)) =
      let (three, four, _) = cpixel_fits f ne in
      let (back, size) = Restored-part p (small_word p four small) ne zero_byte in
      Decodes-bind (take_bytes (cpixel_bytes f)) _
        (Decodes-take (write_cpixel f p) t (cpixel_bytes f) size)
        (Decodes-if _ _ (cpixel_bytes f == bytes_per_pixel f)
          (λ whole. absurd (ne ((==_iff _ _).0 whole)))
          (λ _. Decodes-lift (widen f (write_cpixel f p)) (to_rgba f p) t (
            widen_ok f (write_cpixel f p) size ne
            ∙ ap (λ w. ok (to_rgba f (read_pixel f w))) back
            ∙ ap (λ v. ok (to_rgba f v)) (read_pixel-write_pixel f p few small))))

  -- As many CPIXELs, read as a palette.
  pub Decodes-palette :
      (px t : List ℕ)
      → All (Packs f) px
      → Decodes (read_palette f (length px)) (write_cpixels f px ++ t) (map (to_rgba f) px) t
  unfolding read_palette write_cpixels
  Decodes-palette [] t h = Decodes-pure [] t
  Decodes-palette (p ∷ px) t h = rw (append_assoc (write_cpixel f p) (write_cpixels f px) t) (
      Decodes-bind (read_cpixel f) _ (Decodes-cpixel p (write_cpixels f px ++ t) h.0) (
        Decodes-bind (read_palette f (length px)) _ (Decodes-palette px t h.1)
          (Decodes-pure (map (to_rgba f) (p ∷ px)) t)))

-- The bytes of RGBA that a tile of such pixels is decoded to.
abbrev pub paints : PixelFormat → List ℕ → List ℕ
paints f [] = []
paints f (p ∷ px) = rgba_bytes (to_rgba f p) ++ paints f px

module _ (f : PixelFormat) where
  pub length-paints : (px : List ℕ) → length (paints f px) ≡ length px * 4
  length-paints [] = refl
  length-paints (p ∷ px) = omega (arith, length-paints px)

  pub paints-append : (xs ys : List ℕ) → paints f (xs ++ ys) ≡ paints f xs ++ paints f ys
  paints-append [] ys = refl
  paints-append (x ∷ xs) ys = ap (λ q. rgba_bytes (to_rgba f x) ++ q) (paints-append xs ys)

  pub paints-replicate : (n v : ℕ) → paints f (replicate n v) ≡ repeat_colour n (to_rgba f v)
  paints-replicate zero v = refl
  paints-replicate (suc n) v = ap (λ q. rgba_bytes (to_rgba f v) ++ q) (paints-replicate n v)
