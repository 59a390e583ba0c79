-- ===== src/Encode/Forms.antt =====
-- encode.rs: which form a tile gets, and the raw and the solid one.
use mathlib.Core.List.{append_assoc, append-nil}
use bolide.Base.{
  ℕ, ◌*◌, ◌≤◌, ◌==◌, ==_iff, ==-ne, leb, leb→le, ltb, ◌&&◌, ◌||◌, Bool, true, false, Bool-cases,
  List, [], ◌∷◌, ◌++◌, All, length, ◌≡◌, refl, sym, ap, ◌∙◌, inl, inr, arith, if◌then◌else◌,
}
use bolide.Proto.Format.{PixelFormat, rgba_bytes, to_rgba}
use bolide.Zrle.Pixels.{read_cpixel}
use bolide.Zrle.Tile.{raw_pixels, repeat_colour}
use bolide.Encode.{
  ZrleTiling, auto, raw, solid, packed_palette, plain_rle, palette_rle, choose, auto_tiling,
  is_some, index_bits, write_cpixel, write_cpixels, palette_of,
}
use bolide.Encode.Palette.{Names, palette_of-Names}
use bolide.Encode.Stream.{Decodes, Decodes-bind, Decodes-pure}
use bolide.Encode.Pixels.{Packs, Decodes-cpixel, paints}

-- The palettes that a form can express.
abbrev pub Fits : ZrleTiling → ℕ → Type 0
Fits auto n = Unit
Fits raw n = Unit
Fits solid n = n ≡ 1
Fits packed_palette n = is_some (index_bits n) ≡ true
Fits plain_rle n = Unit
Fits palette_rle n = (2 ≤ n) × (n ≤ 127)

module _ {A : Type 0} (P : A → Type 0) {x y : A} where
  either_way : (b : Bool) → (b ≡ true → P x) → (b ≡ false → P y) → P (if b then x else y)
  either_way true h k = h refl
  either_way false h k = k refl

both : (a b : Bool) → a && b ≡ true → (a ≡ true) × (b ≡ true)
both true b h = (refl, h)
both false b h = absurd (cc)

auto_tiling-Fits : (n runs pixels : ℕ) → 1 ≤ n → Fits (auto_tiling n runs pixels) n
unfolding auto_tiling
auto_tiling-Fits n runs pixels h =
    let Here : ZrleTiling → Type 0 = λ form. Fits form n in
    either_way Here (n == 1) (λ e. (==_iff n 1).0 e)
      (λ e.
        either_way Here (is_some (index_bits n)) (λ e'. e')
          (λ _.
            either_way Here (leb n 127) (λ e'. (omega (arith, h, ==-ne n 1 e), leb→le n 127 e'))
              (λ _. either_way Here (ltb (runs * 2) pixels) (λ _. tt) (λ _. tt))))

-- Whatever is asked for, the form expresses the palette.
pub choose-Fits :
    (form : ZrleTiling) (n runs pixels : ℕ) → 1 ≤ n → Fits (choose form n runs pixels) n
unfolding choose
choose-Fits auto n runs pixels h = auto_tiling-Fits n runs pixels h
choose-Fits raw n runs pixels h = tt
choose-Fits solid n runs pixels h =
    either_way (λ form. Fits form n) (n == 1) (λ e. (==_iff n 1).0 e)
      (λ _. auto_tiling-Fits n runs pixels h)
choose-Fits packed_palette n runs pixels h =
    either_way (λ form. Fits form n) (is_some (index_bits n)) (λ e. e)
      (λ _. auto_tiling-Fits n runs pixels h)
choose-Fits plain_rle n runs pixels h = tt
choose-Fits palette_rle n runs pixels h =
    either_way (λ form. Fits form n) (leb 2 n && leb n 127)
      (λ e. let (low, high) = both (leb 2 n) (leb n 127) e in (leb→le 2 n low, leb→le n 127 high))
      (λ _. auto_tiling-Fits n runs pixels h)

-- A tile with a pixel has a colour.
pub palette_of_nonempty : (px : List ℕ) → 1 ≤ length px → 1 ≤ length (palette_of px)
palette_of_nonempty [] h = absurd (omega arith)
palette_of_nonempty (p ∷ px) h =
    some_colour (palette_of (p ∷ px)) (λ k. (palette_of-Names (p ∷ px) k).0)
  where
    some_colour : (palette : List ℕ) → (length palette ≤ 128 → Names palette p) → 1 ≤ length palette
    some_colour [] named = absurd (let no : false ≡ true = named (omega arith) in cc)
    some_colour (c ∷ palette) named = omega arith

-- A tile of one colour.
pub paints_solid :
    (f : PixelFormat) (c : ℕ) (px : List ℕ)
    → All (Names (c ∷ [])) px
    → repeat_colour (length px) (to_rgba f c) ≡ paints f px
paints_solid f c [] named = refl
paints_solid f c (p ∷ px) named = elim (Bool-cases (c == p)) [
  | inl e ↦
      ap (λ q. q ++ repeat_colour (length px) (to_rgba f c))
        (ap (λ v. rgba_bytes (to_rgba f v)) ((==_iff c p).0 e))
      ∙ ap (λ q. rgba_bytes (to_rgba f p) ++ q) (paints_solid f c px named.1)
  | inr e ↦ absurd (let no : false ≡ true = ap (λ b. b || false) (sym e) ∙ named.0 in cc)
]

pub single : (xs : List ℕ) → length xs ≡ 1 → (c : ℕ) × (xs ≡ c ∷ [])
single [] h = absurd (omega arith)
single (c ∷ []) h = (c, refl)
single (c ∷ d ∷ xs) h = absurd (omega arith)

-- As many CPIXELs, read as the pixels of a raw tile.
pub raw_read :
    (f : PixelFormat) (px acc t : List ℕ)
    → All (Packs f) px
    → Decodes (raw_pixels f (length px) acc) (write_cpixels f px ++ t) (acc ++ paints f px) t
unfolding raw_pixels write_cpixels
raw_read f [] acc t packs = rw (append-nil acc) (Decodes-pure acc t)
raw_read f (p ∷ px) acc t packs =
    rw
      (
        append_assoc (write_cpixel f p) (write_cpixels f px) t,
        ← append_assoc acc (rgba_bytes (to_rgba f p)) (paints f px),
      )
      (Decodes-bind (read_cpixel f) _ (Decodes-cpixel f p (write_cpixels f px ++ t) packs.0)
        (raw_read f px (acc ++ rgba_bytes (to_rgba f p)) t packs.1))
