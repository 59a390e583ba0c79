-- ===== src/Encode/Palette.antt =====
-- encode.rs: the palette of a tile names each of its colours.
use bolide.Base.{
  ℕ, suc, ◌+◌, ◌≤◌, ◌<◌, ltb, ltb→lt, ◌==◌, ==_iff, ◌||◌, true, false, Bool-cases, some, List, [],
  ◌∷◌, ◌++◌, All, All-append, length, length-append, get_elem?, contains, position, ◌≡◌, refl, sym,
  ap, ◌∙◌, inl, inr, arith,
}
use bolide.Encode.{palette_loop, palette_of}

contains-append : (xs ys : List ℕ) (a : ℕ) → contains xs a ≡ true → contains (xs ++ ys) a ≡ true
contains-append [] ys a h = absurd (cc)
contains-append (x ∷ xs) ys a h = elim (Bool-cases (x == a)) [
  | inl e ↦ rw e refl
  | inr e ↦ rw e (contains-append xs ys a (rw⁻¹ (ap (λ b. b || contains xs a) e) h))
]

contains_last : (xs : List ℕ) (a : ℕ) → contains (xs ++ a ∷ []) a ≡ true
contains_last [] a = rw ((==_iff a a).1 refl) refl
contains_last (x ∷ xs) a = elim (Bool-cases (x == a)) [
  | inl e ↦ rw e refl
  | inr e ↦ rw e (contains_last xs a)
]

-- A number that a list contains has a position in it, and stands there.
pub position_found :
    (xs : List ℕ) (a : ℕ)
    → contains xs a ≡ true
    → (i : ℕ) × (position xs a ≡ some i) × (i < length xs) × (get_elem? xs i ≡ some a)
position_found [] a h = absurd (cc)
position_found (x ∷ xs) a h = elim (Bool-cases (x == a)) [
  | inl e ↦ (0, rw e refl, omega arith, ap some ((==_iff x a).0 e))
  | inr e ↦
      let (i, found, below, there) =
        position_found xs a (rw⁻¹ (ap (λ b. b || contains xs a) e) h) in
      (suc i, rw (e, found) refl, omega (arith, below), there)
]

module _ (palette : List ℕ) (p : ℕ) (px : List ℕ) where
  loop_known : contains palette p ≡ true → palette_loop palette (p ∷ px) ≡ palette_loop palette px
  unfolding palette_loop
  loop_known e = rw (e, palette_loop) refl

  loop_full :
      contains palette p ≡ false
      → ltb 128 (length palette + 1) ≡ true
      → palette_loop palette (p ∷ px) ≡ palette ++ p ∷ []
  unfolding palette_loop
  loop_full e e' = rw (e, e', palette_loop) refl

  loop_grows :
      contains palette p ≡ false
      → ltb 128 (length palette + 1) ≡ false
      → palette_loop palette (p ∷ px) ≡ palette_loop (palette ++ p ∷ []) px
  unfolding palette_loop
  loop_grows e e' = rw (e, e', palette_loop) refl

loop_nil : (palette : List ℕ) → palette_loop palette [] ≡ palette
unfolding palette_loop
loop_nil palette = refl

-- What the loop knows it keeps.
loop_keeps :
    (px palette : List ℕ) (a : ℕ)
    → contains palette a ≡ true
    → contains (palette_loop palette px) a ≡ true
loop_keeps [] palette a h = rw (loop_nil palette) h
loop_keeps (p ∷ px) palette a h = elim (Bool-cases (contains palette p)) [
  | inl e ↦ rw (loop_known palette p px e) (loop_keeps px palette a h)
  | inr e ↦ elim (Bool-cases (ltb 128 (length palette + 1))) [
    | inl e' ↦ rw (loop_full palette p px e e') (contains-append palette (p ∷ []) a h)
    | inr e' ↦
        rw (loop_grows palette p px e e')
          (loop_keeps px (palette ++ p ∷ []) a (contains-append palette (p ∷ []) a h))
  ]
]

abbrev pub Names : List ℕ → ℕ → Type 0
Names palette p = contains palette p ≡ true

loop_Names :
    (px palette result : List ℕ)
    → palette_loop palette px ≡ result
    → length result ≤ 128
    → All (Names result) px
loop_Names [] palette result same h = tt
loop_Names (p ∷ px) palette result same h = elim (Bool-cases (contains palette p)) [
  | inl e ↦
      let same' : palette_loop palette px ≡ result = sym (loop_known palette p px e) ∙ same in
      (
        ap (λ q. contains q p) (sym same') ∙ loop_keeps px palette p e,
        loop_Names px palette result same' h,
      )
  | inr e ↦ elim (Bool-cases (ltb 128 (length palette + 1))) [
    | inl e' ↦ absurd (
        omega (
          arith,
          ap length (sym (loop_full palette p px e e') ∙ same),
          length-append palette (p ∷ []),
          ltb→lt 128 (length palette + 1) e',
        ))
    | inr e' ↦
        let grown = palette ++ p ∷ [] in
        let same' : palette_loop grown px ≡ result = sym (loop_grows palette p px e e') ∙ same in
        (
          ap (λ q. contains q p) (sym same') ∙ loop_keeps px grown p (contains_last palette p),
          loop_Names px grown result same' h,
        )
  ]
]

-- A palette that the loop did not give up on names every pixel.
pub palette_of-Names : (px : List ℕ) → length (palette_of px) ≤ 128 → All (Names (palette_of px)) px
unfolding palette_of
palette_of-Names px h = loop_Names px [] (palette_of px) refl h

module _ (P : ℕ → Type 0) where
  loop-All : (px palette : List ℕ) → All P palette → All P px → All P (palette_loop palette px)
  loop-All [] palette h k = rw (loop_nil palette) h
  loop-All (p ∷ px) palette h k =
      let grown : All P (palette ++ p ∷ []) = All-append P palette (p ∷ []) h (k.0, tt) in
      elim (Bool-cases (contains palette p)) [
        | inl e ↦ rw (loop_known palette p px e) (loop-All px palette h k.1)
        | inr e ↦ elim (Bool-cases (ltb 128 (length palette + 1))) [
          | inl e' ↦ rw (loop_full palette p px e e') grown
          | inr e' ↦ rw (loop_grows palette p px e e') (loop-All px (palette ++ p ∷ []) grown k.1)
        ]
      ]

  -- The palette has the tile's colours only.
  pub All-palette_of : (px : List ℕ) → All P px → All P (palette_of px)
  unfolding palette_of
  All-palette_of px h = loop-All px [] tt h
