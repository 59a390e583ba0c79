-- ===== src/Base/Bytes/Slices.antt =====
-- What slices and in-place copies give when they are in range.
use bolide.Base.{
  ℕ, ◌+◌, ◌-◌, ◌≤◌, ◌<◌, ◌≡◌, ◌∙◌, arith, List, ◌++◌, ok, length, length-append, length-take,
  length-drop, take, drop, get_elem?, get_elem?-append_left, get_elem?-append_right, get_elem?-take,
  get_elem?-drop,
}
use bolide.Base.Bytes.{copy_at, slice}

abbrev pub overwritten {ℓ} : {A : Type ℓ} → List A → ℕ → List A → List A
overwritten dst at src = take at dst ++ (src ++ drop (at + length src) dst)

module _ {ℓ} {E : Type 0} {A : Type ℓ} where
  pub slice_ok :
      (xs : List A) (from n : ℕ)
      → from + n ≤ length xs
      → slice {E = E} xs from n ≡ ok (take n (drop from xs))
  unfolding slice
  slice_ok xs from n h = ground arith

  pub copy_at_ok :
      (dst : List A) (at : ℕ) (src : List A)
      → at + length src ≤ length dst
      → copy_at {E = E} dst at src ≡ ok (overwritten dst at src)
  unfolding copy_at
  copy_at_ok dst at src h = ground arith

module _ {ℓ} {A : Type ℓ} (dst : List A) (at : ℕ) (src : List A)
    (fits : at + length src ≤ length dst) where
  length_front : length (take at dst) ≡ at
  length_front = omega (arith, length-take at dst)

  pub length-overwritten : length (overwritten dst at src) ≡ length dst
  length-overwritten =
      rw (length-append, length_front, length-append)
        (omega (arith, length-drop (at + length src) dst))

  -- Inside the copy stands the source, and outside it nothing has changed.
  pub overwritten_inside :
      (j : ℕ) → j < length src → get_elem? (overwritten dst at src) (at + j) ≡ get_elem? src j
  overwritten_inside j h =
      get_elem?-append_right (take at dst) _ (at + j) j (omega (arith, length_front))
      ∙ get_elem?-append_left src _ j h

  pub overwritten_before : (i : ℕ) → i < at → get_elem? (overwritten dst at src) i ≡ get_elem? dst i
  overwritten_before i h =
      get_elem?-append_left (take at dst) _ i (omega (arith, length_front))
      ∙ get_elem?-take at dst i h

  pub overwritten_after :
      (i : ℕ) → at + length src ≤ i → get_elem? (overwritten dst at src) i ≡ get_elem? dst i
  overwritten_after i h =
      get_elem?-append_right (take at dst) _ i (i - at) (omega (arith, length_front))
      ∙ get_elem?-append_right src _ (i - at) (i - at - length src) (omega arith)
      ∙ get_elem?-drop (at + length src) dst (i - at - length src) i (omega arith)
