-- ===== src/Base/Bytes/Chunks.antt =====
-- `chunks_exact_mut` with one function on each chunk, which block ciphers use, and copies into a
-- list that is two lists.
use mathlib.Core.List.{append_assoc}
use bolide.Base.{
  ℕ, zero, suc, ◌+◌, ◌*◌, ◌/◌, ◌≤◌, ◌≡◌, refl, sym, ap, ap₂, ◌∙◌, arith, List, ◌++◌, length,
  length-append, length-take, length-drop, take, drop, take-append, drop-append, take-append-drop,
  take-append_le, drop-append_le, take-append_add, drop-append_add,
}
use bolide.Base.Bytes.Slices.{overwritten}

-- `n` chunks of `size`; what is behind them is left alone.
unfoldable pub each_chunk : ℕ → ℕ → (List ℕ → List ℕ) → List ℕ → List ℕ
each_chunk size zero f xs = xs
each_chunk size (suc n) f xs = f (take size xs) ++ each_chunk size n f (drop size xs)

unfoldable pub chunks_exact_mut : ℕ → (List ℕ → List ℕ) → List ℕ → List ℕ
unfolding each_chunk
chunks_exact_mut size f xs = each_chunk size (length xs / size) f xs

module _ (size : ℕ) (f : List ℕ → List ℕ)
    (keeps : (b : List ℕ) → length b ≡ size → length (f b) ≡ size) where
  pub length-each_chunk :
      (n : ℕ) (xs : List ℕ) → n * size ≤ length xs → length (each_chunk size n f xs) ≡ length xs
  unfolding each_chunk
  length-each_chunk zero xs h = refl
  length-each_chunk (suc n) xs h =
      let more : suc n * size ≡ size + n * size = grind arith in
      let whole : length (take size xs) ≡ size = omega (arith, length-take size xs, more) in
      length-append (f (take size xs)) (each_chunk size n f (drop size xs))
      ∙ omega (
        arith,
        keeps (take size xs) whole,
        length-drop size xs,
        length-each_chunk n (drop size xs) (omega (arith, length-drop size xs, more)),
        more,
      )

  -- A function that undoes `f` on a chunk undoes it on all of them.
  pub each_chunk_undone :
      (g : List ℕ → List ℕ)
      → ((b : List ℕ) → length b ≡ size → g (f b) ≡ b)
      → (n : ℕ) (xs : List ℕ) → n * size ≤ length xs
      → each_chunk size n g (each_chunk size n f xs) ≡ xs
  unfolding each_chunk
  each_chunk_undone g undoes zero xs h = refl
  each_chunk_undone g undoes (suc n) xs h =
      let more : suc n * size ≡ size + n * size = grind arith in
      let whole : length (take size xs) ≡ size = omega (arith, length-take size xs, more) in
      let rest = each_chunk size n f (drop size xs) in
      let kept = keeps (take size xs) whole in
      rw
        (
          take-append size (f (take size xs)) rest kept,
          drop-append size (f (take size xs)) rest kept,
        )
        (ap₂ (◌++◌) (undoes (take size xs) whole)
            (each_chunk_undone g undoes n (drop size xs) (omega (arith, length-drop size xs, more)))
          ∙ take-append-drop size xs)

module _ {ℓ} {A : Type ℓ} (xs ys src : List A) where
  pub overwritten-append_left :
      (at : ℕ)
      → at + length src ≤ length xs
      → overwritten (xs ++ ys) at src ≡ overwritten xs at src ++ ys
  overwritten-append_left at h =
      rw (take-append_le at xs ys (omega arith), drop-append_le (at + length src) xs ys h)
        (sym (
          append_assoc (take at xs) (src ++ drop (at + length src) xs) ys
          ∙ ap (λ q. take at xs ++ q) (append_assoc src (drop (at + length src) xs) ys)))

  pub overwritten-append_right :
      (m at : ℕ) → m ≡ length xs + at → overwritten (xs ++ ys) m src ≡ xs ++ overwritten ys at src
  overwritten-append_right m at e =
      rw
        (
          take-append_add m at xs ys e,
          drop-append_add (m + length src) (at + length src) xs ys (omega arith),
        )
        (append_assoc xs (take at ys) (src ++ drop (at + length src) ys))
