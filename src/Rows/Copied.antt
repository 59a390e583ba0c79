-- ===== src/Rows/Copied.antt =====
-- What `copy_rows` leaves behind, for rows that do not overlap.
use bolide.Base.{
  ℕ, zero, suc, ◌+◌, ◌≤◌, ◌<◌, ◌≡◌, refl, ◌∙◌, ◌⊎◌, inl, inr, arith, List, ok, length, length-take,
  length-drop, take, drop, get_elem?, get_elem?-take, get_elem?-drop, dec_lt,
}
use bolide.Base.Bytes.Slices.{
  slice_ok, copy_at_ok, overwritten, length-overwritten, overwritten_inside, overwritten_before,
  overwritten_after,
}
use bolide.Rows.{copy_rows}

module _ {A : Type 0} (dst src : ℕ → ℕ) (n : ℕ) (from : List A) where
  -- `out` is `into` with the rows `row` to `row + left` of `from` copied into it.
  pub record Copied (left row : ℕ) (into out : List A) : Type 0 where
    pub same_length : length out ≡ length into
    pub inside :
        (r c : ℕ)
        → row ≤ r
        → r < row + left
        → c < n
        → get_elem? out (dst r + c) ≡ get_elem? from (src r + c)
    pub outside :
        (i : ℕ)
        → ((r : ℕ) → row ≤ r → r < row + left → (i < dst r) ⊎ (dst r + n ≤ i))
        → get_elem? out i ≡ get_elem? into i

  -- Each row lies within both lists, and the rows of `dst` stand in order.
  pub record Fits (left row size : ℕ) : Type 0 where
    pub apart : (r s : ℕ) → row ≤ r → r < s → s < row + left → dst r + n ≤ dst s
    pub dst_fits : (r : ℕ) → row ≤ r → r < row + left → dst r + n ≤ size
    pub src_fits : (r : ℕ) → row ≤ r → r < row + left → src r + n ≤ length from

  Fits-tail : {left row size : ℕ} → Fits (suc left) row size → Fits left (row + 1) size
  Fits-tail f = record {
    apart = λ r s a b c. f.apart r s (omega arith) b (omega arith);
    dst_fits = λ r a b. f.dst_fits r (omega arith) (omega arith);
    src_fits = λ r a b. f.src_fits r (omega arith) (omega arith);
  }

  module _ (left row : ℕ) (into : List A) (f : Fits (suc left) row (length into)) where
    taken : List A
    taken = take n (drop (src row) from)

    length-taken : length taken ≡ n
    unfolding taken
    length-taken = omega (
      arith,
      length-take n (drop (src row) from),
      length-drop (src row) from,
      f.src_fits row (omega arith) (omega arith),
    )

    room : dst row + length taken ≤ length into
    room = omega (arith, length-taken, f.dst_fits row (omega arith) (omega arith))

    after_row : List A
    unfolding taken
    after_row = overwritten into (dst row) taken

    length-after_row : length after_row ≡ length into
    unfolding after_row
    length-after_row = length-overwritten into (dst row) taken room

    after_row_inside :
        (c : ℕ) → c < n → get_elem? after_row (dst row + c) ≡ get_elem? from (src row + c)
    unfolding after_row taken
    after_row_inside c h =
        overwritten_inside into (dst row) taken room c (omega (arith, length-taken))
        ∙ get_elem?-take n (drop (src row) from) c h
        ∙ get_elem?-drop (src row) from c (src row + c) refl

    after_row_outside :
        (i : ℕ) → (i < dst row) ⊎ (dst row + n ≤ i) → get_elem? after_row i ≡ get_elem? into i
    unfolding after_row
    after_row_outside i (inl h) = overwritten_before into (dst row) taken room i h
    after_row_outside i (inr h) =
        overwritten_after into (dst row) taken room i (omega (arith, length-taken))

    Copied-step :
        {out : List A} → Copied left (row + 1) after_row out → Copied (suc left) row into out
    Copied-step {out} k = record {
      same_length = k.same_length ∙ length-after_row;
      inside = λ r c a b h. elim (dec_lt row r) [
        | yes p ↦ k.inside r c (omega arith) (omega arith) h
        | no p ↦ let e : r ≡ row = omega arith in rw e (first_row c h)
      ];
      outside = λ i h.
          k.outside i (λ r a b. h r (omega arith) (omega arith))
          ∙ after_row_outside i (h row (omega arith) (omega arith));
    }
      where
        first_row : (c : ℕ) → c < n → get_elem? out (dst row + c) ≡ get_elem? from (src row + c)
        first_row c h =
            k.outside (dst row + c) (λ r a b.
              inl (omega (arith, f.apart row r (omega arith) (omega arith) (omega arith))))
            ∙ after_row_inside c h

    step_ok :
        {E : Type 0}
        → copy_rows {E = E} dst src n (suc left) row from into
          ≡ copy_rows dst src n left (row + 1) from after_row
    unfolding copy_rows after_row taken
    step_ok {E} =
        rw (slice_ok {E = E} from (src row) n (f.src_fits row (omega arith) (omega arith)))
          (rw (copy_at_ok {E = E} into (dst row) _ room))

  -- Rows in range and in order are copied, each to its place, and nothing else changes.
  pub copy_rows-Copied :
      {E : Type 0} (left row : ℕ) (into : List A)
      → Fits left row (length into)
      → (out : List A) × (copy_rows {E = E} dst src n left row from into ≡ ok out)
        × Copied left row into out
  copy_rows-Copied zero row into f = (
    into,
    unfold copy_rows in refl,
    record {
      same_length = refl;
      inside = λ r c a b h. absurd (omega arith);
      outside = λ i h. refl;
    },
  )
  copy_rows-Copied {E} (suc left) row into f =
      let (out, e, k) =
        copy_rows-Copied {E = E} left (row + 1) (after_row left row into f)
          (rw (length-after_row left row into f) (Fits-tail f)) in
      (out, step_ok left row into f ∙ e, Copied-step left row into f k)
