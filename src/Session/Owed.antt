-- ===== src/Session/Owed.antt =====
-- session.rs and client.rs: what a writer that owes a full screen has still to write.
use bolide.Base.{
  ℕ, zero, suc, ◌++◌, Bool, true, false, not, ◌&&◌, List, [], ◌∷◌, ◌≡◌, refl, ap, arith, ◌∙◌, ◌⊎◌,
  inl, inr,
}
use bolide.Proto.Messages.{framebuffer_update_request}
use bolide.Session.{Command, write, request, Inner, sized_request}
use bolide.Session.Steps.{Writer, waiting, taken, swapped, writing, left}

-- `Sizes` says which sizes a request can ask for: those that the framebuffer had in the run.
module _ (Sizes : (width height : ℕ) → Type 0) where
  -- The bytes are a request for the whole of such a screen that is not incremental.
  abbrev pub Whole : List ℕ → Type 0
  Whole bytes =
      (width height : ℕ) × Sizes width height
      × (bytes ≡ framebuffer_update_request false 0 0 width height)

  -- Behind `k` requests that may be anything, the first one on the wire is whole; where there is none,
  -- `Rest` holds of how many are still to pass.
  abbrev pub Behind : ℕ → List (Command × List ℕ) → (ℕ → Type 0) → Type 0
  Behind k [] Rest = Rest k
  Behind k ((write _, bytes) ∷ wire) Rest = Behind k wire Rest
  Behind zero ((request _, bytes) ∷ wire) Rest = Whole bytes
  Behind (suc k) ((request _, bytes) ∷ wire) Rest = Behind k wire Rest

  pub Behind-map :
      (k : ℕ) (wire : List (Command × List ℕ)) (Rest Rest' : ℕ → Type 0)
      → ((j : ℕ) → Rest j → Rest' j)
      → Behind k wire Rest
      → Behind k wire Rest'
  Behind-map k [] Rest Rest' f h = f k h
  Behind-map k ((write _, _) ∷ wire) Rest Rest' f h = Behind-map k wire Rest Rest' f h
  Behind-map zero ((request _, _) ∷ wire) Rest Rest' f h = h
  Behind-map (suc k) ((request _, _) ∷ wire) Rest Rest' f h = Behind-map k wire Rest Rest' f h

  pub Behind-snoc :
      (k : ℕ) (wire : List (Command × List ℕ)) (e : Command × List ℕ) (Rest Rest' : ℕ → Type 0)
      → ((j : ℕ) → Rest j → Behind j (e ∷ []) Rest')
      → Behind k wire Rest
      → Behind k (wire ++ (e ∷ [])) Rest'
  Behind-snoc k [] e Rest Rest' f h = f k h
  Behind-snoc k ((write _, _) ∷ wire) e Rest Rest' f h = Behind-snoc k wire e Rest Rest' f h
  Behind-snoc zero ((request _, _) ∷ wire) e Rest Rest' f h = h
  Behind-snoc (suc k) ((request _, _) ∷ wire) e Rest Rest' f h = Behind-snoc k wire e Rest Rest' f h

  -- What the writer still owes, `k` requests being under way from before.
  abbrev pub Owes : Writer → Inner → ℕ → Type 0
  Owes waiting s k = (k ≡ 0) × (s.needs_full ≡ true)
  Owes (taken i) s k = (k ≡ 0) × (s.needs_full ≡ true)
  Owes (swapped i first) s k = ((k ≡ 0) × (first ≡ true)) ⊎ ((k ≡ 1) × (s.needs_full ≡ true))
  Owes (writing (write b) bytes) s k = (k ≡ 0) × (s.needs_full ≡ true)
  Owes (writing (request i) bytes) s k = ((k ≡ 0) × Whole bytes) ⊎ ((k ≡ 1) × (s.needs_full ≡ true))
  Owes left s k = Unit

  pub Owes-keeps :
      (wr : Writer) (s s' : Inner)
      → (s.needs_full ≡ true → s'.needs_full ≡ true)
      → (k : ℕ) → Owes wr s k
      → Owes wr s' k
  Owes-keeps waiting s s' f k h = (h.0, f h.1)
  Owes-keeps (taken i) s s' f k h = (h.0, f h.1)
  Owes-keeps (swapped i first) s s' f k (inl h) = inl h
  Owes-keeps (swapped i first) s s' f k (inr h) = inr (h.0, f h.1)
  Owes-keeps (writing (write b) bytes) s s' f k h = (h.0, f h.1)
  Owes-keeps (writing (request i) bytes) s s' f k (inl h) = inl h
  Owes-keeps (writing (request i) bytes) s s' f k (inr h) = inr (h.0, f h.1)
  Owes-keeps left s s' f k h = tt

  and_false : (b : Bool) → (b && false) ≡ false
  and_false true = refl
  and_false false = refl

  -- What the swap gave makes the request whole, at the size that the lock holds.
  pub sized-Owes :
      (i first : Bool) (s : Inner)
      → Sizes s.fb.width s.fb.height
      → (k : ℕ) → Owes (swapped i first) s k
      → Owes (writing (request i) (sized_request i first s)) s k
  unfolding sized_request
  sized-Owes i first s had k (inr h) = inr h
  sized-Owes i first s had k (inl h) =
      let whole =
        ap (λ b. framebuffer_update_request b 0 0 s.fb.width s.fb.height)
          (ap (λ b. i && not b) h.1 ∙ and_false i) in
      inl (h.0, (s.fb.width, s.fb.height, had, whole))

  pub written-Behind :
      (i : Bool) (bytes : List ℕ) (s : Inner) (k : ℕ)
      → Owes (writing (request i) bytes) s k
      → Behind k ((request i, bytes) ∷ []) (Owes waiting s)
  written-Behind i bytes s zero (inl h) = h.1
  written-Behind i bytes s zero (inr h) = absurd (omega (arith, h.0))
  written-Behind i bytes s (suc k) (inl h) = absurd (omega (arith, h.0))
  written-Behind i bytes s (suc k) (inr h) = (omega (arith, h.0), h.1)

-- How many requests the writer has swapped for and not yet written.
abbrev pub under_way : Writer → ℕ
under_way waiting = 0
under_way (taken i) = 0
under_way (swapped i first) = 1
under_way (writing (write b) bytes) = 0
under_way (writing (request i) bytes) = 1
under_way left = 0

pub Owes-start :
    (Sizes : ℕ → ℕ → Type 0) (wr : Writer) (s : Inner)
    → s.needs_full ≡ true
    → Owes Sizes wr s (under_way wr)
Owes-start Sizes waiting s h = (refl, h)
Owes-start Sizes (taken i) s h = (refl, h)
Owes-start Sizes (swapped i first) s h = inr (refl, h)
Owes-start Sizes (writing (write b) bytes) s h = (refl, h)
Owes-start Sizes (writing (request i) bytes) s h = inr (refl, h)
Owes-start Sizes left s h = tt
