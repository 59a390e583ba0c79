-- ===== src/Actions/Run.antt =====
-- actions.rs, `execute`: a plan is handed to a session. The session and the clock are parameters: their
-- `World` is all that they can change.
use bolide.Base.{
  ℕ, Bool, List, [], ◌∷◌, ◌++◌, Option, some, none, ◌≡◌, refl, sym, ap, ◌∙◌, ◌⊎◌, inl, inr,
}
use bolide.Base.Ints.{ℤ, pos}
use bolide.Error.{Error}
use bolide.Actions.{RfbOp, pointer_op, key_op, sleep_op}

-- `Session::pointer`, `Session::key` and `Clock::sleep`. An error comes with the world it left.
pub record Desk : Type 1 where
  pub World : Type 0
  pub send_pointer : ℕ → ℕ → ℕ → World → World × Option Error
  pub send_key : ℕ → Bool → World → World × Option Error
  pub sleep : ℕ → World → World

-- What `execute` has done: the world, the cursor and the error it stopped with.
pub record Done (W : Type 0) : Type 0 where
  pub world : W
  pub cursor : ℤ × ℤ
  pub failed : Option Error

abbrev pub done : {W : Type 0} → W → ℤ × ℤ → Option Error → Done W
done w c e = record { world = w; cursor = c; failed = e }

-- `?` on an event: an error ends the call, and leaves the cursor.
unfoldable pub attempt : {W : Type 0} → W × Option Error → ℤ × ℤ → (W → Done W) → Done W
attempt (w, some e) cursor next = done w cursor (some e)
attempt (w, none) cursor next = next w

module _ (desk : Desk) where
  unfoldable pub execute : List RfbOp → ℤ × ℤ → desk.World → Done (desk.World)
  execute [] cursor w = done w cursor none
  execute (pointer_op x y b ∷ ops) cursor w =
      attempt (desk.send_pointer x y b w) cursor (λ w'. execute ops (pos x, pos y) w')
  execute (key_op k down ∷ ops) cursor w =
      attempt (desk.send_key k down w) cursor (λ w'. execute ops cursor w')
  execute (sleep_op ms ∷ ops) cursor w = execute ops cursor (desk.sleep ms w)

  -- One operation alone.
  abbrev pub perform : RfbOp → desk.World → desk.World × Option Error
  perform (pointer_op x y b) w = desk.send_pointer x y b w
  perform (key_op k down) w = desk.send_key k down w
  perform (sleep_op ms) w = (desk.sleep ms w, none)

  -- Each of `ops` succeeds, one after the other, and `w'` is the world they leave.
  abbrev pub Sent : desk.World → List RfbOp → desk.World → Type 0
  Sent w [] w' = w ≡ w'
  Sent w (op ∷ ops) w' = (w₁ : desk.World) × (perform op w ≡ (w₁, none)) × Sent w₁ ops w'

-- Where the pointer events of `ops` leave the cursor.
abbrev pub cursor_after : List RfbOp → ℤ × ℤ → ℤ × ℤ
cursor_after [] c = c
cursor_after (pointer_op x y b ∷ ops) c = cursor_after ops (pos x, pos y)
cursor_after (key_op k down ∷ ops) c = cursor_after ops c
cursor_after (sleep_op ms ∷ ops) c = cursor_after ops c

-- The outcome of an execution: every operation was sent, or one failed after those before it.
abbrev pub AllSent : (desk : Desk) → List RfbOp → ℤ × ℤ → desk.World → Done desk.World → Type 0
AllSent desk ops c w r =
    Sent desk w ops r.world × (r.failed ≡ none) × (r.cursor ≡ cursor_after ops c)

abbrev pub StoppedAt : (desk : Desk) → List RfbOp → ℤ × ℤ → desk.World → Done desk.World → Type 0
StoppedAt desk ops c w r =
    (xs : List RfbOp) × (op : RfbOp) × (ys : List RfbOp) × (w₁ : desk.World) × (e : Error) × (ops
      ≡ xs ++ (op ∷ ys))
    × Sent desk w xs w₁
    × (perform desk op w₁ ≡ (r.world, some e))
    × (r.failed ≡ some e)
    × (r.cursor ≡ cursor_after xs c)

module _ (desk : Desk) where
  sent_cases :
      (p : desk.World × Option Error)
      → ((w : desk.World) × (p ≡ (w, none))) ⊎ ((w : desk.World) × (e : Error) × (p ≡ (w, some e)))
  sent_cases (w, none) = inl (w, refl)
  sent_cases (w, some e) = inr (w, e, refl)

  attempt-next :
      {W : Type 0} (p : W × Option Error) (c : ℤ × ℤ) (next : W → Done W) {w : W}
      → p ≡ (w, none)
      → attempt p c next ≡ next w
  unfolding attempt
  attempt-next p c next e = rw e refl

  attempt-failed :
      {W : Type 0} (p : W × Option Error) (c : ℤ × ℤ) (next : W → Done W) {w : W} {x : Error}
      → p ≡ (w, some x)
      → attempt p c next ≡ done w c (some x)
  unfolding attempt
  attempt-failed p c next e = rw e refl

  attempt_cases :
      (op : RfbOp) (ops : List RfbOp) (c c' : ℤ × ℤ) (w : desk.World)
      → ((w' : desk.World)
          → AllSent desk ops c' w' (execute desk ops c' w')
            ⊎ StoppedAt desk ops c' w' (execute desk ops c' w'))
      → ((xs : List RfbOp) → cursor_after (op ∷ xs) c ≡ cursor_after xs c')
      → AllSent desk (op ∷ ops) c w (attempt (perform desk op w) c (execute desk ops c'))
        ⊎ StoppedAt desk (op ∷ ops) c w (attempt (perform desk op w) c (execute desk ops c'))
  attempt_cases op ops c c' w rest moved = elim (sent_cases (perform desk op w)) [
    | inl (w', e) ↦ elim (rest w') [
      | inl (sent, f, at) ↦
          rw (attempt-next (perform desk op w) c (execute desk ops c') e)
            (inl ((w', e, sent), f, at ∙ sym (moved ops)))
      | inr (xs, o, ys, w₁, x, split, sent, fails, f, at) ↦
          rw (attempt-next (perform desk op w) c (execute desk ops c') e) (
            inr (
              op ∷ xs,
              o,
              ys,
              w₁,
              x,
              ap (◌∷◌ op) split,
              (w', e, sent),
              fails,
              f,
              at ∙ sym (moved xs),
            ))
    ]
    | inr (w', x, e) ↦
        rw (attempt-failed (perform desk op w) c (execute desk ops c') e)
          (inr ([], op, ops, w, x, refl, refl, e, refl, refl))
  ]

  -- Every outcome of `execute`. Either each operation was sent, in order, and there is no error; or
  -- those before one that fails were sent, the error is that one's, and nothing after it was tried.
  -- Both ways the cursor is where the last pointer event that was sent put it.
  pub execute_cases :
      (ops : List RfbOp) (c : ℤ × ℤ) (w : desk.World)
      → AllSent desk ops c w (execute desk ops c w) ⊎ StoppedAt desk ops c w (execute desk ops c w)
  unfolding execute attempt
  execute_cases [] c w = inl (refl, refl, refl)
  execute_cases (pointer_op x y b ∷ ops) c w =
      attempt_cases (pointer_op x y b) ops c (pos x, pos y) w (execute_cases ops (pos x, pos y))
        (λ xs. refl)
  execute_cases (key_op k down ∷ ops) c w =
      attempt_cases (key_op k down) ops c c w (execute_cases ops c) (λ xs. refl)
  execute_cases (sleep_op ms ∷ ops) c w =
      attempt_cases (sleep_op ms) ops c c w (execute_cases ops c) (λ xs. refl)
