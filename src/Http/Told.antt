-- ===== src/Http/Told.antt =====
-- http.rs: what `POST /computer` answers, and the time of the input that it keeps.
use bolide.Base.{
  ℕ, ◌++◌, Bool, true, All, if◌then◌else◌, ◌>>=◌, Option, none, some, List, [], ◌∷◌, Result, ok,
  err, panic, stuck, ◌≡◌, refl, ap, ◌⊎◌, inl, inr,
}
use bolide.Framebuffer.{Framebuffer}
use bolide.Wire
use bolide.Wire.{ComputerAction, ComputerResponse}
use bolide.Actions.{RfbOp, pointer_op, key_op, sleep_op}
use bolide.Http.{
  ApiError, api_error, see_log, is_input, to_png, to_image, performed, Host, ServerConfig, State,
  any_input, respond, fresh_frame,
}

-- The operation is an event, and not a pause.
abbrev pub Event : RfbOp → Type 0
Event op =
    ((x : ℕ) × (y : ℕ) × (b : ℕ) × (op ≡ pointer_op x y b))
    ⊎ ((k : ℕ) × (down : Bool) × (op ≡ key_op k down))

-- The time of the input: now if any operation is an event, the old one if all are pauses.
abbrev pub Stamped : List RfbOp → ℕ → (old last : Option ℕ) → Type 0
Stamped ops now old last =
    ((xs : List RfbOp) × (op : RfbOp) × (ys : List RfbOp) × (ops ≡ xs ++ (op ∷ ys))
      × Event op
      × (last ≡ some now))
    ⊎ (All (λ op. (ms : ℕ) × (op ≡ sleep_op ms)) ops × (last ≡ old))

pub stamped :
    (ops : List RfbOp) (now : ℕ) (old : Option ℕ)
    → Stamped ops now old (if any_input ops then some now else old)
unfolding any_input is_input
stamped [] now old = inr (tt, refl)
stamped (pointer_op x y b ∷ ops) now old =
    inl ([], pointer_op x y b, ops, refl, inl (x, y, b, refl), refl)
stamped (key_op k down ∷ ops) now old =
    inl ([], key_op k down, ops, refl, inr (k, down, refl), refl)
stamped (sleep_op ms ∷ ops) now old = elim (stamped ops now old) [
  | inl (xs, op, ys, split, event, e) ↦
      inl (sleep_op ms ∷ xs, op, ys, ap (λ q. sleep_op ms ∷ q) split, event, e)
  | inr (pauses, e) ↦ inr (((ms, refl), pauses), e)
]

some-or-none : {A : Type 0} (o : Option A) → ((a : A) × (o ≡ some a)) ⊎ (o ≡ none)
some-or-none none = inr refl
some-or-none (some a) = inl (a, refl)

module _ (host : Host) (config : ServerConfig) where
  -- What a screenshot answers, by the frame that it got.
  abbrev pub Pictured : Result ApiError Framebuffer → Result ApiError ComputerResponse → Type 0
  Pictured (ok f) answer =
      ((png : List ℕ) × (host.encode_png f ≡ some png)
        × (answer
            ≡ ok (record {
              ok = true;
              image =
                  some (record { png_data = host.base64 png; width = f.width; height = f.height });
              coordinate = none;
            })))
      ⊎ ((host.encode_png f ≡ none) × (answer ≡ err (api_error Wire.internal see_log)))
  Pictured (err e) answer = answer ≡ err e
  Pictured panic answer = answer ≡ panic
  Pictured stuck answer = answer ≡ stuck

  -- What an action answers once its plan is through and has left this state.
  abbrev pub Told :
      {F : Type 0}
      → ComputerAction F
      → State host config
      → State host config × Result ApiError ComputerResponse
      → Type 0
  Told Wire.screenshot s r =
      (r.0 ≡ (fresh_frame host config s).0) × Pictured (fresh_frame host config s).1 r.1
  Told Wire.cursor_position s r =
      r ≡ (s, ok (record { ok = true; image = none; coordinate = some s.hands }))
  Told other s r = r ≡ (s, ok (record { ok = true; image = none; coordinate = none }))

  pictured :
      (r : Result ApiError Framebuffer)
      → Pictured r
          (do f ← r; image ← to_image host config f; ok (performed host config (some image) none))
  unfolding to_image to_png
  pictured (ok f) = elim (some-or-none (host.encode_png f)) [
    | inl (png, e) ↦ inl (png, e, rw (e, to_image, to_png) refl)
    | inr e ↦ inr (e, rw (e, to_image, to_png) refl)
  ]
  pictured (err e) = refl
  pictured panic = refl
  pictured stuck = refl

  pub responded :
      {F : Type 0} (action : ComputerAction F) (s : State host config)
      → Told action s (respond host config action s)
  unfolding respond
  responded Wire.screenshot s = (refl, pictured (fresh_frame host config s).1)
  responded Wire.cursor_position s = refl
  responded (Wire.left_click_drag a b) s = refl
  responded (Wire.scroll a d n) s = refl
  responded (Wire.left_click a) s = refl
  responded (Wire.right_click a) s = refl
  responded (Wire.middle_click a) s = refl
  responded (Wire.double_click a) s = refl
  responded (Wire.triple_click a) s = refl
  responded (Wire.mouse_move a) s = refl
  responded (Wire.typing a) s = refl
  responded (Wire.key a) s = refl
  responded (Wire.wait a) s = refl
