-- ===== src/Actions/Plan.antt =====
-- actions.rs, `plan`: every plan is one that a careful hand can carry out.
use bolide.Base.{
  ℕ, zero, suc, ◌+◌, ◌≤◌, max, ltb, ◌==◌, true, false, Option, Option-cases, some, List, [], ◌∷◌,
  if◌then◌else◌, Result, ok, err, panic, stuck, Returns, Returns-bind, Returns-weaken, Returns-if,
  ◌≡◌, refl, ◌∙◌, arith, inl, inr,
}
use bolide.Base.Text.{Text, codes}
use bolide.Proto.{button_left}
use bolide.Keysym.{parse_chord, keysym_for}
use bolide.Keysym.Chords.{parse_chord-Returns}
use bolide.Wire.{
  ScrollDirection, Coordinate, ComputerAction, screenshot, left_click, right_click, middle_click,
  double_click, triple_click, left_click_drag, mouse_move, typing, key, scroll, cursor_position,
  wait,
}
use bolide.Actions.{
  RfbOp, pointer_op, key_op, PlanContext, DragPacing, check, pause, held_moves, drag, along,
  type_ops, keysym_for_typed, named_key, from_unknown_key, click, scroll_ops, wheel_button, Float,
  plan,
}
use bolide.Actions.Bounds.{Sized, OnScreen, check_cases}
use bolide.Actions.Drag.{along-Nearest, along-end}
use bolide.Actions.Hand.{
  hand, feel_all, feel-then, feel-nil, feel-append, feel-move, feel-press, feel-pause,
  feel-pause_if, feel-clicks_at, feel-chord, feel-sleep, feel-down, feel-up,
}

module _ (ctx : PlanContext) (s : Sized ctx) where
  along-OnScreen :
      (start end : ℕ × ℕ) (i n : ℕ)
      → OnScreen ctx start
      → OnScreen ctx end
      → 1 ≤ n
      → i ≤ n
      → OnScreen ctx (along start.0 end.0 i n, along start.1 end.1 i n)
  along-OnScreen start end i n h k m j =
      let x = along-Nearest start.0 end.0 i n (omega arith) (omega arith) m j in
      let y = along-Nearest start.1 end.1 i n (omega arith) (omega arith) m j in
      (omega (arith, x.2), omega (arith, y.2))

  feel-held_move :
      (pacing : DragPacing) (start end : ℕ × ℕ) (n i left : ℕ) (at : Option (ℕ × ℕ))
      → OnScreen ctx start
      → OnScreen ctx end
      → 1 ≤ n
      → i ≤ n
      → feel_all ctx (held_moves pacing start end n i (suc left)) (hand at button_left [])
        ≡ feel_all ctx
            (held_moves pacing start end n (suc i) left)
            (hand (some (along start.0 end.0 i n, along start.1 end.1 i n)) button_left [])
  unfolding held_moves
  feel-held_move pacing start end n i left at h k m j =
      feel-append ctx (if ltb 1 i then pause pacing.step_ms else []) _ _
        (feel-pause_if ctx (ltb 1 i) pacing.step_ms (hand at button_left []))
      ∙ feel-then ctx (pointer_op (along start.0 end.0 i n) (along start.1 end.1 i n) button_left) _
          _ (feel-move ctx _ _ button_left at [] (along-OnScreen start end i n h k m j))

  -- The moves that are left are none: the pointer is where the last one put it.
  feel-arrived :
      (pacing : DragPacing) (start end : ℕ × ℕ) (n i j : ℕ)
      → OnScreen ctx start
      → OnScreen ctx end
      → 1 ≤ n
      → i ≡ n
      → feel_all ctx
          (held_moves pacing start end n j 0)
          (hand (some (along start.0 end.0 i n, along start.1 end.1 i n)) button_left [])
        ≡ some (hand (some end) button_left [])
  unfolding held_moves
  feel-arrived pacing start end n i j h k m e =
      let x = along-end start.0 end.0 n (omega arith) (omega arith) m in
      let y = along-end start.1 end.1 n (omega arith) (omega arith) m in
      feel-nil ctx _ ∙ rw (e, x, y) refl

  feel-held_moves :
      (pacing : DragPacing) (start end : ℕ × ℕ) (n i left : ℕ) (at : Option (ℕ × ℕ))
      → OnScreen ctx start
      → OnScreen ctx end
      → 1 ≤ n
      → i + left ≡ n
      → feel_all ctx (held_moves pacing start end n i (suc left)) (hand at button_left [])
        ≡ some (hand (some end) button_left [])
  feel-held_moves pacing start end n i zero at h k m j =
      feel-held_move pacing start end n i zero at h k m (omega arith)
      ∙ feel-arrived pacing start end n i (suc i) h k m (omega arith)
  feel-held_moves pacing start end n i (suc left) at h k m j =
      feel-held_move pacing start end n i (suc left) at h k m (omega arith)
      ∙ feel-held_moves pacing start end n (suc i) left _ h k m (omega arith)

  feel-drag :
      (start end : ℕ × ℕ) (pacing : DragPacing) (at : Option (ℕ × ℕ))
      → OnScreen ctx start
      → OnScreen ctx end
      → feel_all ctx (drag start end pacing) (hand at 0 []) ≡ some (hand (some end) 0 [])
  unfolding drag
  feel-drag start end pacing at h k =
      feel-then ctx (pointer_op start.0 start.1 0) _ _ (feel-move ctx _ _ 0 at [] h)
      ∙ feel-then ctx (pointer_op start.0 start.1 button_left) _ _ (feel-press ctx _ _ 0 _ [] h)
      ∙ feel-append ctx (pause pacing.dwell_ms) _ _ (feel-pause ctx pacing.dwell_ms _)
      ∙ feel-append ctx (held_moves pacing start end (max pacing.steps 1) 1 (max pacing.steps 1)) _
          _ (feel-all_moves (max pacing.steps 1) (omega arith))
      ∙ feel-append ctx (pause pacing.dwell_ms) _ _ (feel-pause ctx pacing.dwell_ms _)
      ∙ feel-then ctx (pointer_op end.0 end.1 0) [] _ (feel-press ctx _ _ button_left 0 [] k)
      ∙ feel-nil ctx _
    where
      feel-all_moves :
          (n : ℕ)
          → 1 ≤ n
          → feel_all ctx (held_moves pacing start end n 1 n) (hand (some start) button_left [])
            ≡ some (hand (some end) button_left [])
      feel-all_moves zero m = absurd (omega arith)
      feel-all_moves (suc n) m = feel-held_moves pacing start end (suc n) 1 n _ h k m (omega arith)

-- The hand can carry out `ops`, and ends with no button and no key held.
abbrev pub Rested : PlanContext → Option (ℕ × ℕ) → List RfbOp → Type 0
Rested ctx at ops =
    (at' : Option (ℕ × ℕ)) × (feel_all ctx ops (hand at 0 []) ≡ some (hand at' 0 []))

check-OnScreen :
    (ctx : PlanContext) (at : Coordinate) → Sized ctx → Returns (OnScreen ctx) (check ctx at)
check-OnScreen ctx (x, y) s = elim (check_cases ctx x y s) [
  | inl (p, _, _, on, e) ↦ rw e on
  | inr (_, e) ↦ rw e tt
]

abbrev Anything : {A : Type 0} → A → Type 0
Anything a = Unit

from_unknown_key-Returns :
    {A : Type 0} (P : A → Type 0) (m : Result Text A) → Returns P m → Returns P (from_unknown_key m)
unfolding from_unknown_key
from_unknown_key-Returns P (ok a) h = h
from_unknown_key-Returns P (err e) h = tt
from_unknown_key-Returns P panic h = h
from_unknown_key-Returns P stuck h = h

named_key-Returns : (name : Text) → Returns Anything (named_key name)
unfolding named_key
named_key-Returns name = elim (Option-cases (keysym_for name)) [
  | inl e ↦ rw (e, named_key) tt
  | inr (k, e) ↦ rw (e, named_key) tt
]

keysym_for_typed-Returns : (c : ℕ) → Returns Anything (keysym_for_typed c)
unfolding keysym_for_typed
keysym_for_typed-Returns c =
    Returns-if Anything _ _ (c == 10) (λ _. named_key-Returns (codes "Return"))
      (λ _.
        Returns-if Anything _ _ (c == 13) (λ _. named_key-Returns (codes "Return"))
          (λ _. Returns-if Anything _ _ (c == 9) (λ _. named_key-Returns (codes "Tab")) (λ _. tt)))

type_ops-Rested :
    (ctx : PlanContext) (text : Text) (at : Option (ℕ × ℕ))
    → Returns (Rested ctx at) (type_ops text)
unfolding type_ops
type_ops-Rested ctx [] at = (at, feel-nil ctx _)
type_ops-Rested ctx (c ∷ text) at =
    Returns-bind Anything (Rested ctx at) (from_unknown_key (keysym_for_typed c)) _
      (from_unknown_key-Returns Anything _ (keysym_for_typed-Returns c))
      (λ k _.
        Returns-bind (Rested ctx at) (Rested ctx at) (type_ops text) _ (type_ops-Rested ctx text at)
          (λ ops h. (
            h.0,
            feel-then ctx (key_op k true) _ _ (feel-down ctx k [] at 0)
                ∙ feel-then ctx (key_op k false) ops _ (feel-up ctx k [] at 0)
                ∙ h.1,
          )))

click-Rested :
    (ctx : PlanContext) (p : Coordinate) (buttons count : ℕ) (at : Option (ℕ × ℕ))
    → Sized ctx
    → Returns (Rested ctx at) (click ctx p buttons count)
unfolding click
click-Rested ctx p buttons count at s =
    Returns-bind (OnScreen ctx) (Rested ctx at) (check ctx p) _ (check-OnScreen ctx p s)
      (λ q on. (some q, feel-clicks_at ctx q.0 q.1 buttons count at [] on))

scroll_ops-Rested :
    (ctx : PlanContext) (p : ℕ × ℕ) (direction : ScrollDirection) (amount : ℕ) (at : Option (ℕ × ℕ))
    → OnScreen ctx p
    → Rested ctx at (scroll_ops p direction amount)
unfolding scroll_ops
scroll_ops-Rested ctx p direction zero at on = (at, feel-nil ctx _)
scroll_ops-Rested ctx p direction (suc n) at on =
    (some p, feel-clicks_at ctx p.0 p.1 (wheel_button direction) (suc n) at [] on)

-- Every action on every text and coordinate, from any place of the pointer: `plan` returns an error,
-- or operations that a careful hand carries out. Each pointer event is on the screen, buttons change
-- only where the pointer already is, each key goes up before those that went down before it, and at
-- the end nothing is held.
pub plan-Rested :
    (float : Float) (action : ComputerAction float.F64) (ctx : PlanContext) (at : Option (ℕ × ℕ))
    → Sized ctx
    → Returns (Rested ctx at) (plan float action ctx)
unfolding plan
plan-Rested float screenshot ctx at s = (at, feel-nil ctx _)
plan-Rested float cursor_position ctx at s = (at, feel-nil ctx _)
plan-Rested float (left_click p) ctx at s = click-Rested ctx p _ 1 at s
plan-Rested float (right_click p) ctx at s = click-Rested ctx p _ 1 at s
plan-Rested float (middle_click p) ctx at s = click-Rested ctx p _ 1 at s
plan-Rested float (double_click p) ctx at s = click-Rested ctx p _ 2 at s
plan-Rested float (triple_click p) ctx at s = click-Rested ctx p _ 3 at s
plan-Rested float (left_click_drag p q) ctx at s =
    Returns-bind (OnScreen ctx) (Rested ctx at) (check ctx p) _ (check-OnScreen ctx p s) (λ start h.
      Returns-bind (OnScreen ctx) (Rested ctx at) (check ctx q) _ (check-OnScreen ctx q s)
        (λ end k. (some end, feel-drag ctx s start end ctx.pacing at h k)))
plan-Rested float (mouse_move p) ctx at s =
    Returns-bind (OnScreen ctx) (Rested ctx at) (check ctx p) _ (check-OnScreen ctx p s)
      (λ q on. (some q, feel-then ctx _ [] _ (feel-move ctx q.0 q.1 0 at [] on) ∙ feel-nil ctx _))
plan-Rested float (scroll p direction amount) ctx at s =
    Returns-bind (OnScreen ctx) (Rested ctx at) (check ctx p) _ (check-OnScreen ctx p s)
      (λ q on. scroll_ops-Rested ctx q direction amount at on)
plan-Rested float (typing text) ctx at s = type_ops-Rested ctx text at
plan-Rested float (key text) ctx at s =
    Returns-bind Anything (Rested ctx at) (from_unknown_key (parse_chord text)) _
      (from_unknown_key-Returns Anything _
        (Returns-weaken _ Anything (parse_chord text) (parse_chord-Returns text) (λ _ _. tt)))
      (λ ks _. (at, feel-chord ctx ks at 0))
plan-Rested float (wait duration) ctx at s =
    (at, feel-then ctx _ [] _ (feel-sleep ctx _ _) ∙ feel-nil ctx _)
