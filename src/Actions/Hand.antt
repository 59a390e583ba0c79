-- ===== src/Actions/Hand.antt =====
-- actions.rs: a careful hand on mouse and keyboard, which every plan must satisfy.
use bolide.Base.{
  ℕ, zero, suc, ltb, lt→ltb, ◌==◌, ==_iff, Bool, true, false, ◌&&◌, ◌||◌, Option, some, none, List,
  [], ◌∷◌, ◌++◌, if◌then◌else◌, ◌≡◌, refl, sym, ◌∙◌,
}
use bolide.Actions.{
  RfbOp, pointer_op, key_op, sleep_op, PlanContext, presses, clicks_at, pause, press_all,
  release_reversed,
}
use bolide.Actions.Bounds.{OnScreen}

-- Where the pointer is, if that is known; the buttons held; the keys held, the last one first.
pub data Hand : Type 0 where
  hand : Option (ℕ × ℕ) → ℕ → List ℕ → Hand

unfoldable pub rests : Option (ℕ × ℕ) → ℕ → ℕ → Bool
rests none x y = false
rests (some p) x y = (p.0 == x) && (p.1 == y)

unfoldable pub release : ℕ → Option (ℕ × ℕ) → ℕ → List ℕ → Option Hand
release k at buttons [] = none
release k at buttons (j ∷ held) = if j == k then some (hand at buttons held) else none

-- A pointer event is on the screen, and it changes buttons only where the pointer already is. A key
-- goes up only when it is the last one that went down.
unfoldable pub feel : PlanContext → RfbOp → Hand → Option Hand
feel ctx (pointer_op x y b) (hand at buttons held) =
    if ltb x ctx.width && ltb y ctx.height && (b == buttons || rests at x y)
    then some (hand (some (x, y)) b held)
    else none
feel ctx (key_op k true) (hand at buttons held) = some (hand at buttons (k ∷ held))
feel ctx (key_op k false) (hand at buttons held) = release k at buttons held
feel ctx (sleep_op ms) h = some h

unfoldable pub then_feel : Option Hand → (Hand → Option Hand) → Option Hand
then_feel (some h) f = f h
then_feel none f = none

unfoldable pub feel_all : PlanContext → List RfbOp → Hand → Option Hand
feel_all ctx [] h = some h
feel_all ctx (op ∷ ops) h = then_feel (feel ctx op h) (feel_all ctx ops)

-- The keys held after `ks` went down in order.
abbrev pushed : List ℕ → List ℕ → List ℕ
pushed [] held = held
pushed (k ∷ ks) held = pushed ks (k ∷ held)

or_true : (b : Bool) → (b || true) ≡ true
or_true true = refl
or_true false = refl

module _ (ctx : PlanContext) where
  pub feel-then :
      (op : RfbOp) (ops : List RfbOp) (h : Hand) {h' : Hand}
      → feel ctx op h ≡ some h'
      → feel_all ctx (op ∷ ops) h ≡ feel_all ctx ops h'
  unfolding feel_all then_feel
  feel-then op ops h e = rw e refl

  pub feel-nil : (h : Hand) → feel_all ctx [] h ≡ some h
  unfolding feel_all
  feel-nil h = refl

  then_feel_assoc :
      (o : Option Hand) (f g : Hand → Option Hand)
      → then_feel (then_feel o f) g ≡ then_feel o (λ h. then_feel (f h) g)
  unfolding then_feel
  then_feel_assoc none f g = refl
  then_feel_assoc (some h) f g = refl

  then_feel-same :
      (o : Option Hand) (f g : Hand → Option Hand)
      → ((h : Hand) → f h ≡ g h)
      → then_feel o f ≡ then_feel o g
  unfolding then_feel
  then_feel-same none f g e = refl
  then_feel-same (some h) f g e = e h

  feel_all-append :
      (xs ys : List RfbOp) (h : Hand)
      → feel_all ctx (xs ++ ys) h ≡ then_feel (feel_all ctx xs h) (feel_all ctx ys)
  unfolding feel_all then_feel
  feel_all-append [] ys h = refl
  feel_all-append (x ∷ xs) ys h =
      then_feel-same (feel ctx x h) _ _ (feel_all-append xs ys)
      ∙ sym (then_feel_assoc (feel ctx x h) (feel_all ctx xs) (feel_all ctx ys))

  pub feel-append :
      (xs ys : List RfbOp) (h : Hand) {h' : Hand}
      → feel_all ctx xs h ≡ some h'
      → feel_all ctx (xs ++ ys) h ≡ feel_all ctx ys h'
  unfolding then_feel
  feel-append xs ys h e = feel_all-append xs ys h ∙ rw e refl

  pub feel-move :
      (x y b : ℕ) (at : Option (ℕ × ℕ)) (held : List ℕ)
      → OnScreen ctx (x, y)
      → feel ctx (pointer_op x y b) (hand at b held) ≡ some (hand (some (x, y)) b held)
  unfolding feel
  feel-move x y b at held h =
      rw (lt→ltb x ctx.width h.0, lt→ltb y ctx.height h.1, (==_iff b b).1 refl) refl

  pub feel-press :
      (x y b b' : ℕ) (held : List ℕ)
      → OnScreen ctx (x, y)
      → feel ctx (pointer_op x y b') (hand (some (x, y)) b held) ≡ some (hand (some (x, y)) b' held)
  unfolding feel rests
  feel-press x y b b' held h =
      rw
        (
          lt→ltb x ctx.width h.0,
          lt→ltb y ctx.height h.1,
          (==_iff x x).1 refl,
          (==_iff y y).1 refl,
          or_true (b' == b),
        )
        refl

  feel-presses :
      (x y b count : ℕ) (held : List ℕ)
      → OnScreen ctx (x, y)
      → feel_all ctx (presses x y b count) (hand (some (x, y)) 0 held)
        ≡ some (hand (some (x, y)) 0 held)
  unfolding presses
  feel-presses x y b zero held h = feel-nil _
  feel-presses x y b (suc count) held h =
      feel-then (pointer_op x y b) _ _ (feel-press x y 0 b held h)
      ∙ feel-then (pointer_op x y 0) _ _ (feel-press x y b 0 held h)
      ∙ feel-presses x y b count held h

  pub feel-clicks_at :
      (x y b count : ℕ) (at : Option (ℕ × ℕ)) (held : List ℕ)
      → OnScreen ctx (x, y)
      → feel_all ctx (clicks_at x y b count) (hand at 0 held) ≡ some (hand (some (x, y)) 0 held)
  unfolding clicks_at
  feel-clicks_at x y b count at held h =
      feel-then (pointer_op x y 0) _ _ (feel-move x y 0 at held h) ∙ feel-presses x y b count held h

  pub feel-pause : (ms : ℕ) (h : Hand) → feel_all ctx (pause ms) h ≡ some h
  unfolding pause feel_all then_feel feel
  feel-pause zero h = refl
  feel-pause (suc ms) h = refl

  pub feel-pause_if :
      (t : Bool) (ms : ℕ) (h : Hand) → feel_all ctx (if t then pause ms else []) h ≡ some h
  feel-pause_if true ms h = feel-pause ms h
  feel-pause_if false ms h = feel-nil h

  pub feel-sleep : (ms : ℕ) (h : Hand) → feel ctx (sleep_op ms) h ≡ some h
  unfolding feel
  feel-sleep ms h = refl

  pub feel-down :
      (k : ℕ) (held : List ℕ) (at : Option (ℕ × ℕ)) (b : ℕ)
      → feel ctx (key_op k true) (hand at b held) ≡ some (hand at b (k ∷ held))
  unfolding feel
  feel-down k held at b = refl

  pub feel-up :
      (k : ℕ) (held : List ℕ) (at : Option (ℕ × ℕ)) (b : ℕ)
      → feel ctx (key_op k false) (hand at b (k ∷ held)) ≡ some (hand at b held)
  unfolding feel release
  feel-up k held at b = rw ((==_iff k k).1 refl) refl

  feel-press_all :
      (ks held : List ℕ) (at : Option (ℕ × ℕ)) (b : ℕ)
      → feel_all ctx (press_all ks) (hand at b held) ≡ some (hand at b (pushed ks held))
  unfolding press_all
  feel-press_all [] held at b = feel-nil _
  feel-press_all (k ∷ ks) held at b =
      feel-then (key_op k true) (press_all ks) _ (feel-down k held at b)
      ∙ feel-press_all ks (k ∷ held) at b

  feel-release_reversed :
      (ks held : List ℕ) (at : Option (ℕ × ℕ)) (b : ℕ)
      → feel_all ctx (release_reversed ks) (hand at b (pushed ks held)) ≡ some (hand at b held)
  unfolding release_reversed
  feel-release_reversed [] held at b = feel-nil _
  feel-release_reversed (k ∷ ks) held at b =
      feel-append (release_reversed ks) (key_op k false ∷ []) _
        (feel-release_reversed ks (k ∷ held) at b)
      ∙ feel-then (key_op k false) [] _ (feel-up k held at b)
      ∙ feel-nil _

  pub feel-chord :
      (ks : List ℕ) (at : Option (ℕ × ℕ)) (b : ℕ)
      → feel_all ctx (press_all ks ++ release_reversed ks) (hand at b []) ≡ some (hand at b [])
  feel-chord ks at b =
      feel-append (press_all ks) (release_reversed ks) _ (feel-press_all ks [] at b)
      ∙ feel-release_reversed ks [] at b
