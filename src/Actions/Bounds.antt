-- ===== src/Actions/Bounds.antt =====
-- actions.rs, `PlanContext::check`: which coordinates are on the screen.
use bolide.Base.{ℕ, ◌%◌, ◌^◌, ◌<◌, lt→leb, le→leb, ok, err, ◌≡◌, refl, ◌⊎◌, inl, inr, arith, dec_lt}
use bolide.Base.Ints.{ℤ, pos, negsuc}
use bolide.Actions.{PlanContext, check, at_least, out_of_bounds}

-- The screen's sides are `u16`s.
abbrev pub Sized : PlanContext → Type 0
Sized ctx = (ctx.width < 2 ^ 16) × (ctx.height < 2 ^ 16)

abbrev pub OnScreen : PlanContext → ℕ × ℕ → Type 0
OnScreen ctx p = (p.0 < ctx.width) × (p.1 < ctx.height)

low_id : (x : ℕ) → x < 2 ^ 16 → x % 2 ^ 16 ≡ x
low_id x h = omega arith

lower_of : {a b n : ℕ} → pos a ≡ pos b → b < n → a < n
lower_of {a = a} {b = b} e h = let same : a ≡ b = cc in omega arith

-- Every outcome of `check`. A coordinate that is a pixel of the screen is given back
-- as it is, and any other one is refused with itself and the screen's size.
pub check_cases :
    (ctx : PlanContext) (x y : ℤ)
    → Sized ctx
    → ((p : ℕ × ℕ) × (x ≡ pos p.0) × (y ≡ pos p.1) × OnScreen ctx p × (check ctx (x, y) ≡ ok p))
      ⊎ (((p : ℕ × ℕ) → x ≡ pos p.0 → y ≡ pos p.1 → OnScreen ctx p → ⊥)
          × (check ctx (x, y) ≡ err (out_of_bounds x y ctx.width ctx.height)))
unfolding check at_least
check_cases ctx (negsuc x) y s = inr ((λ p e _ _. absurd (cc)), refl)
check_cases ctx (pos x) (negsuc y) s = inr ((λ p _ e _. absurd (cc)), refl)
check_cases ctx (pos x) (pos y) s = elim (dec_lt x ctx.width) [
  | yes p ↦ elim (dec_lt y ctx.height) [
    | yes q ↦ inl (
      (x, y),
      refl,
      refl,
      (p, q),
      rw
          (
            lt→leb ctx.width x p,
            lt→leb ctx.height y q,
            low_id x (omega arith),
            low_id y (omega arith),
          )
          refl,
    )
    | no q ↦ inr (
      (λ r _ e on. q (lower_of e on.1)),
      rw (lt→leb ctx.width x p, le→leb ctx.height y (omega arith)) refl,
    )
  ]
  | no p ↦ inr ((λ r e _ on. p (lower_of e on.0)), rw (le→leb ctx.width x (omega arith)) refl)
]
