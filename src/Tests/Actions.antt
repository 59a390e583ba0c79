-- ===== src/Tests/Actions.antt =====
-- actions.rs at concrete actions.
use bolide.Base.{
  ℕ, ◌*◌, ◌≤◌, min, max, false, Option, some, none, List, [], ◌∷◌, ◌≡◌, ◌⊎◌, refl, arith, Returns,
  ok, err, zero, suc,
}
use bolide.Base.Ints.{pos, negsuc}
use bolide.Error.{Error, closed}
use bolide.Wire.{left_click_drag}
use bolide.Actions.{
  RfbOp, pointer_op, PlanContext, default_pacing, Float, plan, along, check, out_of_bounds,
}
use bolide.Actions.Bounds.{OnScreen, check_cases}
use bolide.Actions.Drag.{Nearest, along-Nearest}
use bolide.Actions.Plan.{Rested, plan-Rested}
use bolide.Actions.Run.{Desk, execute, AllSent, StoppedAt, execute_cases}

abbrev pub screen : PlanContext
screen = record { width = 800; height = 600; pacing = default_pacing }

-- Whole seconds stand for the numbers of `f64`.
abbrev pub seconds : Float
seconds = record {
  F64 = ℕ;
  is_nan = λ _. false;
  max_zero = λ s. s;
  float_zero = 0;
  thousand_times = λ s. 1000 * s;
  as_u64 = λ s. s;
}

plan-Rested_example :
    Returns
      (Rested screen none)
      (plan seconds (left_click_drag (pos 10, pos 20) (pos 700, pos 30)) screen)
plan-Rested_example =
    plan-Rested seconds (left_click_drag (pos 10, pos 20) (pos 700, pos 30)) screen none
      (omega arith, omega arith)

along-Nearest_example :
    Nearest 700 10 7 20 (along 700 10 7 20)
    × (min 700 10 ≤ along 700 10 7 20)
    × (along 700 10 7 20 ≤ max 700 10)
along-Nearest_example =
    along-Nearest 700 10 7 20 (omega arith) (omega arith) (omega arith) (omega arith)

along_rounds : along 700 10 7 20 ≡ 458
unfolding along
along_rounds = refl

check_cases_example :
    ((p : ℕ × ℕ) × (pos 799 ≡ pos p.0)
      × (negsuc 0 ≡ pos p.1)
      × OnScreen screen p
      × (check screen (pos 799, negsuc 0) ≡ ok p))
    ⊎ (((p : ℕ × ℕ) → pos 799 ≡ pos p.0 → negsuc 0 ≡ pos p.1 → OnScreen screen p → ⊥)
        × (check screen (pos 799, negsuc 0) ≡ err (out_of_bounds (pos 799) (negsuc 0) 800 600)))
check_cases_example = check_cases screen (pos 799) (negsuc 0) (omega arith, omega arith)

abbrev if_open : ℕ → ℕ × Option Error
if_open zero = (0, some closed)
if_open (suc w) = (w, none)

-- A desk that takes two events and is then closed.
abbrev short_desk : Desk
short_desk = record {
  World = ℕ;
  send_pointer = λ x y b w. if_open w;
  send_key = λ k down w. if_open w;
  sleep = λ ms w. w;
}

abbrev three_events : List RfbOp
three_events = pointer_op 1 2 0 ∷ pointer_op 3 4 0 ∷ pointer_op 5 6 0 ∷ []

execute_cases_example :
    AllSent short_desk three_events
      (pos 0, pos 0)
      2
      (execute short_desk three_events (pos 0, pos 0) 2)
    ⊎ StoppedAt short_desk three_events
        (pos 0, pos 0)
        2
        (execute short_desk three_events (pos 0, pos 0) 2)
execute_cases_example = execute_cases short_desk three_events (pos 0, pos 0) 2
