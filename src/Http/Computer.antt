-- ===== src/Http/Computer.antt =====
-- http.rs: `POST /computer`, from the plan to the record of the input.
use bolide.Base.{
  ℕ, ◌+◌, ◌≤◌, true, Option, none, some, List, [], ◌∷◌, Result, ok, err, panic, stuck, Returns, ◌≡◌,
  refl, ap, ◌∙◌, ◌⊎◌, inl, inr,
}
use bolide.Error.{Error}
use bolide.Framebuffer.{Framebuffer}
use bolide.Wire
use bolide.Wire.{ComputerAction, ComputerResponse}
use bolide.Actions
use bolide.Actions.{ActionError, RfbOp, pointer_op, key_op, sleep_op, Float, PlanContext, plan}
use bolide.Actions.Bounds.{Sized}
use bolide.Actions.Plan.{Rested, plan-Rested}
use bolide.Actions.Run.{Done, execute, AllSent, StoppedAt, execute_cases}
use bolide.Http.{
  ApiError, from_rfb, status_for, from_action, Host, ServerConfig, State, any_input, acted,
  after_run, respond, run_plan, computer, fresh_frame,
}
use bolide.Http.Fresh.{Pauses, Settled, Answer, fresh_frame-Answer}
use bolide.Http.Told.{Stamped, stamped, Told, responded}

from_action_status : (e : ActionError) → status_for ((from_action e).code) ≡ 400
unfolding from_action status_for
from_action_status (Actions.out_of_bounds x y w h) = refl
from_action_status (Actions.unknown_key name) = refl

module _ (host : Host) (config : ServerConfig) (float : Float) where
  -- What a request's plan is made for.
  abbrev pub context : State host config → PlanContext
  context s = record {
    width = (host.size s.world).0;
    height = (host.size s.world).1;
    pacing = config.pacing;
  }

  abbrev run : List RfbOp → State host config → Done host.desk.World
  run ops s = execute host.desk ops s.hands s.world

  planned :
      (action : ComputerAction (float.F64)) (s : State host config)
      {p : Result ActionError (List RfbOp)}
      → plan float action (context s) ≡ p
      → computer host config float (some action) s ≡ run_plan host config action p s
  unfolding computer
  planned action s e = rw e refl

  -- The request is refused with a status of 400, and nothing is sent or recorded.
  abbrev pub Refused : ComputerAction (float.F64) → State host config → Type 0
  Refused action s =
      (a : ApiError) × (status_for a.code ≡ 400)
      × (computer host config float (some action) s ≡ (s, err a))

  -- The state with the world and the hands of an execution.
  abbrev pub left_by : Done host.desk.World → Option ℕ → State host config
  left_by done last = record { world = done.world; hands = done.cursor; last_input = last }

  -- A plan that leaves nothing held is sent to its end, and the action answers; or to its first failure,
  -- and that is the answer. Both keep what was sent: the world, the hands where the last pointer event
  -- put them, and the time of the input.
  abbrev pub Executed : ComputerAction (float.F64) → State host config → Type 0
  Executed action s =
      (ops : List RfbOp) × (plan float action (context s) ≡ ok ops)
      × Rested (context s) none ops
      × (done : Done host.desk.World) × (last : Option ℕ) × Stamped ops (host.now done.world)
          s.last_input last
      × ((AllSent host.desk ops s.hands s.world done
            × Told host config action (left_by done last)
                (computer host config float (some action) s))
          ⊎ (StoppedAt host.desk ops s.hands s.world done
              × ((e : Error) × (done.failed ≡ some e)
                  × (computer host config float (some action) s
                      ≡ (left_by done last, err (from_rfb e))))))

  acted-Stamped :
      (ops : List RfbOp) (s : State host config)
      → Stamped ops
          (host.now (run ops s).world)
          s.last_input
          ((acted host config ops (run ops s) s).last_input)
  unfolding acted
  acted-Stamped ops s = stamped ops (host.now (run ops s).world) s.last_input

  run_cases :
      (action : ComputerAction (float.F64)) (s : State host config) (ops : List RfbOp)
      → computer host config float (some action) s ≡ run_plan host config action (ok ops) s
      → AllSent host.desk ops s.hands s.world (run ops s)
        ⊎ StoppedAt host.desk ops s.hands s.world (run ops s)
      → let last = (acted host config ops (run ops s) s).last_input in
        (AllSent host.desk ops s.hands s.world (run ops s)
          × Told host config action
              (left_by (run ops s) last)
              (computer host config float (some action) s))
        ⊎ (StoppedAt host.desk ops s.hands s.world (run ops s)
            × ((e : Error) × ((run ops s).failed ≡ some e)
                × (computer host config float (some action) s
                    ≡ (left_by (run ops s) last, err (from_rfb e)))))
  unfolding run_plan after_run acted
  run_cases action s ops c (inl sent) =
      inl
        (sent, rw (c, sent.1) (responded host config action (acted host config ops (run ops s) s)))
  run_cases action s ops c (inr stopped) =
      let (xs, op, ys, w, e, split, before, fails, f, at) = stopped in
      let state = acted host config ops (run ops s) s in
      inr (stopped, (e, f, c ∙ ap (λ q. after_run host config action q state) f))

  plan_cases :
      (action : ComputerAction (float.F64)) (s : State host config)
      (p : Result ActionError (List RfbOp))
      → plan float action (context s) ≡ p
      → Returns (Rested (context s) none) p
      → Refused action s ⊎ Executed action s
  unfolding run_plan
  plan_cases action s (ok ops) e rested = inr (
    ops,
    e,
    rested,
    run ops s,
    (acted host config ops (run ops s) s).last_input,
    acted-Stamped ops s,
    run_cases action s ops (planned action s e) (execute_cases host.desk ops s.hands s.world),
  )
  plan_cases action s (err x) e rested =
      inl (from_action x, from_action_status x, planned action s e)
  plan_cases action s panic e rested = absurd rested
  plan_cases action s stuck e rested = absurd rested

  -- A request for any action, on a session whose size is two words, is refused with 400 and changes
  -- nothing; or its plan, which leaves nothing held, is sent. Where all of it goes through, a screenshot
  -- answers with a fresh frame as a PNG, or with that frame's error, or with an internal one where it
  -- cannot be encoded; cursor_position answers with the hands; any other action answers with neither.
  -- Where an event fails, its error is the answer, and nothing behind it is sent. Either way the state
  -- keeps the world, the hands where the last pointer event sent put them, and the time at the end where
  -- the plan has an event, before a screenshot takes its frame.
  pub computer_cases :
      (action : ComputerAction (float.F64)) (s : State host config)
      → Sized (context s)
      → Refused action s ⊎ Executed action s
  computer_cases action s sized =
      plan_cases action s (plan float action (context s)) refl
        (plan-Rested float action (context s) none sized)

  -- Only a screenshot changes the state when it answers, and its plan is empty.
  response_keeps :
      (action : ComputerAction (float.F64)) (ops : List RfbOp) (s s' : State host config)
      → plan float action (context s) ≡ ok ops
      → any_input ops ≡ true
      → (respond host config action s').0 ≡ s'
  unfolding respond plan any_input
  response_keeps Wire.screenshot [] s s' e h = absurd (cc)
  response_keeps Wire.screenshot (op ∷ ops) s s' e h = absurd (cc)
  response_keeps Wire.cursor_position ops s s' e h = refl
  response_keeps (Wire.left_click_drag a b) ops s s' e h = refl
  response_keeps (Wire.scroll a d n) ops s s' e h = refl
  response_keeps (Wire.left_click a) ops s s' e h = refl
  response_keeps (Wire.right_click a) ops s s' e h = refl
  response_keeps (Wire.middle_click a) ops s s' e h = refl
  response_keeps (Wire.double_click a) ops s s' e h = refl
  response_keeps (Wire.triple_click a) ops s s' e h = refl
  response_keeps (Wire.mouse_move a) ops s s' e h = refl
  response_keeps (Wire.typing a) ops s s' e h = refl
  response_keeps (Wire.key a) ops s s' e h = refl
  response_keeps (Wire.wait a) ops s s' e h = refl

  run_keeps :
      (action : ComputerAction (float.F64)) (failed : Option Error) (s : State host config)
      → (respond host config action s).0 ≡ s
      → (after_run host config action failed s).0 ≡ s
  unfolding after_run
  run_keeps action none s h = h
  run_keeps action (some e) s h = refl

  ended :
      (action : ComputerAction (float.F64)) (s : State host config) (ops : List RfbOp)
      → plan float action (context s) ≡ ok ops
      → any_input ops ≡ true
      → (computer host config float (some action) s).0 ≡ acted host config ops (run ops s) s
  unfolding run_plan
  ended action s ops e h =
      ap (λ p. p.0) (planned action s e)
      ∙ run_keeps action ((run ops s).failed) (acted host config ops (run ops s) s)
          (response_keeps action ops s (acted host config ops (run ops s) s) e h)

  acted_stamp :
      (s : State host config) (ops : List RfbOp)
      → any_input ops ≡ true
      → (acted host config ops (run ops s) s).last_input ≡ some (host.now ((run ops s).world))
  unfolding acted
  acted_stamp s ops h = rw h refl

  Answer-at :
      (last : Option ℕ) (w : host.desk.World) (r : Result ApiError Framebuffer) {at : ℕ}
      → last ≡ some at
      → Settled host config last w × Answer host config last w r
      → Settled host config (some at) w × Answer host config (some at) w r
  Answer-at last w r e h = rw e at h

  -- After an action whose plan has an event, failed or not, the next screenshot asks for its frame when
  -- the time to settle has passed since the action ended, and by `Answer`. The clock's pauses are as long
  -- as they are asked to be.
  pub fresh_frame-computer :
      Pauses host
      → (action : ComputerAction (float.F64)) (s : State host config) (ops : List RfbOp)
      → plan float action (context s) ≡ ok ops
      → any_input ops ≡ true
      → (w : host.desk.World) × (host.now ((run ops s).world) + config.input_settle ≤ host.now w)
        × Answer host config
            (some (host.now ((run ops s).world)))
            w
            ((fresh_frame host config ((computer host config float (some action) s).0)).1)
  fresh_frame-computer pauses action s ops e h =
      let stamp = ap (λ t. t.last_input) (ended action s ops e h) ∙ acted_stamp s ops h in
      let (w, settled, answer, _) =
        fresh_frame-Answer host config pauses ((computer host config float (some action) s).0) in
      let at_end = Answer-at _ w _ stamp (settled, answer) in (w, at_end.0, at_end.1)
