-- ===== src/Session/Fresh.antt =====
-- session.rs, `refresh`: the update that answers it began after the call.
use bolide.Base.{
  ℕ, ◌+◌, ◌≤◌, ltb, false, none, Bool, true, false, Option, none, List, [], ◌∷◌, All, ◌≡◌, ◌≢◌, ◌⊎◌,
  inl, inr, refl, arith,
}
use bolide.Base.Text.{Text}
use bolide.Error.{Error}
use bolide.Session.{
  refresh_starts, refresh_receives, painted_event, Command, write, request, Inner, connect, emit,
  count_request, push_command, take_baseline, swap_connected, raise_shutdown, begin_update, paint,
  resize, want_full, answer_all, finish_painting, store_cut_text,
}
use bolide.Session.Steps.{
  World, Reader, idle, in_update, ended, Writer, waiting, taken, swapped, writing, left, Call,
  counting, pushing, announcing, raising, start, Step, call, close, goes_on, takes, swaps, sizes,
  writes, write_fails, writer_stops, begins, paints, resizes, wants_full, announces_resize, answers,
  finishes, stores_cut_text, announces_cut_text, bell, read_fails, progress, dies, sends, calling,
  taking, swapping, sizing, writing_out, hang_up, failing, stopping, on_inner, begin, finish, step,
  run, run-invariant, if-both,
}
use bolide.Session.Steps.Calls.{advance-keeps}

-- Updates are numbered up to the `floor`, which is how many have begun.
abbrev Counted : ℕ → Inner → Type 0
Counted floor s = (s.last_painted_update ≤ floor) × (s.updates_begun ≡ floor)

abbrev UpTo : ℕ → Reader → Type 0
UpTo floor idle = Unit
UpTo floor (in_update n) = n ≤ floor
UpTo floor ended = Unit

abbrev Numbered : ℕ → World → Type 0
Numbered floor w = Counted floor w.inner × UpTo floor w.reader

-- The step does not begin an update.
abbrev pub Quiet : Step → Type 0
Quiet s = s ≢ begins

module _ (floor : ℕ) where
  progress-Counted : (c : Call) (s : Inner) → Counted floor s → Counted floor ((progress c s).1)
  unfolding progress count_request push_command emit raise_shutdown
  progress-Counted (counting (write b)) s h = h
  progress-Counted (counting (request i)) s h = h
  progress-Counted (pushing c) s h =
      if-both (λ (r : Inner × Option Error). Counted floor r.0) s.receiving _ _ (λ _. h) (λ _. h)
  progress-Counted (announcing reason) s h = h
  progress-Counted raising s h = h

  calling-Numbered : (n : ℕ) (w : World) → Numbered floor w → Numbered floor (calling n w)
  unfolding calling
  calling-Numbered n w h =
      (advance-keeps (Counted floor) progress-Counted n w.calls w.inner h.0, h.1)

  writer-Numbered :
      (wr : Writer) (cs : List Command) (reason : Text) (w : World)
      → Numbered floor w
      → Numbered floor (taking wr cs w)
        × Numbered floor (swapping wr w)
        × Numbered floor (sizing wr w)
        × Numbered floor (writing_out wr w)
        × Numbered floor (failing wr reason w)
        × Numbered floor (stopping wr w)
  unfolding taking swapping sizing writing_out failing stopping take_baseline dies swap_connected
      hang_up
  writer-Numbered waiting [] reason w h =
      (h, h, h, h, h, if-both (Numbered floor) w.inner.shutdown (hang_up w) w (λ _. h) (λ _. h))
  writer-Numbered waiting (c ∷ rest) reason w h =
      (h, h, h, h, h, if-both (Numbered floor) w.inner.shutdown (hang_up w) w (λ _. h) (λ _. h))
  writer-Numbered (taken i) cs reason w h = (h, h, h, h, h, h)
  writer-Numbered (swapped i first) cs reason w h = (h, h, h, h, h, h)
  writer-Numbered (writing c bytes) cs reason w h = (h, h, h, h, h, h)
  writer-Numbered left cs reason w h = (h, h, h, h, h, h)

  finish-Numbered :
      (r : Reader) (b : Bool) (w : World)
      → UpTo floor r
      → Numbered floor w
      → Numbered floor (finish r b w)
  unfolding finish finish_painting emit
  finish-Numbered (in_update n) true w u h = ((u, h.0.1), tt)
  finish-Numbered (in_update n) false w u h = (h.0, tt)
  finish-Numbered idle b w u h = h
  finish-Numbered ended b w u h = h

  step-Numbered : (s : Step) (w : World) → Quiet s → Numbered floor w → Numbered floor (step s w)
  unfolding step on_inner paint resize want_full answer_all store_cut_text emit sends dies
      swap_connected
  step-Numbered (call c) w q h = h
  step-Numbered close w q h = h
  step-Numbered (goes_on n) w q h = calling-Numbered n w h
  step-Numbered takes w q h = (writer-Numbered w.writer w.inner.commands [] w h).0
  step-Numbered swaps w q h = (writer-Numbered w.writer [] [] w h).1
  step-Numbered sizes w q h = (writer-Numbered w.writer [] [] w h).2
  step-Numbered writes w q h = (writer-Numbered w.writer [] [] w h).3
  step-Numbered (write_fails reason) w q h = (writer-Numbered w.writer [] reason w h).4
  step-Numbered writer_stops w q h = (writer-Numbered w.writer [] [] w h).5
  step-Numbered begins w q h = absurd (q refl)
  step-Numbered (paints fb) w q h = h
  step-Numbered (resizes width height) w q h = h
  step-Numbered wants_full w q h = h
  step-Numbered (announces_resize width height) w q h = h
  step-Numbered answers w q h = h
  step-Numbered (finishes b) w q h = finish-Numbered w.reader b w h.1 h
  step-Numbered (stores_cut_text text) w q h = h
  step-Numbered (announces_cut_text text) w q h = h
  step-Numbered bell w q h = h
  step-Numbered (read_fails reason) w q h = (h.0, tt)

  run-Numbered :
      (steps : List Step) (w : World)
      → All Quiet steps
      → Numbered floor w
      → Numbered floor (run steps w)
  unfolding run
  run-Numbered [] w q h = h
  run-Numbered (s ∷ steps) w q h = run-Numbered steps (step s w) q.1 (step-Numbered s w q.0 h)

-- Any step keeps the numbering, at the count that it leaves.
abbrev Numbering : World → Type 0
Numbering w = (floor : ℕ) × Numbered floor w

begin-Numbering : (r : Reader) (w : World) → Numbering w → Numbering (begin r w)
unfolding begin begin_update
begin-Numbering idle w (floor, h) =
    (floor + 1, ((omega (arith, h.0.0), omega (arith, h.0.1)), omega (arith, h.0.1)))
begin-Numbering (in_update n) w h = h
begin-Numbering ended w h = h

is_begins : (s : Step) → (s ≡ begins) ⊎ Quiet s
is_begins begins = inl refl
is_begins (call c) = inr (λ e. absurd (cc))
is_begins close = inr (λ e. absurd (cc))
is_begins (goes_on n) = inr (λ e. absurd (cc))
is_begins takes = inr (λ e. absurd (cc))
is_begins swaps = inr (λ e. absurd (cc))
is_begins sizes = inr (λ e. absurd (cc))
is_begins writes = inr (λ e. absurd (cc))
is_begins (write_fails reason) = inr (λ e. absurd (cc))
is_begins writer_stops = inr (λ e. absurd (cc))
is_begins (paints fb) = inr (λ e. absurd (cc))
is_begins (resizes width height) = inr (λ e. absurd (cc))
is_begins wants_full = inr (λ e. absurd (cc))
is_begins (announces_resize width height) = inr (λ e. absurd (cc))
is_begins answers = inr (λ e. absurd (cc))
is_begins (finishes b) = inr (λ e. absurd (cc))
is_begins (stores_cut_text text) = inr (λ e. absurd (cc))
is_begins (announces_cut_text text) = inr (λ e. absurd (cc))
is_begins bell = inr (λ e. absurd (cc))
is_begins (read_fails reason) = inr (λ e. absurd (cc))

step-begins : (w : World) → Numbering w → Numbering (step begins w)
unfolding step
step-begins w h = begin-Numbering w.reader w h

step-Numbering : (s : Step) (w : World) → Numbering w → Numbering (step s w)
step-Numbering s w h = elim (is_begins s) [
  | inl e ↦ rw e (step-begins w h)
  | inr q ↦ (h.0, step-Numbered h.0 s w q h.1)
]

not_ltb : (a b : ℕ) → b ≤ a → ltb a b ≡ false
not_ltb a b h = ground arith

start-Numbering : (w h : ℕ) → Numbering (start w h)
unfolding start connect
start-Numbering w h = (0, ((omega arith, refl), tt))

-- A refresh is called at any point of a session's run. However the tasks go on from there, as long as
-- no further update begins, it waits on at every Painted event: an update that was already on its way
-- when it was called never answers it.
pub refresh_waits :
    (width height : ℕ) (before after : List Step) (incremental : Bool) (n : ℕ)
    → All Quiet after
    → refresh_receives
        (refresh_starts incremental (run before (start width height)).inner).0
        (run after (run before (start width height))).inner
        (painted_event n)
      ≡ none
unfolding refresh_starts refresh_receives
refresh_waits width height before after incremental n quiet =
    let w = run before (start width height) in
    let numbered =
      run-invariant Numbering step-Numbering before (start width height)
        (start-Numbering width height) in
    let later = run-Numbered numbered.0 after w quiet numbered.1 in
    let waits : ltb w.inner.updates_begun (run after w).inner.last_painted_update ≡ false =
      not_ltb _ _ (omega (arith, later.0.0, numbered.1.0.1)) in
    rw waits refl
