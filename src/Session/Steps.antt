-- ===== src/Session/Steps.antt =====
-- session.rs and client.rs: the two tasks and the handles as steps on what they share, an access each. A
-- run is a list of steps in any order, which takes in every order that the tasks can make. A step that
-- its task is not ready for does nothing.
pub mod Calls
use bolide.Base.{
  ℕ, zero, suc, ◌+◌, ◌++◌, Bool, true, false, some, none, Option, List, [], ◌∷◌, if◌then◌else◌, ◌≡◌,
  refl,
}
use bolide.Base.Text.{Text}
use bolide.Framebuffer.{Framebuffer}
use bolide.Session.{
  Command, write, request, Inner, connect, emit, take_baseline, sized_request, count_request,
  push_command, swap_connected, raise_shutdown, begin_update, paint, resize, want_full, answer_all,
  finish_painting, store_cut_text, resized, cut_text_event, bell_event, disconnected,
}

-- The read loop: between two messages, in the update of that number, or ended.
pub data Reader : Type 0 where
  idle : Reader
  in_update : ℕ → Reader
  ended : Reader

-- The writer task: waiting for a command; with a request taken, or with what `needs_full.swap` gave for
-- it; with bytes to write; or past its loop.
pub data Writer : Type 0 where
  waiting : Writer
  taken : (incremental : Bool) → Writer
  swapped : (incremental first : Bool) → Writer
  writing : Command → List ℕ → Writer
  left : Writer

-- A call under way: of `send`, which has found the session connected, before it counts and before it
-- pushes; of `mark_dead`, which was the one that swapped, before it announces and before it raises the flag.
pub data Call : Type 0 where
  counting pushing : Command → Call
  announcing : Option Text → Call
  raising : Call

-- `wire` is what the writer task has written, each command with its bytes, oldest first.
pub record World : Type 0 where
  pub inner : Inner
  pub reader : Reader
  pub writer : Writer
  pub calls : List Call
  pub wire : List (Command × List ℕ)

unfoldable pub start : ℕ → ℕ → World
start w h = record { inner = connect w h; reader = idle; writer = waiting; calls = []; wire = [] }

pub data Step : Type 0 where
  -- a handle's method, or the read loop's own request, loads `connected`
  call : Command → Step
  -- `close`, and the drop of the last handle, swap `connected`
  close : Step
  -- the next access of the call of that index
  goes_on : ℕ → Step
  -- the writer task, from `recv` to `write_all`, and out of its loop
  takes : Step
  swaps : Step
  sizes : Step
  writes : Step
  write_fails : Text → Step
  writer_stops : Step
  -- the read loop
  begins : Step
  paints : Framebuffer → Step
  resizes : ℕ → ℕ → Step
  wants_full : Step
  announces_resize : ℕ → ℕ → Step
  answers : Step
  finishes : Bool → Step
  stores_cut_text : Text → Step
  announces_cut_text : Text → Step
  bell : Step
  read_fails : Text → Step

-- What is left of a call behind its next access.
unfoldable pub progress : Call → Inner → List Call × Inner
progress (counting c) s = (pushing c ∷ [], count_request c s)
progress (pushing c) s = ([], (push_command c s).0)
progress (announcing reason) s = (raising ∷ [], emit s (disconnected reason))
progress raising s = ([], raise_shutdown s)

unfoldable pub advance : ℕ → List Call → Inner → List Call × Inner
advance n [] s = ([], s)
advance zero (c ∷ cs) s = let (left_of, s') = progress c s in (left_of ++ cs, s')
advance (suc n) (c ∷ cs) s = let (cs', s') = advance n cs s in (c ∷ cs', s')

-- `mark_dead` begins: the swap, and the rest of the call where it found the session connected.
unfoldable pub dies : Option Text → World → World
dies reason w = record w {
  inner = swap_connected w.inner;
  calls = if w.inner.connected then announcing reason ∷ w.calls else w.calls;
}

-- `send` begins: where the session is not connected, that is all.
unfoldable pub sends : Command → World → World
sends c w = record w { calls = if w.inner.connected then counting c ∷ w.calls else w.calls }

unfoldable pub calling : ℕ → World → World
calling n w =
    let (calls, inner) = advance n w.calls w.inner in record w { inner = inner; calls = calls }

-- `recv`, and the `match` on the command.
unfoldable pub matched : Command → Writer
matched (write bytes) = writing (write bytes) bytes
matched (request incremental) = taken incremental

unfoldable pub taking : Writer → List Command → World → World
taking waiting (c ∷ rest) w = record w {
  inner = record w.inner { commands = rest };
  writer = matched c;
}
taking other commands w = w

-- The two accesses of `build_request`.
unfoldable pub swapping : Writer → World → World
swapping (taken incremental) w = record w {
  inner = take_baseline w.inner;
  writer = swapped incremental w.inner.needs_full;
}
swapping other w = w

unfoldable pub sizing : Writer → World → World
sizing (swapped incremental first) w = record w {
  writer = writing (request incremental) (sized_request incremental first w.inner);
}
sizing other w = w

-- `write_all`, which goes through or fails.
unfoldable pub writing_out : Writer → World → World
writing_out (writing c bytes) w = record w { writer = waiting; wire = w.wire ++ ((c, bytes) ∷ []) }
writing_out other w = w

unfoldable pub hang_up : World → World
hang_up w = record w { inner = record w.inner { receiving = false }; writer = left }

-- The receiver is dropped behind `mark_dead` in the code, and anywhere from its swap on here.
unfoldable pub failing : Writer → Text → World → World
failing (writing c bytes) reason w = record (dies (some reason) w) { writer = left }
failing other reason w = w

-- Where it waits, the flag ends the loop; past it, the receiver is dropped.
unfoldable pub stopping : Writer → World → World
stopping waiting w = if w.inner.shutdown then hang_up w else w
stopping left w = hang_up w
stopping other w = w

unfoldable pub on_inner : (Inner → Inner) → World → World
on_inner f w = record w { inner = f w.inner }

unfoldable pub begin : Reader → World → World
begin idle w = record w {
  inner = begin_update w.inner;
  reader = in_update (w.inner.updates_begun + 1);
}
begin (in_update n) w = w
begin ended w = w

unfoldable pub finish : Reader → Bool → World → World
finish (in_update n) true w = record w { inner = finish_painting n w.inner; reader = idle }
finish (in_update n) false w = record w { reader = idle }
finish idle painted_any w = w
finish ended painted_any w = w

unfoldable pub step : Step → World → World
step (call c) w = sends c w
step close w = dies none w
step (goes_on n) w = calling n w
step takes w = taking w.writer w.inner.commands w
step swaps w = swapping w.writer w
step sizes w = sizing w.writer w
step writes w = writing_out w.writer w
step (write_fails reason) w = failing w.writer reason w
step writer_stops w = stopping w.writer w
step begins w = begin w.reader w
step (paints fb) w = on_inner (paint fb) w
step (resizes width height) w = on_inner (resize width height) w
step wants_full w = on_inner want_full w
step (announces_resize width height) w = on_inner (λ s. emit s (resized width height)) w
step answers w = on_inner answer_all w
step (finishes painted_any) w = finish w.reader painted_any w
step (stores_cut_text text) w = on_inner (store_cut_text text) w
step (announces_cut_text text) w = on_inner (λ s. emit s (cut_text_event text)) w
step bell w = on_inner (λ s. emit s bell_event) w
step (read_fails reason) w = record (dies (some reason) w) { reader = ended }

unfoldable pub run : List Step → World → World
run [] w = w
run (s ∷ steps) w = run steps (step s w)

-- An invariant holds of every run from a world where it holds.
pub run-invariant :
    (P : World → Type 0)
    → ((s : Step) (w : World) → P w → P (step s w))
    → (steps : List Step) (w : World) → P w
    → P (run steps w)
unfolding run
run-invariant P keeps [] w h = h
run-invariant P keeps (s ∷ steps) w h = run-invariant P keeps steps (step s w) (keeps s w h)

-- What holds of both branches of a test holds of it.
pub if-both :
    {A : Type 0} (P : A → Type 0) (t : Bool) (a b : A)
    → (t ≡ true → P a)
    → (t ≡ false → P b)
    → P (if t then a else b)
if-both P true a b h k = h refl
if-both P false a b h k = k refl
