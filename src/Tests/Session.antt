-- ===== src/Tests/Session.antt =====
-- session.rs at concrete runs.
use bolide.Base.{ℕ, ◌++◌, none, true, false, List, [], ◌∷◌, ◌≡◌, refl}
use bolide.Base.Text.{codes}
use bolide.Proto.Messages.{framebuffer_update_request}
use bolide.Session.{
  refresh_starts, refresh_receives, painted_event, Command, request, connect, swap_connected,
  finish_painting, emit, answer_all, begin_update, raise_shutdown, push_command, count_request,
  want_full, take_baseline, sized_request,
}
use bolide.Framebuffer.{black}
use bolide.Session.Steps.{
  Step, start, run, call, close, goes_on, takes, swaps, sizes, writes, begins, finishes, answers,
  read_fails, wants_full, step, calling, advance, dies, finish, on_inner, begin, progress,
  writing_out, sizing, swapping, taking, sends, matched,
}
use bolide.Session.Deaths.{deaths, marking}
use bolide.Session.Owed.{Behind, under_way}
use bolide.Session.Requests.{run-FirstWhole, InRun}
use bolide.Session.Fresh.{refresh_waits}

-- An update arrives, the socket fails, and the last handle closes the session while the failure is being
-- announced.
abbrev short_life : List Step
short_life =
    begins ∷ answers ∷ finishes true ∷ read_fails (codes "eof") ∷ close ∷ goes_on 0 ∷ goes_on 0 ∷ []

short_life_ends :
    ((run short_life (start 4 3)).inner.connected ≡ false)
    × (deaths (run short_life (start 4 3)).inner.events ≡ 1)
    × (marking (run short_life (start 4 3)).calls ≡ 0)
unfolding run step calling advance dies swap_connected finish on_inner begin start finish_painting
    emit answer_all begin_update connect progress raise_shutdown
short_life_ends = (refl, refl, refl)

-- Two incremental requests, with a resize after the first was built and before it is written.
abbrev first_requests : List Step
first_requests =
    call (request true)
    ∷ goes_on 0
    ∷ goes_on 0
    ∷ call (request true)
    ∷ goes_on 0
    ∷ goes_on 0
    ∷ takes
    ∷ swaps
    ∷ sizes
    ∷ wants_full
    ∷ writes
    ∷ takes
    ∷ swaps
    ∷ sizes
    ∷ writes
    ∷ []

two_written :
    (run first_requests (start 4 3)).wire
    ≡ (request true, framebuffer_update_request false 0 0 4 3)
      ∷ (request true, framebuffer_update_request false 0 0 4 3)
      ∷ []
unfolding run step writing_out sizing swapping taking on_inner calling sends start advance connect
    progress push_command count_request matched want_full take_baseline sized_request black
two_written = refl

start_owes : (start 4 3).inner.needs_full ≡ true
unfolding start connect
start_owes = refl

run-FirstWhole_example :
    (new : List (Command × List ℕ)) × ((run first_requests (start 4 3)).wire
      ≡ (start 4 3).wire ++ new)
    × Behind (InRun first_requests (start 4 3)) (under_way (start 4 3).writer) new (λ k. Unit)
run-FirstWhole_example = run-FirstWhole (start 4 3) first_requests start_owes

-- The call comes while the first update is arriving, which then finishes.
refresh_waits_example :
    refresh_receives
      (refresh_starts true (run (begins ∷ []) (start 4 3)).inner).0
      (run
        (call (request true) ∷ goes_on 0 ∷ goes_on 0 ∷ answers ∷ finishes true ∷ [])
        (run (begins ∷ []) (start 4 3))).inner
      (painted_event 1)
    ≡ none
refresh_waits_example =
    refresh_waits 4 3 (begins ∷ [])
      (call (request true) ∷ goes_on 0 ∷ goes_on 0 ∷ answers ∷ finishes true ∷ []) true 1
      (
        (λ e. absurd (cc)),
        ((λ e. absurd (cc)), ((λ e. absurd (cc)), ((λ e. absurd (cc)), ((λ e. absurd (cc)), tt)))),
      )
