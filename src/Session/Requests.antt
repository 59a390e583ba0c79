-- ===== src/Session/Requests.antt =====
-- session.rs and client.rs: which FramebufferUpdateRequests go out whole.
use bolide.Base.{
  ℕ, ◌++◌, Bool, true, false, Option, some, none, List, [], ◌∷◌, ◌≡◌, refl, ap, ◌∙◌, sym, inl,
}
use mathlib.Core.List.{append_assoc, append-nil}
use bolide.Base.Text.{Text}
use bolide.Error.{Error}
use bolide.Session.{
  Command, write, request, Inner, emit, take_baseline, count_request, push_command, swap_connected,
  raise_shutdown, begin_update, paint, resize, want_full, answer_all, finish_painting,
  store_cut_text,
}
use bolide.Session.Steps.{
  World, Reader, idle, in_update, ended, Writer, waiting, taken, swapped, writing, left, Call,
  counting, pushing, announcing, raising, Step, call, close, goes_on, takes, swaps, sizes, writes,
  write_fails, writer_stops, begins, paints, resizes, wants_full, announces_resize, answers,
  finishes, stores_cut_text, announces_cut_text, bell, read_fails, progress, advance, dies, sends,
  calling, matched, taking, swapping, sizing, writing_out, hang_up, failing, stopping, on_inner,
  begin, finish, step, run, if-both,
}
use bolide.Session.Steps.Calls.{advance-keeps}
use bolide.Session.Owed.{
  Behind, Behind-map, Behind-snoc, Owes, Owes-keeps, sized-Owes, written-Behind, under_way,
  Owes-start,
}

-- `Sizes` says which sizes a request can ask for; `k` requests are under way behind `old`.
module _ (Sizes : (width height : ℕ) → Type 0) (k : ℕ) (old : List (Command × List ℕ)) where
  -- What was written since `old`, and what is owed behind it.
  abbrev Since : List (Command × List ℕ) → (ℕ → Type 0) → Type 0
  Since wire Rest = (new : List (Command × List ℕ)) × (wire ≡ old ++ new) × Behind Sizes k new Rest

  abbrev Based : World → Type 0
  Based w = Since w.wire (Owes Sizes w.writer w.inner)

  Since-map :
      (wire : List (Command × List ℕ)) (Rest Rest' : ℕ → Type 0)
      → ((j : ℕ) → Rest j → Rest' j)
      → Since wire Rest
      → Since wire Rest'
  Since-map wire Rest Rest' f (new, e, h) = (new, e, Behind-map Sizes k new Rest Rest' f h)

  Since-snoc :
      (wire : List (Command × List ℕ)) (e : Command × List ℕ) (Rest Rest' : ℕ → Type 0)
      → ((j : ℕ) → Rest j → Behind Sizes j (e ∷ []) Rest')
      → Since wire Rest
      → Since (wire ++ (e ∷ [])) Rest'
  Since-snoc wire e Rest Rest' f (new, split, h) = (
    new ++ (e ∷ []),
    ap (λ q. q ++ (e ∷ [])) split ∙ append_assoc old new (e ∷ []),
    Behind-snoc Sizes k new e Rest Rest' f h,
  )

  -- A step that leaves the wire and the writer alone.
  kept :
      (w : World) (s : Inner)
      → (w.inner.needs_full ≡ true → s.needs_full ≡ true)
      → Based w
      → Since w.wire (Owes Sizes w.writer s)
  kept w s f h = Since-map w.wire _ _ (Owes-keeps Sizes w.writer w.inner s f) h

  progress_keeps : (c : Call) (s : Inner) → s.needs_full ≡ true → (progress c s).1.needs_full ≡ true
  unfolding progress count_request push_command emit raise_shutdown
  progress_keeps (counting (write b)) s h = h
  progress_keeps (counting (request i)) s h = h
  progress_keeps (pushing c) s h =
      if-both (λ (r : Inner × Option Error). r.0.needs_full ≡ true) s.receiving _ _ (λ _. h)
        (λ _. h)
  progress_keeps (announcing reason) s h = h
  progress_keeps raising s h = h

  calling-Based : (n : ℕ) (w : World) → Based w → Based (calling n w)
  unfolding calling
  calling-Based n w h =
      kept w ((advance n w.calls w.inner).1)
        (advance-keeps (λ s. s.needs_full ≡ true) progress_keeps n w.calls w.inner) h

  dies-Based : (reason : Option Text) (w : World) → Based w → Based (dies reason w)
  unfolding dies swap_connected
  dies-Based reason w h = kept w (swap_connected w.inner) (λ e. e) h

  taking-Based :
      (wr : Writer) (cs : List Command) (w : World)
      → Since w.wire (Owes Sizes wr w.inner)
      → Based w
      → Based (taking wr cs w)
  unfolding taking matched
  taking-Based waiting [] w g h = h
  taking-Based waiting (write b ∷ rest) w g h = g
  taking-Based waiting (request i ∷ rest) w g h = g
  taking-Based (taken i) cs w g h = h
  taking-Based (swapped i first) cs w g h = h
  taking-Based (writing c bytes) cs w g h = h
  taking-Based left cs w g h = h

  swapping-Based :
      (wr : Writer) (w : World)
      → Since w.wire (Owes Sizes wr w.inner)
      → Based w
      → Based (swapping wr w)
  unfolding swapping take_baseline
  swapping-Based (taken i) w g h = Since-map w.wire _ _ (λ j o. inl o) g
  swapping-Based waiting w g h = h
  swapping-Based (swapped i first) w g h = h
  swapping-Based (writing c bytes) w g h = h
  swapping-Based left w g h = h

  sizing-Based :
      (wr : Writer) (w : World)
      → Sizes w.inner.fb.width w.inner.fb.height
      → Since w.wire (Owes Sizes wr w.inner)
      → Based w
      → Based (sizing wr w)
  unfolding sizing
  sizing-Based (swapped i first) w had g h =
      Since-map w.wire _ _ (sized-Owes Sizes i first w.inner had) g
  sizing-Based waiting w had g h = h
  sizing-Based (taken i) w had g h = h
  sizing-Based (writing c bytes) w had g h = h
  sizing-Based left w had g h = h

  writing_out-Based :
      (wr : Writer) (w : World)
      → Since w.wire (Owes Sizes wr w.inner)
      → Based w
      → Based (writing_out wr w)
  unfolding writing_out
  writing_out-Based (writing (write b) bytes) w g h =
      Since-snoc w.wire (write b, bytes) _ _ (λ j o. o) g
  writing_out-Based (writing (request i) bytes) w g h =
      Since-snoc w.wire (request i, bytes) _ _ (written-Behind Sizes i bytes w.inner) g
  writing_out-Based waiting w g h = h
  writing_out-Based (taken i) w g h = h
  writing_out-Based (swapped i first) w g h = h
  writing_out-Based left w g h = h

  -- Once the writer has left, nothing is owed.
  left-Based : (w : World) (s : Inner) → Based w → Since w.wire (Owes Sizes left s)
  left-Based w s h = Since-map w.wire _ _ (λ j o. tt) h

  failing-Based : (wr : Writer) (reason : Text) (w : World) → Based w → Based (failing wr reason w)
  unfolding failing dies
  failing-Based (writing c bytes) reason w h = left-Based w (swap_connected w.inner) h
  failing-Based waiting reason w h = h
  failing-Based (taken i) reason w h = h
  failing-Based (swapped i first) reason w h = h
  failing-Based left reason w h = h

  stopping-Based : (wr : Writer) (w : World) → Based w → Based (stopping wr w)
  unfolding stopping hang_up
  stopping-Based waiting w h =
      if-both Based w.inner.shutdown (hang_up w) w (λ _. left-Based w w.inner h) (λ _. h)
  stopping-Based left w h = left-Based w w.inner h
  stopping-Based (taken i) w h = h
  stopping-Based (swapped i first) w h = h
  stopping-Based (writing c bytes) w h = h

  begin-Based : (r : Reader) (w : World) → Based w → Based (begin r w)
  unfolding begin begin_update
  begin-Based idle w h = kept w (begin_update w.inner) (λ e. e) h
  begin-Based (in_update n) w h = h
  begin-Based ended w h = h

  finish-Based : (r : Reader) (b : Bool) (w : World) → Based w → Based (finish r b w)
  unfolding finish finish_painting emit
  finish-Based (in_update n) true w h = kept w (finish_painting n w.inner) (λ e. e) h
  finish-Based (in_update n) false w h = h
  finish-Based idle b w h = h
  finish-Based ended b w h = h

  step-Based :
      (s : Step) (w : World) → Sizes w.inner.fb.width w.inner.fb.height → Based w → Based (step s w)
  unfolding step sends on_inner paint resize want_full answer_all store_cut_text emit
  step-Based (call c) w had h = h
  step-Based close w had h = dies-Based none w h
  step-Based (goes_on n) w had h = calling-Based n w h
  step-Based takes w had h = taking-Based w.writer w.inner.commands w h h
  step-Based swaps w had h = swapping-Based w.writer w h h
  step-Based sizes w had h = sizing-Based w.writer w had h h
  step-Based writes w had h = writing_out-Based w.writer w h h
  step-Based (write_fails reason) w had h = failing-Based w.writer reason w h
  step-Based writer_stops w had h = stopping-Based w.writer w h
  step-Based begins w had h = begin-Based w.reader w h
  step-Based (paints fb) w had h = kept w (paint fb w.inner) (λ e. e) h
  step-Based (resizes width height) w had h = kept w (resize width height w.inner) (λ e. e) h
  step-Based wants_full w had h = kept w (want_full w.inner) (λ _. refl) h
  step-Based (announces_resize width height) w had h = kept w _ (λ e. e) h
  step-Based answers w had h = kept w (answer_all w.inner) (λ e. e) h
  step-Based (finishes b) w had h = finish-Based w.reader b w h
  step-Based (stores_cut_text text) w had h = kept w (store_cut_text text w.inner) (λ e. e) h
  step-Based (announces_cut_text text) w had h = kept w _ (λ e. e) h
  step-Based bell w had h = kept w _ (λ e. e) h
  step-Based (read_fails reason) w had h = dies-Based (some reason) w h

  run-Based :
      (steps : List Step) (w : World)
      → ((before after : List Step)
          → steps ≡ before ++ after
          → Sizes (run before w).inner.fb.width (run before w).inner.fb.height)
      → Based w
      → Based (run steps w)
  unfolding run
  run-Based [] w had h = h
  run-Based (s ∷ steps) w had h =
      run-Based steps (step s w) (λ before after e. had (s ∷ before) after (ap (λ r. s ∷ r) e))
        (step-Based s w (had [] (s ∷ steps) refl) h)

-- The framebuffer had this size at some point of the run.
abbrev pub InRun : List Step → World → (width height : ℕ) → Type 0
InRun steps w width height =
    (before after : List Step) × (steps ≡ before ++ after)
    × ((run before w).inner.fb.width ≡ width)
    × ((run before w).inner.fb.height ≡ height)

-- A full screen is owed (`needs_full`) at some point of a run. However the accesses of the tasks and of
-- any number of calls interleave from there, the first request that is written behind the one that was
-- then under way, if any, is not incremental, and asks for a screen from its corner, with a width and a
-- height that the framebuffer had, both at once, at some point from there on.
pub run-FirstWhole :
    (w : World) (steps : List Step)
    → w.inner.needs_full ≡ true
    → (new : List (Command × List ℕ)) × ((run steps w).wire ≡ w.wire ++ new)
      × Behind (InRun steps w) (under_way w.writer) new (λ k. Unit)
run-FirstWhole w steps owed =
    Since-map (InRun steps w) (under_way w.writer) w.wire (run steps w).wire _ _ (λ j o. tt)
      (run-Based (InRun steps w) (under_way w.writer) w.wire steps w
        (λ before after e. (before, after, e, refl, refl))
        ([], sym (append-nil w.wire), Owes-start (InRun steps w) w.writer w.inner owed))
