-- ===== src/Session.antt =====
-- crates/bolide-rfb/src/session.rs, and what the tasks of client.rs do to the state that they share
-- with the handles. `send`, `build_request` and `mark_dead` make several accesses to that state, which are
-- functions of their own here: another task may run between two of them (Session/Steps). Every other
-- function up to the handle's methods is one access, but for `finish_painting`, as it says.
pub mod Steps
pub mod Life
pub mod Deaths
pub mod Owed
pub mod Requests
pub mod Fresh
use bolide.Base.{
  ℕ, ◌+◌, ◌++◌, Bool, true, false, not, ltb, Result, ok, err, ◌&&◌, Option, some, none, List, [],
  ◌∷◌, if◌then◌else◌,
}
use bolide.Base.Text.{Text}
use bolide.Error.{Error, closed}
use bolide.Framebuffer.{Framebuffer, black}
use bolide.Proto.Messages.{framebuffer_update_request, key_event, pointer_event, client_cut_text}

pub data ServerEvent : Type 0 where
  painted_event : ℕ → ServerEvent
  resized : ℕ → ℕ → ServerEvent
  cut_text_event : Text → ServerEvent
  bell_event : ServerEvent
  disconnected : Option Text → ServerEvent

pub data Command : Type 0 where
  write : List ℕ → Command
  request : Bool → Command

-- `commands` and `events` are what the two channels were sent, oldest first; `receiving` says whether
-- the writer task still holds the receiver of the first.
pub record Inner : Type 0 where
  pub fb : Framebuffer
  pub painted : Bool
  pub last_cut_text : Option Text
  pub connected : Bool
  pub shutdown : Bool
  pub receiving : Bool
  pub generation : ℕ
  pub updates_begun : ℕ
  pub last_painted_update : ℕ
  pub outstanding : ℕ
  pub needs_full : Bool
  pub commands : List Command
  pub events : List ServerEvent

unfoldable pub connect : ℕ → ℕ → Inner
connect width height = record {
  fb = black width height;
  painted = false;
  last_cut_text = none;
  connected = true;
  shutdown = false;
  receiving = true;
  generation = 0;
  updates_begun = 0;
  last_painted_update = 0;
  outstanding = 0;
  needs_full = true;
  commands = [];
  events = [];
}

unfoldable pub emit : Inner → ServerEvent → Inner
emit s event = record s { events = s.events ++ (event ∷ []) }

-- `needs_full.swap(false)`, whose result is the field before.
unfoldable pub take_baseline : Inner → Inner
take_baseline s = record s { needs_full = false }

-- The request, of the size under the lock; `first` is what the swap gave.
unfoldable pub sized_request : (incremental first : Bool) → Inner → List ℕ
sized_request incremental first s =
    framebuffer_update_request (incremental && not first) 0 0 s.fb.width s.fb.height

unfoldable pub build_request : Bool → Inner → List ℕ × Inner
unfolding take_baseline sized_request
build_request incremental s =
    let s' = take_baseline s in (sized_request incremental s.needs_full s', s')

-- `outstanding.fetch_add(1)` for a request.
unfoldable pub count_request : Command → Inner → Inner
count_request (write bytes) s = s
count_request (request incremental) s = record s { outstanding = s.outstanding + 1 }

unfoldable pub push_command : Command → Inner → Inner × Option Error
push_command c s =
    if s.receiving then (record s { commands = s.commands ++ (c ∷ []) }, none) else (s, some closed)

unfoldable pub send : Command → Inner → Inner × Option Error
send c s = if s.connected then push_command c (count_request c s) else (s, some closed)

-- `connected.swap(false)`, whose result is the field before.
unfoldable pub swap_connected : Inner → Inner
swap_connected s = record s { connected = false }

-- `shutdown.send(true)`.
unfoldable pub raise_shutdown : Inner → Inner
raise_shutdown s = record s { shutdown = true }

unfoldable pub mark_dead : Option Text → Inner → Inner
unfolding swap_connected raise_shutdown
mark_dead reason s =
    if s.connected then raise_shutdown (emit (swap_connected s) (disconnected reason)) else s

-- The handle's methods.
unfoldable pub burst : List (ℕ × Bool) → List ℕ
burst [] = []
burst ((keysym, down) ∷ events) = key_event keysym down ++ burst events

unfoldable pub key_burst : List (ℕ × Bool) → Inner → Inner × Option Error
key_burst events s = send (write (burst events)) s

unfoldable pub pointer : ℕ → ℕ → ℕ → Inner → Inner × Option Error
pointer x y buttons s = send (write (pointer_event x y buttons)) s

unfoldable pub key : ℕ → Bool → Inner → Inner × Option Error
key keysym down s = send (write (key_event keysym down)) s

unfoldable pub cut_text : Text → Inner → Inner × Option Error
cut_text text s = send (write (client_cut_text text)) s

-- `refresh` takes the count of updates begun as its floor when it is called, and asks.
unfoldable pub refresh_starts : Bool → Inner → ℕ × (Inner × Option Error)
refresh_starts incremental s = (s.updates_begun, send (request incremental) s)

-- What `refresh` does about an event that it receives: it is done, it fails, or (`none`) it waits on.
unfoldable pub refresh_receives : ℕ → Inner → ServerEvent → Option (Result Error (Unit {0}))
refresh_receives floor s (painted_event n) =
    if ltb floor s.last_painted_update then some (ok tt) else none
refresh_receives floor s (disconnected reason) = some (err closed)
refresh_receives floor s (resized w h) = none
refresh_receives floor s (cut_text_event text) = none
refresh_receives floor s bell_event = none

unfoldable pub close : Inner → Inner
close s = mark_dead none s

-- The accesses of the read loop, in the order in which `read_framebuffer_update` makes them.
unfoldable pub begin_update : Inner → Inner
begin_update s = record s { updates_begun = s.updates_begun + 1 }

unfoldable pub paint : Framebuffer → Inner → Inner
paint fb s = record s { fb = fb }

unfoldable pub resize : ℕ → ℕ → Inner → Inner
resize w h s = record s { fb = black w h; painted = false }

unfoldable pub want_full : Inner → Inner
want_full s = record s { needs_full = true }

unfoldable pub answer_all : Inner → Inner
answer_all s = record s { outstanding = 0 }

-- Only the read loop touches what this one does, but for the event, which goes out last.
unfoldable pub finish_painting : ℕ → Inner → Inner
finish_painting update s =
    let generation = s.generation + 1 in
    emit (record s { generation = generation; last_painted_update = update; painted = true })
      (painted_event generation)

unfoldable pub store_cut_text : Text → Inner → Inner
store_cut_text text s = record s { last_cut_text = some text }
