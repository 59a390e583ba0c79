-- ===== src/Record/Loop.antt =====
-- record.rs: `record`, over a session and a sink that are parameters. What `select!` takes, in order, is a
-- list; where it ends the caller stops the recording.
pub mod Framed
use bolide.Base.{
  ℕ, zero, suc, ◌+◌, ◌==◌, Bool, true, false, Option, none, some, List, [], ◌∷◌, Result, ok, err,
  panic, stuck,
}
use bolide.Error.{Error}
use bolide.Framebuffer.{Framebuffer}
use bolide.Record.{Geometry, fit}

-- The arms of `select!`: `stop`, an event (of a disconnected session or a closed channel, or another),
-- and a tick, the last of which is `false`.
pub data Arm : Type 0 where
  stopped gone other_event tick no_more_ticks : Arm

-- `io::Error`, of the sink or of a session without a frame.
pub data IoError : Type 0 where
  from_sink : IoError
  from_session : Error → IoError

pub record Studio : Type 1 where
  pub World : Type 0
  pub framebuffer : World → World × Result Error Framebuffer
  pub write_frame : List ℕ → World → World × Option IoError
  pub finish : World → World × Option IoError

module _ (studio : Studio) (canvas : Geometry) where
  abbrev pub Call : Type 0 → Type 0
  Call A = studio.World × Result IoError A

  unfoldable pub sent : studio.World × Option IoError → Call (Unit {0})
  sent (w, none) = (w, ok tt)
  sent (w, some e) = (w, err e)

  unfoldable pub write_fitted : studio.World → Result Error (List ℕ) → Call (Unit {0})
  write_fitted w (ok rgba) = sent (studio.write_frame rgba w)
  write_fitted w (err e) = (w, err (from_session e))
  write_fitted w panic = (w, panic)
  write_fitted w stuck = (w, stuck)

  unfoldable pub write_taken : studio.World × Result Error Framebuffer → Call (Unit {0})
  write_taken (w, ok frame) = write_fitted w (fit frame canvas)
  write_taken (w, err e) = (w, err (from_session e))
  write_taken (w, panic) = (w, panic)
  write_taken (w, stuck) = (w, stuck)

  unfoldable pub write_one : studio.World → Call (Unit {0})
  write_one w = write_taken (studio.framebuffer w)

  -- The sink is finished, whether a frame failed or not.
  unfoldable pub finished : Option IoError → ℕ → studio.World × Option IoError → Call ℕ
  finished (some e) frames (w, outcome) = (w, err e)
  finished none frames (w, none) = (w, ok frames)
  finished none frames (w, some e) = (w, err e)

  -- The frame of a recording that has none yet.
  unfoldable pub last_chance : Call (Unit {0}) → Call ℕ
  last_chance (w, ok u) = finished none 1 (studio.finish w)
  last_chance (w, err e) = finished (some e) 0 (studio.finish w)
  last_chance (w, panic) = (w, panic)
  last_chance (w, stuck) = (w, stuck)

  unfoldable pub ended : ℕ → studio.World → Call ℕ
  ended frames w = elim (frames == 0) [
    | true ↦ last_chance (write_one w)
    | false ↦ finished none frames (studio.finish w)
  ]

  -- What is left of a round, with the rounds behind it.
  unfoldable pub after_frame : ℕ → (studio.World → Call ℕ) → Call (Unit {0}) → Call ℕ
  after_frame frames rest (w, ok u) = rest w
  after_frame frames rest (w, err e) = finished (some e) frames (studio.finish w)
  after_frame frames rest (w, panic) = (w, panic)
  after_frame frames rest (w, stuck) = (w, stuck)

  -- The loop, with `frames` written.
  unfoldable pub record_loop : List Arm → ℕ → studio.World → Call ℕ
  record_loop [] frames w = ended frames w
  record_loop (stopped ∷ arms) frames w = ended frames w
  record_loop (gone ∷ arms) frames w = ended frames w
  record_loop (no_more_ticks ∷ arms) frames w = ended frames w
  record_loop (other_event ∷ arms) frames w = record_loop arms frames w
  record_loop (tick ∷ arms) frames w =
      after_frame frames (record_loop arms (frames + 1)) (write_one w)

  unfoldable pub recorded : List Arm → studio.World → Call ℕ
  recorded arms w = record_loop arms 0 w
