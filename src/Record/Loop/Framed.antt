-- ===== src/Record/Loop/Framed.antt =====
-- record.rs: what a recording has written when it ends.
use bolide.Base.{
  ℕ, ◌+◌, ◌*◌, ◌≤◌, ◌==◌, ==_iff, ==-ne, Bool-cases, Option, none, some, List, [], ◌∷◌, Result, ok,
  err, panic, stuck, Returns, length, ◌≡◌, refl, sym, ap, ◌∙◌, inl, inr, arith,
}
use bolide.Error.{Error}
use bolide.Framebuffer.{Framebuffer}
use bolide.Record.{Geometry, fit}
use bolide.Record.Fitted.{fit-Returns}
use bolide.Record.Loop.{
  Arm, stopped, gone, other_event, tick, no_more_ticks, IoError, Studio, Call, sent, write_fitted,
  write_taken, write_one, finished, last_chance, ended, after_frame, record_loop, recorded,
}

abbrev pub Complete : Framebuffer → Type 0
Complete frame = length frame.rgba ≡ frame.width * frame.height * 4

-- A session's frames are complete, and a sink counts the frames that it takes.
pub record Counts (studio : Studio) : Type 1 where
  pub written : studio.World → ℕ
  pub complete : (w : studio.World) → Returns Complete ((studio.framebuffer w).1)
  pub frame_keeps : (w : studio.World) → written ((studio.framebuffer w).0) ≡ written w
  pub write_counts :
      (rgba : List ℕ) (w w' : studio.World)
      → studio.write_frame rgba w ≡ (w', none)
      → written w' ≡ written w + 1
  pub finish_keeps : (w : studio.World) → written ((studio.finish w).0) ≡ written w

module _ (studio : Studio) (canvas : Geometry) (counts : Counts studio) (wide : 1 ≤ canvas.width)
    (high : 1 ≤ canvas.height) where
  -- One frame more is written, or there is an error.
  abbrev Wrote : ℕ → Call studio canvas (Unit {0}) → Type 0
  Wrote n (w, ok u) = counts.written w ≡ n + 1
  Wrote n (w, err e) = Unit
  Wrote n (w, panic) = ⊥
  Wrote n (w, stuck) = ⊥

  sent-Wrote :
      (rgba : List ℕ) (w : studio.World) (p : studio.World × Option IoError) (n : ℕ)
      → studio.write_frame rgba w ≡ p
      → counts.written w ≡ n
      → Wrote n (sent studio canvas p)
  unfolding sent
  sent-Wrote rgba w (w', none) n e h = counts.write_counts rgba w w' e ∙ ap (λ k. k + 1) h
  sent-Wrote rgba w (w', some x) n e h = tt

  write_fitted-Wrote :
      (w : studio.World) (r : Result Error (List ℕ)) (n : ℕ)
      → Returns (λ out. length out ≡ canvas.width * canvas.height * 4) r
      → counts.written w ≡ n
      → Wrote n (write_fitted studio canvas w r)
  unfolding write_fitted
  write_fitted-Wrote w (ok rgba) n fits h = sent-Wrote rgba w (studio.write_frame rgba w) n refl h
  write_fitted-Wrote w (err e) n fits h = tt
  write_fitted-Wrote w panic n fits h = absurd fits
  write_fitted-Wrote w stuck n fits h = absurd fits

  write_taken-Wrote :
      (p : studio.World × Result Error Framebuffer) (n : ℕ)
      → Returns Complete (p.1)
      → counts.written (p.0) ≡ n
      → Wrote n (write_taken studio canvas p)
  unfolding write_taken
  write_taken-Wrote (w, ok frame) n full h =
      write_fitted-Wrote w (fit frame canvas) n (fit-Returns frame canvas full wide high) h
  write_taken-Wrote (w, err e) n full h = tt
  write_taken-Wrote (w, panic) n full h = absurd full
  write_taken-Wrote (w, stuck) n full h = absurd full

  write_one-Wrote : (w : studio.World) → Wrote (counts.written w) (write_one studio canvas w)
  unfolding write_one
  write_one-Wrote w =
      write_taken-Wrote (studio.framebuffer w) (counts.written w) (counts.complete w)
        (counts.frame_keeps w)

  -- A recording that ends well has a frame, and as many as it says, `b` having been there before.
  abbrev pub Recorded : ℕ → Call studio canvas ℕ → Type 0
  Recorded b (w, ok n) = (1 ≤ n) × (counts.written w ≡ b + n)
  Recorded b (w, err e) = Unit
  Recorded b (w, panic) = ⊥
  Recorded b (w, stuck) = ⊥

  finished-Recorded :
      (b frames : ℕ) (p : studio.World × Option IoError)
      → 1 ≤ frames
      → counts.written (p.0) ≡ b + frames
      → Recorded b (finished studio canvas none frames p)
  unfolding finished
  finished-Recorded b frames (w, none) k h = (k, h)
  finished-Recorded b frames (w, some e) k h = tt

  failed-Recorded :
      (b frames : ℕ) (e : IoError) (p : studio.World × Option IoError)
      → Recorded b (finished studio canvas (some e) frames p)
  unfolding finished
  failed-Recorded b frames e (w, o) = tt

  last_chance-Recorded :
      (b : ℕ) (c : Call studio canvas (Unit {0}))
      → Wrote b c
      → Recorded b (last_chance studio canvas c)
  unfolding last_chance
  last_chance-Recorded b (w, ok u) h =
      finished-Recorded b 1 (studio.finish w) (omega arith) (counts.finish_keeps w ∙ h)
  last_chance-Recorded b (w, err e) h = failed-Recorded b 0 e (studio.finish w)
  last_chance-Recorded b (w, panic) h = absurd h
  last_chance-Recorded b (w, stuck) h = absurd h

  ended-Recorded :
      (b frames : ℕ) (w : studio.World)
      → counts.written w ≡ b + frames
      → Recorded b (ended studio canvas frames w)
  unfolding ended
  ended-Recorded b frames w h = elim (Bool-cases (frames == 0)) [
    | inl e ↦
        let start : counts.written w ≡ b = omega (arith, h, (==_iff frames 0).0 e) in
        rw (e, ended)
          (last_chance-Recorded b (write_one studio canvas w) (rw (sym start) (write_one-Wrote w)))
    | inr e ↦
        rw (e, ended)
          (finished-Recorded b frames (studio.finish w) (omega (arith, ==-ne frames 0 e))
            (counts.finish_keeps w ∙ h))
  ]

  after_frame-Recorded :
      (b frames : ℕ) (rest : studio.World → Call studio canvas ℕ)
      (c : Call studio canvas (Unit {0}))
      → Wrote (b + frames) c
      → ((w : studio.World) → counts.written w ≡ b + (frames + 1) → Recorded b (rest w))
      → Recorded b (after_frame studio canvas frames rest c)
  unfolding after_frame
  after_frame-Recorded b frames rest (w, ok u) h k = k w (omega (arith, h))
  after_frame-Recorded b frames rest (w, err e) h k = failed-Recorded b frames e (studio.finish w)
  after_frame-Recorded b frames rest (w, panic) h k = absurd h
  after_frame-Recorded b frames rest (w, stuck) h k = absurd h

  loop-Recorded :
      (b : ℕ) (arms : List Arm) (frames : ℕ) (w : studio.World)
      → counts.written w ≡ b + frames
      → Recorded b (record_loop studio canvas arms frames w)
  unfolding record_loop
  loop-Recorded b [] frames w h = ended-Recorded b frames w h
  loop-Recorded b (stopped ∷ arms) frames w h = ended-Recorded b frames w h
  loop-Recorded b (gone ∷ arms) frames w h = ended-Recorded b frames w h
  loop-Recorded b (no_more_ticks ∷ arms) frames w h = ended-Recorded b frames w h
  loop-Recorded b (other_event ∷ arms) frames w h = loop-Recorded b arms frames w h
  loop-Recorded b (tick ∷ arms) frames w h =
      after_frame-Recorded b frames (record_loop studio canvas arms (frames + 1))
        (write_one studio canvas w) (rw (sym h) (write_one-Wrote w))
        (λ w' h'. loop-Recorded b arms (frames + 1) w' h')

  -- Whatever `select!` takes, a recording on a canvas with a pixel ends with an error, or with a frame at
  -- least and as many frames in the sink as it says. The frames of the session are complete, and the sink
  -- counts what it takes.
  pub recorded-Recorded :
      (arms : List Arm) (w : studio.World)
      → Recorded (counts.written w) (recorded studio canvas arms w)
  unfolding recorded
  recorded-Recorded arms w = loop-Recorded (counts.written w) arms 0 w (omega arith)
