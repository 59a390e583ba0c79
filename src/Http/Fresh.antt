-- ===== src/Http/Fresh.antt =====
-- http.rs: which frame a screenshot answers with, and when it was asked for.
use bolide.Base.{
  ℕ, ◌+◌, ◌-◌, ◌≤◌, ltb, ltb→lt, true, false, Bool-cases, Option, none, some, Result, ok, err,
  panic, stuck, ◌≡◌, ◌≢◌, refl, ap, ◌∙◌, ◌⊎◌, inl, inr, arith,
}
use bolide.Error.{Error}
use bolide.Framebuffer.{Framebuffer}
use bolide.Http.{
  ApiError, Host, ServerConfig, from_rfb, map_err, settle, frame_wait, or_held, refreshed, State,
  fresh_frame,
}

-- A pause lasts as long as it is asked to, at least.
abbrev pub Pauses : Host → Type 0
Pauses host = (d : ℕ) (w : host.desk.World) → host.now w + d ≤ host.now (host.pause d w)

module _ (host : Host) (config : ServerConfig) where
  -- At `w`, the last input has had its time.
  abbrev pub Settled : Option ℕ → host.desk.World → Type 0
  Settled none w = Unit
  Settled (some at) w = at + config.input_settle ≤ host.now w

  pub settle-Settled :
      Pauses host
      → (last : Option ℕ) (w : host.desk.World) → Settled last (settle host config last w)
  unfolding settle
  settle-Settled pauses none w = tt
  settle-Settled pauses (some at) w =
      elim (Bool-cases (ltb (host.now w) (at + config.input_settle))) [
        | inl early ↦ rw early (
            omega (
              arith,
              pauses (at + config.input_settle - host.now w) w,
              ltb→lt (host.now w) (at + config.input_settle) early,
            ))
        | inr late ↦ rw late (ground (arith, late))
      ]

  -- What a refresh at `w` gave, and what it left.
  abbrev full : host.desk.World → host.desk.World × Result Error Framebuffer
  full w = host.refresh false config.frame_timeout w

  abbrev part : Option ℕ → host.desk.World → host.desk.World × Result Error Framebuffer
  part last w = host.refresh true (frame_wait host config last) w

  -- A screen never painted is asked for whole, and only the answer to that is served. A painted one is
  -- asked for its changes, and the frame that is held serves where these take too long.
  abbrev pub Answer : Option ℕ → host.desk.World → Result ApiError Framebuffer → Type 0
  Answer last w (ok frame) =
      ((host.painted w ≡ false) × ((full w).1 ≡ ok frame))
      ⊎ ((host.painted w ≡ true)
          × (((part last w).1 ≡ ok frame)
              ⊎ (((part last w).1 ≡ err Error.timeout)
                  × ((host.framebuffer ((part last w).0)).1 ≡ ok frame))))
  Answer last w (err e) =
      (x : Error) × (e ≡ from_rfb x)
      × (((host.painted w ≡ false) × ((full w).1 ≡ err x))
          ⊎ ((host.painted w ≡ true)
              × ((((part last w).1 ≡ err x) × (x ≢ Error.timeout))
                  ⊎ (((part last w).1 ≡ err Error.timeout)
                      × ((host.framebuffer ((part last w).0)).1 ≡ err x)))))
  Answer last w panic = Unit
  Answer last w stuck = Unit

  whole_answered :
      (last : Option ℕ) (w : host.desk.World) (r : Result Error Framebuffer)
      → host.painted w ≡ false
      → (full w).1 ≡ r
      → Answer last w (map_err from_rfb r)
  whole_answered last w (ok frame) h e = inl (h, e)
  whole_answered last w (err x) h e = (x, refl, inl (h, e))
  whole_answered last w panic h e = tt
  whole_answered last w stuck h e = tt

  held_answered :
      (last : Option ℕ) (w : host.desk.World) (r : Result Error Framebuffer)
      → host.painted w ≡ true
      → (part last w).1 ≡ err Error.timeout
      → (host.framebuffer ((part last w).0)).1 ≡ r
      → Answer last w (map_err from_rfb r)
  held_answered last w (ok frame) h late e = inr (h, inr (late, e))
  held_answered last w (err x) h late e = (x, refl, inr (h, inr (late, e)))
  held_answered last w panic h late e = tt
  held_answered last w stuck h late e = tt

  -- An error is the timeout, or one that is passed on.
  error_cases :
      (x : Error)
      → (x ≡ Error.timeout)
        ⊎ ((x ≢ Error.timeout)
            × ((w : host.desk.World) → or_held host config (w, err x) ≡ (w, err (from_rfb x))))
  unfolding or_held
  error_cases Error.timeout = inl refl
  error_cases Error.io = inr (λ e. absurd (cc), λ w. refl)
  error_cases Error.not_rfb = inr (λ e. absurd (cc), λ w. refl)
  error_cases (Error.unsupported_version n m) = inr (λ e. absurd (cc), λ w. refl)
  error_cases (Error.no_supported_security n) = inr (λ e. absurd (cc), λ w. refl)
  error_cases Error.password_required = inr (λ e. absurd (cc), λ w. refl)
  error_cases Error.username_required = inr (λ e. absurd (cc), λ w. refl)
  error_cases (Error.auth_failed n) = inr (λ e. absurd (cc), λ w. refl)
  error_cases (Error.refused n) = inr (λ e. absurd (cc), λ w. refl)
  error_cases (Error.protocol n) = inr (λ e. absurd (cc), λ w. refl)
  error_cases (Error.unsupported_encoding n) = inr (λ e. absurd (cc), λ w. refl)
  error_cases Error.closed = inr (λ e. absurd (cc), λ w. refl)

  held_late :
      (w : host.desk.World)
      → or_held host config (w, err Error.timeout)
        ≡ ((host.framebuffer w).0, map_err from_rfb ((host.framebuffer w).1))
  unfolding or_held
  held_late w = refl

  part_answered :
      (last : Option ℕ) (w : host.desk.World) (p : host.desk.World × Result Error Framebuffer)
      → host.painted w ≡ true
      → part last w ≡ p
      → Answer last w ((or_held host config p).1)
  unfolding or_held
  part_answered last w (w', ok frame) h e = inr (h, inl (ap (λ q. q.1) e))
  part_answered last w (w', panic) h e = tt
  part_answered last w (w', stuck) h e = tt
  part_answered last w (w', err x) h e = elim (error_cases x) [
    | inl late ↦
        let timed_out : part last w ≡ (w', err Error.timeout) = e ∙ ap (λ y. (w', err y)) late in
        rw (late, or_held)
          (held_answered last w ((host.framebuffer w').1) h (ap (λ q. q.1) timed_out)
            (ap (λ q. (host.framebuffer (q.0)).1) timed_out))
    | inr (ne, passed) ↦ rw (passed w') (x, refl, inr (h, inl (ap (λ q. q.1) e, ne)))
  ]

  refreshed_answered :
      (last : Option ℕ) (w : host.desk.World) → Answer last w ((refreshed host config last w).1)
  unfolding refreshed
  refreshed_answered last w = elim (Bool-cases (host.painted w)) [
    | inl h ↦ rw (h, refreshed) (part_answered last w (part last w) h refl)
    | inr h ↦ rw (h, refreshed) (whole_answered last w ((full w).1) h refl)
  ]

  -- A screenshot asks for a frame once the last input has had its time to settle, and answers with what
  -- came, as `Answer` says; the input is then no longer outstanding. The clock's pauses are as long as
  -- they are asked to be.
  pub fresh_frame-Answer :
      Pauses host
      → (s : State host config)
      → (w : host.desk.World) × Settled s.last_input w
        × Answer s.last_input w ((fresh_frame host config s).1)
        × ((fresh_frame host config s).0.last_input ≡ none)
  unfolding fresh_frame
  fresh_frame-Answer pauses s =
      let w = settle host config s.last_input s.world in
      (w, settle-Settled pauses s.last_input s.world, refreshed_answered s.last_input w, refl)
