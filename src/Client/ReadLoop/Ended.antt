-- ===== src/Client/ReadLoop/Ended.antt =====
-- client.rs: every message of a server is read to its end, and the read loop ends with the session dead.
use bolide.Base.{
  ℕ, zero, suc, ◌+◌, ◌-◌, ◌*◌, ◌≤◌, ◌<◌, ◌==◌, ltb, Bool, true, false, length, if◌then◌else◌,
  Option, Result, ok, err, panic, stuck, some, Returns-weaken, ◌≡◌, refl, arith,
}
use bolide.Base.Text.{Text}
use bolide.Error.{Error, protocol, zrle_claims, message_type, unsupported_encoding}
use bolide.Framebuffer.Blit.{IsSized}
use bolide.Proto.{enc_raw, enc_copy_rect, enc_zrle, enc_desktop_size}
use bolide.Proto.ServerMsg.{framebuffer_update, set_colour_map_entries, bell, server_cut_text}
use bolide.Session.{Inner, emit, mark_dead, begin_update}
use bolide.Zrle.Inflate.{Inflater}
use bolide.Zrle.Inflate.Ended.{Steady, decode_rect-Returns}
use bolide.Client.{u8, u16, u32, bytes}
use bolide.Client.Writes.{Anything}
use bolide.Client.ReadLoop.Skipped.{
  bytes-Leaves, u8-Leaves, u16-Leaves, u32-Leaves, u8_left, u8_there,
}
use bolide.Client.ReadLoop.Sound.{
  Fine, Sound, go_on-Sound, if-Sound, reads-Sound, paints-Sound, inflated-Sound, blit_rgba-Returns,
}
use bolide.Client.ReadLoop.Kept.{
  then_reads, then_shared, pure-Sound, fail-Sound, done_shared, read_raw-Sound,
  read_copy_rect-Sound, read_desktop_size-Sound, finish_update-Sound, read_colour_map-Sound,
  read_cut_text-Sound,
}
use bolide.Client.ReadLoop.{
  Reading, Loop, Flags, read_raw, read_copy_rect, read_desktop_size, read_zrle, read_encoding,
  read_rects, read_framebuffer_update, read_message, reader_loop, shared, max_zrle_payload, go_on,
  pure,
}

module _ (inflater : Inflater) (steady : Steady inflater) where
  open inflater use {State}

  module _ (n : ℕ) where
    read_zrle-Sound :
        (x y w h : ℕ) (s : Reading State)
        → Fine n s
        → Sound n Anything (read_zrle inflater x y w h s)
    unfolding read_zrle
    read_zrle-Sound x y w h s v =
        then_reads n Anything Anything u32 _ s v (u32-Leaves n s.conn v.left) (λ len s1 v1 _.
          if-Sound n Anything (ltb max_zrle_payload len) _ _ s1
            (fail-Sound n Anything (protocol (zrle_claims len)) s1 v1)
            (then_reads n (λ b. length b ≡ len) Anything (bytes len) _ s1 v1
              (bytes-Leaves n s1.conn v1.left len)
              (λ payload s2 v2 _.
                go_on-Sound n (λ rgba. length rgba ≡ w * h * 4) Anything _ _
                  (inflated-Sound n (w * h * 4) s2 _ v2 (
                    decode_rect-Returns inflater steady payload s2.decoders.format w h
                      s2.decoders.zrle))
                  (λ rgba s3 v3 _.
                    paints-Sound n Anything _ s3 v3 tt
                      (blit_rgba-Returns s3.inner.fb x y w h v3.whole rgba)))))

    -- A rect that was taken care of sets its flag.
    flagged :
        (m : Loop State (Unit {0})) (flags : Flags) (s : Reading State)
        → Sound n Anything (m s)
        → Sound n Anything (go_on (λ _. pure flags) (m s))
    flagged m flags s h =
        go_on-Sound n Anything Anything _ (m s) h (λ _ s1 v1 _. pure-Sound n flags s1 v1)

    read_encoding-Sound :
        (encoding x y w h : ℕ) (flags : Flags) (s : Reading State)
        → Fine n s
        → Sound n Anything (read_encoding inflater encoding x y w h flags s)
    unfolding read_encoding
    read_encoding-Sound encoding x y w h flags s v =
        if-Sound n Anything (encoding == enc_raw) _ _ s
          (flagged (read_raw x y w h) _ s (read_raw-Sound n x y w h s v))
          (if-Sound n Anything (encoding == enc_copy_rect) _ _ s
            (flagged (read_copy_rect x y w h) _ s (read_copy_rect-Sound n x y w h s v))
            (if-Sound n Anything (encoding == enc_zrle) _ _ s
              (flagged (read_zrle inflater x y w h) _ s (read_zrle-Sound x y w h s v))
              (if-Sound n Anything (encoding == enc_desktop_size) _ _ s
                (flagged (read_desktop_size w h) _ s (read_desktop_size-Sound n w h s v))
                (fail-Sound n Anything (unsupported_encoding encoding) s v))))

    read_rects-Sound :
        (count : ℕ) (flags : Flags) (s : Reading State)
        → Fine n s
        → Sound n Anything (read_rects inflater count flags s)
    unfolding read_rects
    read_rects-Sound zero flags s v = pure-Sound n flags s v
    read_rects-Sound (suc count) flags s v =
        then_reads n Anything Anything u16 _ s v (u16-Leaves n s.conn v.left) (λ x s1 v1 _.
          then_reads n Anything Anything u16 _ s1 v1 (u16-Leaves n s1.conn v1.left) (λ y s2 v2 _.
            then_reads n Anything Anything u16 _ s2 v2 (u16-Leaves n s2.conn v2.left) (λ w s3 v3 _.
              then_reads n Anything Anything u16 _ s3 v3 (u16-Leaves n s3.conn v3.left)
                (λ h s4 v4 _.
                  then_reads n Anything Anything u32 _ s4 v4 (u32-Leaves n s4.conn v4.left)
                    (λ encoding s5 v5 _.
                      go_on-Sound n Anything Anything _ _
                        (read_encoding-Sound encoding x y w h flags s5 v5)
                        (λ flags' s6 v6 _. read_rects-Sound count flags' s6 v6))))))

    read_framebuffer_update-Sound :
        (continuous : Bool) (s : Reading State)
        → Fine n s
        → Sound n Anything (read_framebuffer_update inflater continuous s)
    unfolding read_framebuffer_update begin_update
    read_framebuffer_update-Sound continuous s v =
        then_shared n Anything begin_update _ s v v.whole (λ s1 v1.
          then_reads n Anything Anything u8 _ s1 v1 (u8-Leaves n s1.conn v1.left) (λ pad s2 v2 _.
            then_reads n Anything Anything u16 _ s2 v2 (u16-Leaves n s2.conn v2.left)
              (λ count s3 v3 _.
                go_on-Sound n Anything Anything _ _
                  (read_rects-Sound count (record { painted_any = false; resized_any = false }) s3
                    v3)
                  (λ flags s4 v4 _.
                    finish_update-Sound n continuous (s.inner.updates_begun + 1) flags s4 v4))))

  Sound-weaken :
      (n : ℕ) (Q : Unit {0} → Type 0) (p : Reading State × Result Error (Unit {0}))
      → Sound n Anything p
      → Q tt
      → Sound n Q p
  Sound-weaken n Q (s, ok tt) h q = (h.0, q)
  Sound-weaken n Q (s, err e) h q = h
  Sound-weaken n Q (s, panic) h q = absurd h
  Sound-weaken n Q (s, stuck) h q = absurd h

  -- A message that is read takes a byte at least.
  read_message-Sound :
      (n : ℕ) (continuous : Bool) (s : Reading State)
      → IsSized s.inner.fb
      → length s.conn.input ≤ n
      → Sound (n - 1) (λ _. 0 < n) (read_message inflater continuous s)
  unfolding read_message emit
  read_message-Sound n continuous s v h =
      go_on-Sound (n - 1) (λ _. 0 < n) (λ _. 0 < n) _ _
        (reads-Sound (n - 1) (λ _. 0 < n) u8 s v
          (
            omega (arith, u8_left s.conn, h),
            Returns-weaken (λ _. 0 < length s.conn.input) (λ _. 0 < n) (u8 s.conn).1
                (u8_there s.conn) (λ b more. omega (arith, more, h)),
          ))
        (λ message s1 v1 some_left.
          Sound-weaken (n - 1) (λ _. 0 < n) _
            (if-Sound (n - 1) Anything (message == framebuffer_update) _ _ s1
              (read_framebuffer_update-Sound (n - 1) continuous s1 v1)
              (if-Sound (n - 1) Anything (message == set_colour_map_entries) _ _ s1
                (read_colour_map-Sound (n - 1) s1 v1)
                (if-Sound (n - 1) Anything (message == bell) _ _ s1
                  (done_shared (n - 1) _ s1 v1 v1.whole)
                  (if-Sound (n - 1) Anything (message == server_cut_text) _ _ s1
                    (read_cut_text-Sound (n - 1) s1 v1)
                    (fail-Sound (n - 1) Anything (protocol (message_type message)) s1 v1)))))
            some_left)

-- The task has returned, the session is dead, and its framebuffer has its bytes.
pub record Dead {Z : Type 0} (p : Reading Z × Result Error (Unit {0})) : Type 0 where
  pub returned : p.1 ≡ ok tt
  pub dead : p.0.inner.connected ≡ false
  pub whole : IsSized p.0.inner.fb

abbrev Marked : Inner → Type 0
Marked i = (i.connected ≡ false) × IsSized i.fb

either-Marked :
    (t : Bool) (a b : Inner)
    → (t ≡ true → Marked a)
    → (t ≡ false → Marked b)
    → Marked (if t then a else b)
either-Marked true a b h k = h refl
either-Marked false a b h k = k refl

mark_dead-Marked : (reason : Option Text) (i : Inner) → IsSized i.fb → Marked (mark_dead reason i)
unfolding mark_dead emit
mark_dead-Marked reason i v = either-Marked i.connected _ _ (λ _. (refl, v)) (λ e. (e, v))

-- Whatever the server sends until it hangs up, the read loop by itself reads to the end of it or to the
-- first message that it refuses, and then marks the session dead: nothing panics, no loop runs on, and
-- the framebuffer keeps four bytes for each pixel of its size. The inflater keeps to what flate2
-- documents, and as many rounds are given as bytes are sent, and one more.
pub reader_loop-Dead :
    (inflater : Inflater)
    → Steady inflater
    → (show : Error → Text) (continuous : Bool) (rounds : ℕ) (s : Reading inflater.State)
    → IsSized s.inner.fb
    → length s.conn.input < rounds
    → Dead (reader_loop inflater show continuous rounds s)
unfolding reader_loop shared
reader_loop-Dead inflater steady show continuous zero s v h = absurd (omega arith)
reader_loop-Dead inflater steady show continuous (suc rounds) s v h =
    goes_on (λ s' v' h'. reader_loop-Dead inflater steady show continuous rounds s' v' h')
      (read_message inflater continuous s)
      (read_message-Sound inflater steady rounds continuous s v (omega arith))
  where
    goes_on :
        ((s' : Reading inflater.State)
          → IsSized s'.inner.fb
          → length s'.conn.input < rounds
          → Dead (reader_loop inflater show continuous rounds s'))
        → (p : Reading inflater.State × Result Error (Unit {0}))
        → Sound (rounds - 1) (λ _. 0 < rounds) p
        → Dead {Z = inflater.State} (
            let (s', outcome) = p in
            elim outcome [
              | ok done ↦ reader_loop inflater show continuous rounds s'
              | err e ↦ shared (mark_dead (some (show e))) s'
              | panic ↦ (s', panic)
              | stuck ↦ (s', stuck)
            ])
    goes_on again (s', ok done) k = again s' k.0.whole (omega (arith, k.0.left, k.1))
    goes_on again (s', err e) k =
        let (dead, whole) = mark_dead-Marked (some (show e)) s'.inner k in
        record { returned = refl; dead = dead; whole = whole }
    goes_on again (s', panic) k = absurd k
    goes_on again (s', stuck) k = absurd k
