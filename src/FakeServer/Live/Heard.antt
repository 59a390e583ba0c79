-- ===== src/FakeServer/Live/Heard.antt =====
-- server.rs of the test kit and client.rs: the read loop hears what a live connection is sent.
use mathlib.Core.List.{append-nil}
use bolide.Base.{
  ℕ, zero, suc, ◌*◌, ◌%◌, ◌^◌, ◌≤◌, Bool, true, List, [], ◌∷◌, ◌++◌, length, replicate, ok, ◌≡◌,
  refl, ap, ◌∙◌, arith,
}
use bolide.Base.Bytes.{IsU16, be16, be32}
use bolide.Proto.{enc_desktop_size}
use bolide.Proto.Format.{PixelFormat}
use bolide.Proto.Messages.{to_latin1, from_latin1}
use bolide.Framebuffer.{Framebuffer, black, set_alpha}
use bolide.Session.{
  Inner, request, send, emit, begin_update, want_full, answer_all, store_cut_text, bell_event,
  cut_text_event, resized,
}
use bolide.Session
use bolide.Zrle.Inflate.{Inflater}
use bolide.Client.{u8, u16, u32, string, skip, skip_loop}
use bolide.Client.ReadLoop.Sound.{send-fb}
use bolide.Client.ReadLoop.Hears.{
  Hears, Hears-reads, Hears-shared, Hears-pure, Hears-bind, Hears-as,
}
use bolide.Client.Talks.{
  Talks, Talks-bind, Talks-give, Talks-bytes, Talks-u8, Talks-u16, Talks-u32, Talks-string,
}
use bolide.Client.ReadLoop.{
  Decoders, shared, read_message, read_cut_text, read_framebuffer_update, read_rects, read_encoding,
  read_desktop_size, finish_update, max_cut_text,
}
use bolide.Encode.Screen.{Screen, solid, solid_bytes, update_header, rect_header}
use bolide.Encode.Rect.{Deflater}
use bolide.FakeServer.Live.{
  Directive, set_screen, cut_text, bell, resize, copy_rect, drop, shutdown, Served, server_cut_text,
  black_pixel, apply_online,
}

-- What the client does to the state that its tasks share, on a directive that moves no pixels.
abbrev pub told : Directive → Bool → Inner → Inner
told (cut_text text) continuous i =
    emit (store_cut_text (to_latin1 text) i) (cut_text_event (to_latin1 text))
told bell continuous i = emit i bell_event
told (resize w h) continuous i =
    (send (request true)
      (answer_all (emit (want_full (Session.resize w h (begin_update i))) (resized w h)))).0
told (set_screen new) continuous i = i
told (copy_rect src_x src_y dst_x dst_y w h) continuous i = i
told drop continuous i = i
told shutdown continuous i = i

-- A text that the client takes, the bell, or a size of two words.
abbrev pub MovesNothing : Directive → Type 0
MovesNothing (cut_text text) = length (to_latin1 text) ≤ max_cut_text
MovesNothing bell = Unit
MovesNothing (resize w h) = IsU16 w × IsU16 h
MovesNothing (set_screen new) = ⊥
MovesNothing (copy_rect src_x src_y dst_x dst_y w h) = ⊥
MovesNothing drop = ⊥
MovesNothing shutdown = ⊥

Talks-skip : Talks (skip 3) (0 ∷ 0 ∷ 0 ∷ []) [] (ok tt)
unfolding skip skip_loop
Talks-skip = Talks-bind _ _ (Talks-bytes (0 ∷ 0 ∷ 0 ∷ []) 3 refl) (Talks-give (ok tt))

module _ (inflater : Inflater) (d : Decoders inflater.State) (continuous : Bool) (i : Inner) where
  Hears-cut_text :
      (text : List ℕ)
      → length (to_latin1 text) ≤ max_cut_text
      → Hears d
          (read_message inflater continuous)
          (server_cut_text text)
          i
          (told (cut_text text) continuous i)
          tt
  unfolding read_message read_cut_text server_cut_text from_latin1
  Hears-cut_text text h =
      let latin1 = to_latin1 text in
      let whole : length latin1 % 2 ^ 32 ≡ length latin1 = omega (arith, h) in
      rw whole (
        Hears-as d _
          (Hears-bind d _ _ (Hears-reads d u8 _ i 3 (Talks-u8 3)) (
            Hears-bind d _ _ (Hears-reads d (skip 3) _ i tt Talks-skip) (
              Hears-bind d _ _
                (Hears-reads d (string max_cut_text) _ i latin1
                  (Talks-string max_cut_text latin1 h (omega arith)))
                (Hears-bind d _ _ (Hears-shared d (store_cut_text latin1) i)
                  (Hears-shared d (λ q. emit q (cut_text_event latin1)) _)))))
          (ap (λ q. 3 ∷ 0 ∷ 0 ∷ 0 ∷ (be32 (length latin1) ++ q)) (append-nil latin1)))

  Hears-bell : Hears d (read_message inflater continuous) (2 ∷ []) i (told bell continuous i) tt
  unfolding read_message
  Hears-bell =
      Hears-bind d _ _ (Hears-reads d u8 _ i 2 (Talks-u8 2))
        (Hears-shared d (λ q. emit q bell_event) i)

  Hears-update :
      (w h : ℕ)
      → IsU16 w
      → IsU16 h
      → Hears d
          (read_framebuffer_update inflater continuous)
          (0 ∷ (be16 1 ++ rect_header 0 0 w h enc_desktop_size))
          i
          (told (resize w h) continuous i)
          tt
  unfolding read_framebuffer_update read_rects read_encoding read_desktop_size finish_update
      rect_header
  Hears-update w h wide high = record {
    runs =
        (Hears-bind d (shared begin_update) _ (Hears-shared d begin_update i) (
          Hears-bind d _ _ (Hears-reads d u8 _ _ 0 (Talks-u8 0)) (
            Hears-bind d _ _ (Hears-reads d u16 _ _ 1 (Talks-u16 1 (omega arith))) (
              Hears-bind d _ _
                (Hears-bind d _ _ (Hears-reads d u16 _ _ 0 (Talks-u16 0 (omega arith))) (
                  Hears-bind d _ _ (Hears-reads d u16 _ _ 0 (Talks-u16 0 (omega arith))) (
                    Hears-bind d _ _ (Hears-reads d u16 _ _ w (Talks-u16 w wide)) (
                      Hears-bind d _ _ (Hears-reads d u16 _ _ h (Talks-u16 h high)) (
                        Hears-bind d _ _
                          (Hears-reads d u32 _ _ enc_desktop_size
                            (Talks-u32 enc_desktop_size (omega arith)))
                          (Hears-bind d _ _
                            (Hears-bind d _ _
                              (Hears-bind d _ _ (Hears-shared d (Session.resize w h) _) (
                                Hears-bind d _ _ (Hears-shared d want_full _) (Hears-shared d _ _)))
                              (Hears-pure d _ _))
                            (Hears-pure d _ _)))))))
                (Hears-bind d _ _ (Hears-shared d answer_all _)
                  (Hears-bind d _ _ (Hears-shared d _ _) (Hears-pure d tt _))))))).runs;
  }

  Hears-resize :
      (w h : ℕ)
      → IsU16 w
      → IsU16 h
      → Hears d
          (read_message inflater continuous)
          (update_header 1 ++ rect_header 0 0 w h enc_desktop_size)
          i
          (told (resize w h) continuous i)
          tt
  unfolding read_message update_header
  Hears-resize w h wide high =
      Hears-bind d _ _ (Hears-reads d u8 _ i 0 (Talks-u8 0)) (Hears-update w h wide high)

-- The screen of the server and the framebuffer of the client, before and after: a resize makes both
-- the same black, and the others leave both alone.
abbrev pub Shown : Directive → (screen screen' : Screen) → (fb fb' : Framebuffer) → Type 0
Shown (resize w h) screen screen' fb fb' =
    (fb'.width ≡ screen'.width) × (fb'.height ≡ screen'.height) × (fb'.rgba ≡ screen'.rgba)
Shown (cut_text text) screen screen' fb fb' = (screen' ≡ screen) × (fb' ≡ fb)
Shown bell screen screen' fb fb' = (screen' ≡ screen) × (fb' ≡ fb)
Shown (set_screen new) screen screen' fb fb' = (screen' ≡ screen) × (fb' ≡ fb)
Shown (copy_rect sx sy dx dy w h) screen screen' fb fb' = (screen' ≡ screen) × (fb' ≡ fb)
Shown drop screen screen' fb fb' = (screen' ≡ screen) × (fb' ≡ fb)
Shown shutdown screen screen' fb fb' = (screen' ≡ screen) × (fb' ≡ fb)

four : (n : ℕ) → suc n * 4 ≡ suc (suc (suc (suc (n * 4))))
four n = omega arith

black_bytes : (n : ℕ) → set_alpha (replicate (n * 4) 0) ≡ solid_bytes n black_pixel
unfolding set_alpha solid_bytes
black_bytes zero = refl
black_bytes (suc n) = rw (four n) (ap (λ q. 0 ∷ 0 ∷ 0 ∷ 255 ∷ q) (black_bytes n))

resize-Shown :
    (w h : ℕ) (continuous : Bool) (screen : Screen) (i : Inner)
    → Shown (resize w h) screen (solid w h black_pixel) i.fb (told (resize w h) continuous i).fb
unfolding solid Session.resize emit want_full answer_all begin_update black
resize-Shown w h continuous screen i =
    let same =
      send-fb (request true)
        (answer_all (emit (want_full (Session.resize w h (begin_update i))) (resized w h))) in
    (
      ap (λ fb. fb.width) same,
      ap (λ fb. fb.height) same,
      ap (λ fb. fb.rgba) same ∙ black_bytes (w * h),
    )

-- A text, the bell and a resize, sent to a live connection, are heard by the client's read loop: it
-- reads exactly what was written, whatever follows, and stores the text as its latin-1 form, rings,
-- or takes the size, wants the whole screen and asks for it. Behind a resize its framebuffer is the
-- server's new screen, and the others change neither. The text is within the client's cap, and the size
-- is two words.
pub read_message-apply_online :
    (deflater : Deflater) (inflater : Inflater) (directive : Directive) (screen : Screen)
    (f : PixelFormat) (cfg : Served) (advertised : List ℕ) (z : deflater.Stream)
    (d : Decoders inflater.State) (continuous : Bool) (i : Inner)
    → MovesNothing directive
    → (screen' : Screen) × (wire : List ℕ) × (apply_online deflater directive screen f cfg
          advertised z
        ≡ ok (screen', (z, wire)))
      × Hears d (read_message inflater continuous) wire i (told directive continuous i) tt
      × Shown directive screen screen' i.fb (told directive continuous i).fb
unfolding apply_online emit store_cut_text
read_message-apply_online deflater inflater (cut_text text) screen f cfg advertised z d continuous i
      h =
    (
      screen,
      server_cut_text text,
      refl,
      Hears-cut_text inflater d continuous i text h,
      (refl, refl),
    )
read_message-apply_online deflater inflater bell screen f cfg advertised z d continuous i h =
    (screen, 2 ∷ [], refl, Hears-bell inflater d continuous i, (refl, refl))
read_message-apply_online deflater inflater (resize w h) screen f cfg advertised z d continuous i
      b =
    (
      solid w h black_pixel,
      update_header 1 ++ rect_header 0 0 w h enc_desktop_size,
      refl,
      Hears-resize inflater d continuous i w h b.0 b.1,
      resize-Shown w h continuous screen i,
    )
read_message-apply_online deflater inflater (set_screen new) screen f cfg advertised z d continuous
      i h =
    absurd h
read_message-apply_online deflater inflater (copy_rect sx sy dx dy w v) screen f cfg advertised z d
      continuous i h =
    absurd h
read_message-apply_online deflater inflater drop screen f cfg advertised z d continuous i h =
    absurd h
read_message-apply_online deflater inflater shutdown screen f cfg advertised z d continuous i h =
    absurd h
