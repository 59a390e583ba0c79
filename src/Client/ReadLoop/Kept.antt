-- ===== src/Client/ReadLoop/Kept.antt =====
-- client.rs: what a server sends is read to its end, call by call, and the framebuffer keeps its size.
use bolide.Base.{ℕ, ◌*◌, Bool, true, ◌||◌, length, ◌≡◌}
use bolide.Error.{Error}
use bolide.Framebuffer.Blit.{IsSized}
use bolide.Proto.Format.{bytes_per_pixel}
use bolide.Session.{
  Inner, request, emit, resize, want_full, answer_all, finish_painting, store_cut_text,
}
use bolide.Client.{Io, u8, u16, string, skip}
use bolide.Client.Writes.{Anything}
use bolide.Client.ReadLoop.Skipped.{
  Leaves, bytes-Leaves, u8-Leaves, u16-Leaves, string-Leaves, skip-Leaves,
}
use bolide.Client.ReadLoop.Sound.{
  Fine, Sound, go_on-Sound, if-Sound, reads-Sound, paints-Sound, send-fb, black-IsSized,
  blit_raw-Returns, copy_rect-Returns,
}
use bolide.Client.ReadLoop.{
  Reading, Loop, Flags, go_on, pure, fail, reads, shared, read_raw, read_copy_rect,
  read_desktop_size, finish_update, read_colour_map, read_cut_text, max_cut_text,
}

module _ {Z : Type 0} (n : ℕ) where
  -- A read, and an access to the shared state that keeps the framebuffer's size, before what follows.
  pub then_reads :
      {A B : Type 0} (P : A → Type 0) (Q : B → Type 0) (m : Io A) (f : A → Loop Z B) (s : Reading Z)
      → Fine n s
      → Leaves n P (m s.conn)
      → ((a : A) (s' : Reading Z) → Fine n s' → P a → Sound n Q (f a s'))
      → Sound n Q (go_on f (reads m s))
  then_reads P Q m f s v h k = go_on-Sound n P Q f (reads m s) (reads-Sound n P m s v.whole h) k

  pub then_shared :
      {B : Type 0} (Q : B → Type 0) (g : Inner → Inner) (f : Unit {0} → Loop Z B) (s : Reading Z)
      → Fine n s
      → IsSized (g s.inner).fb
      → ((s' : Reading Z) → Fine n s' → Sound n Q (f tt s'))
      → Sound n Q (go_on f (shared g s))
  unfolding go_on shared
  then_shared Q g f s v h k =
      k (record s { inner = g s.inner }) (record { whole = h; left = v.left })

  pub done_shared :
      (g : Inner → Inner) (s : Reading Z)
      → Fine n s
      → IsSized (g s.inner).fb
      → Sound n Anything (shared g s)
  unfolding shared
  done_shared g s v h = (record { whole = h; left = v.left }, tt)

  pub pure-Sound : {A : Type 0} (a : A) (s : Reading Z) → Fine n s → Sound n Anything (pure a s)
  unfolding pure
  pure-Sound a s v = (v, tt)

  pub fail-Sound :
      {A : Type 0} (P : A → Type 0) (e : Error) (s : Reading Z) → Fine n s → Sound n P (fail e s)
  unfolding fail
  fail-Sound P e s v = v.whole

  pub read_raw-Sound :
      (x y w h : ℕ) (s : Reading Z) → Fine n s → Sound n Anything (read_raw x y w h s)
  unfolding read_raw
  read_raw-Sound x y w h s v =
      then_reads (λ b. length b ≡ w * h * bytes_per_pixel s.decoders.format) Anything _ _ s v
        (bytes-Leaves n s.conn v.left _)
        (λ wire s1 v1 e.
          paints-Sound n Anything _ s1 v1 tt
            (blit_raw-Returns s1.inner.fb x y w h v1.whole s.decoders.format wire e))

  pub read_copy_rect-Sound :
      (x y w h : ℕ) (s : Reading Z) → Fine n s → Sound n Anything (read_copy_rect x y w h s)
  unfolding read_copy_rect
  read_copy_rect-Sound x y w h s v =
      then_reads Anything Anything u16 _ s v (u16-Leaves n s.conn v.left) (λ src_x s1 v1 _.
        then_reads Anything Anything u16 _ s1 v1 (u16-Leaves n s1.conn v1.left) (λ src_y s2 v2 _.
          paints-Sound n Anything _ s2 v2 tt
            (copy_rect-Returns s2.inner.fb x y w h v2.whole src_x src_y)))

  pub read_desktop_size-Sound :
      (w h : ℕ) (s : Reading Z) → Fine n s → Sound n Anything (read_desktop_size w h s)
  unfolding read_desktop_size resize want_full emit
  read_desktop_size-Sound w h s v =
      then_shared Anything _ _ s v (black-IsSized w h)
        (λ s1 v1. then_shared Anything _ _ s1 v1 v1.whole (λ s2 v2. done_shared _ s2 v2 v2.whole))

  pub finish_update-Sound :
      (continuous : Bool) (update : ℕ) (flags : Flags) (s : Reading Z)
      → Fine n s
      → Sound n Anything (finish_update continuous update flags s)
  unfolding finish_update answer_all finish_painting emit
  finish_update-Sound continuous update flags s v = then_shared Anything _ _ s v v.whole (λ s1 v1.
      go_on-Sound n Anything Anything _ _
        (if-Sound n Anything (flags.resized_any || continuous) _ _ s1
          (done_shared _ s1 v1 (rw (send-fb (request true) s1.inner) v1.whole))
          (pure-Sound tt s1 v1))
        (λ _ s2 v2 _.
          if-Sound n Anything flags.painted_any _ _ s2 (done_shared _ s2 v2 v2.whole)
            (pure-Sound tt s2 v2)))

  pub read_colour_map-Sound : (s : Reading Z) → Fine n s → Sound n Anything (read_colour_map s)
  unfolding read_colour_map
  read_colour_map-Sound s v =
      then_reads Anything Anything u8 _ s v (u8-Leaves n s.conn v.left) (λ pad s1 v1 _.
        then_reads Anything Anything u16 _ s1 v1 (u16-Leaves n s1.conn v1.left) (λ first s2 v2 _.
          then_reads Anything Anything u16 _ s2 v2 (u16-Leaves n s2.conn v2.left) (λ count s3 v3 _.
            reads-Sound n Anything (skip (count * 6)) s3 v3.whole
              (skip-Leaves n (count * 6) s3.conn v3.left))))

  pub read_cut_text-Sound : (s : Reading Z) → Fine n s → Sound n Anything (read_cut_text s)
  unfolding read_cut_text store_cut_text emit
  read_cut_text-Sound s v =
      then_reads Anything Anything (skip 3) _ s v (skip-Leaves n 3 s.conn v.left) (λ _ s1 v1 _.
        then_reads Anything Anything (string max_cut_text) _ s1 v1
          (string-Leaves n max_cut_text s1.conn v1.left)
          (λ text s2 v2 _.
            then_shared Anything _ _ s2 v2 v2.whole (λ s3 v3. done_shared _ s3 v3 v3.whole)))
