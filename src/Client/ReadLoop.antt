-- ===== src/Client/ReadLoop.antt =====
-- client.rs: the read loop by itself, over the whole of what the server will send. What stands between two
-- of its accesses to the shared state is left to the steps of Session; the shutdown flag stays down.
pub mod Skipped
pub mod Sound
pub mod Kept
pub mod Hears
pub mod Ended
use bolide.Base.{
  ℕ, zero, suc, ◌+◌, ◌*◌, ◌==◌, ltb, Bool, true, false, ◌||◌, List, if◌then◌else◌, Result, ok, err,
  panic, stuck, some,
}
use bolide.Base.Text.{Text}
use bolide.Error.{Error, protocol, zrle_claims, message_type, unsupported_encoding}
use bolide.Proto.{enc_raw, enc_copy_rect, enc_zrle, enc_desktop_size}
use bolide.Proto.ServerMsg.{framebuffer_update, set_colour_map_entries, bell, server_cut_text}
use bolide.Proto.Format.{PixelFormat, bytes_per_pixel}
use bolide.Framebuffer.{Framebuffer, blit_raw, blit_rgba, copy_rect}
use bolide.Zrle.Inflate.{Inflater, decode_rect}
use bolide.Session.{
  Inner, request, send, emit, mark_dead, begin_update, paint, resize, want_full, answer_all,
  finish_painting, store_cut_text, resized, cut_text_event, bell_event,
}
use bolide.Client.{Conn, Io, bytes, u8, u16, u32, string, skip}

pub record Decoders (Z : Type 0) : Type 0 where
  pub zrle : Z
  pub format : PixelFormat

-- What the read loop reads from, shares and owns.
pub record Reading (Z : Type 0) : Type 0 where
  pub conn : Conn
  pub inner : Inner
  pub decoders : Decoders Z

-- `painted_any` and `resized`.
pub record Flags : Type 0 where
  pub painted_any : Bool
  pub resized_any : Bool

abbrev pub max_cut_text : ℕ
max_cut_text = 8 * 1024 * 1024

abbrev pub max_zrle_payload : ℕ
max_zrle_payload = 64 * 1024 * 1024

abbrev pub Loop : Type 0 → Type 0 → Type 0
Loop Z A = Reading Z → Reading Z × Result Error A

module _ {Z : Type 0} where
  unfoldable pub go_on :
      {A B : Type 0} → (A → Loop Z B) → Reading Z × Result Error A → Reading Z × Result Error B
  go_on f (s, ok a) = f a s
  go_on f (s, err e) = (s, err e)
  go_on f (s, panic) = (s, panic)
  go_on f (s, stuck) = (s, stuck)

  infixl 5 ◌>>=◌
  abbrev pub ◌>>=◌ : {A B : Type 0} → Loop Z A → (A → Loop Z B) → Loop Z B
  ◌>>=◌ m f s = go_on f (m s)

  unfoldable pub pure : {A : Type 0} → A → Loop Z A
  pure a s = (s, ok a)

  unfoldable pub fail : {A : Type 0} → Error → Loop Z A
  fail e s = (s, err e)

  -- A call of the connection.
  unfoldable pub reads : {A : Type 0} → Io A → Loop Z A
  reads m s = (record s { conn = (m s.conn).0 }, (m s.conn).1)

  -- An access to the shared state.
  unfoldable pub shared : (Inner → Inner) → Loop Z (Unit {0})
  shared f s = (record s { inner = f s.inner }, ok tt)

  -- A rectangle that is put into the framebuffer, under its lock.
  unfoldable pub painting :
      Reading Z → Result Error Framebuffer → Reading Z × Result Error (Unit {0})
  painting s (ok fb) = (record s { inner = paint fb s.inner }, ok tt)
  painting s (err e) = (s, err e)
  painting s panic = (s, panic)
  painting s stuck = (s, stuck)

  unfoldable pub paints : (Framebuffer → Result Error Framebuffer) → Loop Z (Unit {0})
  unfolding painting
  paints blit s = painting s (blit s.inner.fb)

  unfoldable pub inflated :
      Reading Z → Result Error (Z × List ℕ) → Reading Z × Result Error (List ℕ)
  inflated s (ok (z, rgba)) = (record s { decoders = record s.decoders { zrle = z } }, ok rgba)
  inflated s (err e) = (s, err e)
  inflated s panic = (s, panic)
  inflated s stuck = (s, stuck)

  unfoldable pub read_raw : (x y w h : ℕ) → Loop Z (Unit {0})
  read_raw x y w h s =
      (reads (bytes (w * h * bytes_per_pixel s.decoders.format)) >>= λ wire.
      paints (λ fb. blit_raw fb x y w h s.decoders.format wire))
        s

  unfoldable pub read_copy_rect : (x y w h : ℕ) → Loop Z (Unit {0})
  read_copy_rect x y w h =
      reads u16 >>= λ src_x. reads u16 >>= λ src_y. paints (λ fb. copy_rect fb x y w h src_x src_y)

  unfoldable pub read_desktop_size : (w h : ℕ) → Loop Z (Unit {0})
  read_desktop_size w h =
      shared (resize w h) >>= λ _. shared want_full >>= λ _. shared (λ i. emit i (resized w h))

  -- The end of `read_framebuffer_update`.
  unfoldable pub finish_update : Bool → ℕ → Flags → Loop Z (Unit {0})
  finish_update continuous update flags = shared answer_all >>= λ _.
      (if flags.resized_any || continuous then shared (λ i. (send (request true) i).0) else pure tt)
      >>= λ _. (if flags.painted_any then shared (finish_painting update) else pure tt)

  unfoldable pub read_colour_map : Loop Z (Unit {0})
  read_colour_map =
      reads u8 >>= λ pad. reads u16 >>= λ first. reads u16 >>= λ count. reads (skip (count * 6))

  unfoldable pub read_cut_text : Loop Z (Unit {0})
  read_cut_text = reads (skip 3) >>= λ _. reads (string max_cut_text) >>= λ text.
      shared (store_cut_text text) >>= λ _. shared (λ i. emit i (cut_text_event text))

module _ (inflater : Inflater) where
  open inflater use {State}

  unfoldable pub read_zrle : (x y w h : ℕ) → Loop State (Unit {0})
  unfolding inflated
  read_zrle x y w h = reads u32 >>= λ len.
      if ltb max_zrle_payload len
      then fail (protocol (zrle_claims len))
      else (reads (bytes len) >>= λ payload.
          (λ s. inflated s (decode_rect inflater payload s.decoders.format w h s.decoders.zrle))
          >>= λ rgba. paints (λ fb. blit_rgba fb x y w h rgba))

  -- The `match` on the encoding of a rect.
  unfoldable pub read_encoding : (encoding x y w h : ℕ) → Flags → Loop State Flags
  read_encoding encoding x y w h flags =
      if encoding == enc_raw
      then (read_raw x y w h >>= λ _. pure (record flags { painted_any = true }))
      else if encoding == enc_copy_rect
      then (read_copy_rect x y w h >>= λ _. pure (record flags { painted_any = true }))
      else if encoding == enc_zrle
      then (read_zrle x y w h >>= λ _. pure (record flags { painted_any = true }))
      else if encoding == enc_desktop_size
      then (read_desktop_size w h >>= λ _. pure (record flags { resized_any = true }))
      else fail (unsupported_encoding encoding)

  -- The loop over the rects of an update.
  unfoldable pub read_rects : ℕ → Flags → Loop State Flags
  unfolding read_encoding
  read_rects zero flags = pure flags
  read_rects (suc count) flags = reads u16 >>= λ x. reads u16 >>= λ y. reads u16 >>= λ w.
      reads u16 >>= λ h. reads u32 >>= λ encoding.
      read_encoding encoding x y w h flags >>= λ flags'. read_rects count flags'

  unfoldable pub read_framebuffer_update : Bool → Loop State (Unit {0})
  unfolding read_rects finish_update
  read_framebuffer_update continuous s =
      (shared begin_update >>= λ _. reads u8 >>= λ pad. reads u16 >>= λ count.
      read_rects count (record { painted_any = false; resized_any = false }) >>= λ flags.
      finish_update continuous (s.inner.updates_begun + 1) flags)
        s

  unfoldable pub read_message : Bool → Loop State (Unit {0})
  unfolding read_framebuffer_update read_colour_map read_cut_text
  read_message continuous = reads u8 >>= λ message.
      if message == framebuffer_update
      then read_framebuffer_update continuous
      else if message == set_colour_map_entries
      then read_colour_map
      else if message == bell
      then shared (λ i. emit i bell_event)
      else if message == server_cut_text
      then read_cut_text
      else fail (protocol (message_type message))

  -- The loop of `reader_task`. `show` is `to_string` of an error; a message takes a byte off at least.
  unfoldable pub reader_loop : (Error → Text) → Bool → ℕ → Loop State (Unit {0})
  unfolding read_message
  reader_loop show continuous zero s = (s, stuck)
  reader_loop show continuous (suc rounds) s =
      let (s', outcome) = read_message continuous s in
      elim outcome [
        | ok done ↦ reader_loop show continuous rounds s'
        | err e ↦ shared (mark_dead (some (show e))) s'
        | panic ↦ (s', panic)
        | stuck ↦ (s', stuck)
      ]
