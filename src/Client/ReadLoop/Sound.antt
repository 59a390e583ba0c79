-- ===== src/Client/ReadLoop/Sound.antt =====
-- client.rs: what the read loop's calls keep, whatever the server sends.
use bolide.Base.{
  ℕ, ◌*◌, ◌≤◌, Bool, true, false, Option, List, [], ◌∷◌, length, length-replicate, replicate,
  if◌then◌else◌, Result, ok, err, panic, stuck, Returns, ◌≡◌, refl, ◌∙◌, arith, inl, inr,
}
use bolide.Error.{Error}
use bolide.Framebuffer.{Framebuffer, set_alpha, black, blit_raw, blit_rgba, copy_rect}
use bolide.Framebuffer.Blit.{
  IsSized, bounds_cases, check_bounds_ok, check_bounds_err, blit_rgba_cases,
}
use bolide.Framebuffer.Copy.{copy_rect-Moved}
use bolide.Framebuffer.Raw.{blit_raw-blit_rgba}
use bolide.Proto.Format.{PixelFormat, bytes_per_pixel}
use bolide.Session.{Inner, Command, paint, send, push_command, count_request, write, request}
use bolide.Client.{Conn, Io}
use bolide.Client.ReadLoop.Skipped.{Leaves}
use bolide.Client.ReadLoop.{Reading, Loop, go_on, reads, painting, paints, inflated}

length-set_alpha : (xs : List ℕ) → length (set_alpha xs) ≡ length xs
unfolding set_alpha
length-set_alpha [] = refl
length-set_alpha (a ∷ []) = refl
length-set_alpha (a ∷ b ∷ []) = refl
length-set_alpha (a ∷ b ∷ c ∷ []) = refl
length-set_alpha (a ∷ b ∷ c ∷ d ∷ rest) = omega (arith, length-set_alpha rest)

pub black-IsSized : (w h : ℕ) → IsSized (black w h)
unfolding black
black-IsSized w h = record {
  sized = length-set_alpha (replicate (w * h * 4) 0) ∙ length-replicate (w * h * 4) 0;
}

module _ (fb : Framebuffer) (x y w h : ℕ) (v : IsSized fb) where
  pub blit_rgba-Returns : (bytes : List ℕ) → Returns IsSized (blit_rgba fb x y w h bytes)
  blit_rgba-Returns bytes = elim (blit_rgba_cases fb x y w h bytes v) [
    | inl (b, out, e, p) ↦ rw e p.out_sized
    | inr (inl (o, e)) ↦ rw e tt
    | inr (inr (b, short, e)) ↦ rw e tt
  ]

  pub blit_raw-Returns :
      (f : PixelFormat) (bytes : List ℕ)
      → length bytes ≡ w * h * bytes_per_pixel f
      → Returns IsSized (blit_raw fb x y w h f bytes)
  blit_raw-Returns f bytes e =
      rw (blit_raw-blit_rgba fb x y w h f bytes v (omega (arith, e))) (blit_rgba-Returns _)

  pub copy_rect-Returns : (src_x src_y : ℕ) → Returns IsSized (copy_rect fb x y w h src_x src_y)
  unfolding copy_rect
  copy_rect-Returns src_x src_y = elim (bounds_cases fb x y w h) [
    | inl o ↦ rw (check_bounds_err fb x y w h o) tt
    | inr b ↦ elim (bounds_cases fb src_x src_y w h) [
      | inl o ↦ rw (check_bounds_ok fb x y w h b, check_bounds_err fb src_x src_y w h o) tt
      | inr b' ↦ let (out, e, m) = copy_rect-Moved fb x y w h src_x src_y v b b' in rw e m.out_sized
    ]
  ]

module _ {Z : Type 0} where
  -- The framebuffer has its bytes, and no more than `n` are left to read.
  pub record Fine (n : ℕ) (s : Reading Z) : Type 0 where
    pub whole : IsSized s.inner.fb
    pub left : length s.conn.input ≤ n

  -- So it is behind a value; behind an error the framebuffer has its bytes; nothing panics or hangs.
  abbrev pub Sound : {A : Type 0} → ℕ → (A → Type 0) → Reading Z × Result Error A → Type 0
  Sound n P (s, ok a) = Fine n s × P a
  Sound n P (s, err e) = IsSized s.inner.fb
  Sound n P (s, panic) = ⊥
  Sound n P (s, stuck) = ⊥

  pub go_on-Sound :
      {A B : Type 0} (n : ℕ) (P : A → Type 0) (Q : B → Type 0) (f : A → Loop Z B)
      (p : Reading Z × Result Error A)
      → Sound n P p
      → ((a : A) (s : Reading Z) → Fine n s → P a → Sound n Q (f a s))
      → Sound n Q (go_on f p)
  unfolding go_on
  go_on-Sound n P Q f (s, ok a) h k = k a s h.0 h.1
  go_on-Sound n P Q f (s, err e) h k = h
  go_on-Sound n P Q f (s, panic) h k = absurd h
  go_on-Sound n P Q f (s, stuck) h k = absurd h

  pub if-Sound :
      {A : Type 0} (n : ℕ) (P : A → Type 0) (t : Bool) (f g : Loop Z A) (s : Reading Z)
      → Sound n P (f s)
      → Sound n P (g s)
      → Sound n P ((if t then f else g) s)
  if-Sound n P true f g s h k = h
  if-Sound n P false f g s h k = k

  pub reads-Sound :
      {A : Type 0} (n : ℕ) (P : A → Type 0) (m : Io A) (s : Reading Z)
      → IsSized s.inner.fb
      → Leaves n P (m s.conn)
      → Sound n P (reads m s)
  unfolding reads
  reads-Sound {A} n P m s v h = given (m s.conn) h
    where
      given : (p : Conn × Result Error A) → Leaves n P p → Sound n P (record s { conn = p.0 }, p.1)
      given (c, ok a) k = (record { whole = v; left = k.0 }, k.1)
      given (c, err e) k = v
      given (c, panic) k = absurd k.1
      given (c, stuck) k = absurd k.1

  pub paints-Sound :
      (n : ℕ) (P : Unit {0} → Type 0) (blit : Framebuffer → Result Error Framebuffer)
      (s : Reading Z)
      → Fine n s
      → P tt
      → Returns IsSized (blit s.inner.fb)
      → Sound n P (paints blit s)
  unfolding paints painting paint
  paints-Sound n P blit s v p h = given (blit s.inner.fb) h
    where
      given : (r : Result Error Framebuffer) → Returns IsSized r → Sound n P (painting s r)
      given (ok fb) k = (record { whole = k; left = v.left }, p)
      given (err e) k = v.whole
      given panic k = absurd k
      given stuck k = absurd k

  pub inflated-Sound :
      (n size : ℕ) (s : Reading Z) (r : Result Error (Z × List ℕ))
      → Fine n s
      → Returns (λ q. length q.1 ≡ size) r
      → Sound n (λ rgba. length rgba ≡ size) (inflated s r)
  unfolding inflated
  inflated-Sound n size s (ok (z, rgba)) v h = (record { whole = v.whole; left = v.left }, h)
  inflated-Sound n size s (err e) v h = v.whole
  inflated-Sound n size s panic v h = absurd h
  inflated-Sound n size s stuck v h = absurd h

count_request-fb : (c : Command) (s : Inner) → (count_request c s).fb ≡ s.fb
unfolding count_request
count_request-fb (write bytes) s = refl
count_request-fb (request incremental) s = refl

either_fb :
    (t : Bool) (a b : Inner × Option Error) (fb : Framebuffer)
    → a.0.fb ≡ fb
    → b.0.fb ≡ fb
    → (if t then a else b).0.fb ≡ fb
either_fb true a b fb h k = h
either_fb false a b fb h k = k

-- A command that is sent leaves the framebuffer alone.
pub send-fb : (c : Command) (s : Inner) → (send c s).0.fb ≡ s.fb
unfolding send push_command
send-fb c s =
    let sent = count_request c s in
    let same = count_request-fb c s in
    either_fb s.connected _ _ s.fb (either_fb sent.receiving _ _ s.fb same same) refl
