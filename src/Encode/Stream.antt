-- ===== src/Encode/Stream.antt =====
-- Decoders of zrle.rs run on a stream: what they read, and what they leave to be read.
use bolide.Base.{
  ℕ, ◌+◌, ◌-◌, ◌^◌, ◌≤◌, ◌<◌, Bool, true, false, List, [], ◌∷◌, ◌++◌, Result, ok, length, take,
  drop, length-append, length-drop, take-append, drop-append, drop-add, ◌≡◌, refl, sym, ap, ◌∙◌,
  arith, if◌then◌else◌,
}
use bolide.Base.Bytes.{first}
use bolide.Error.{Error}
use bolide.Zrle.Cursor.{Cursor, Decoder, pure, lift, ◌>>=◌, take_bytes, take_u8}
use bolide.Zrle.Outcome.{take_bytes_ok}

-- The bytes behind the cursor are `s`, and a `usize` counts them all.
pub record Reading (c : Cursor) (s : List ℕ) : Type 0 where
  pub ahead : drop c.pos c.bytes ≡ s
  pub within : c.pos ≤ length c.bytes
  pub small : length c.bytes < 2 ^ 64

-- On any cursor before `s`, the decoder gives `a` and stands before `t`.
abbrev pub Decodes : {A : Type 0} → Decoder A → List ℕ → A → List ℕ → Type 0
Decodes m s a t = (c : Cursor) → Reading c s → (c' : Cursor) × (m c ≡ ok (a, c')) × Reading c' t

module _ {A B : Type 0} (m : Decoder A) (f : A → Decoder B) where
  pub Decodes-bind :
      {s t u : List ℕ} {a : A} {b : B}
      → Decodes m s a t
      → Decodes (f a) t b u
      → Decodes (m >>= f) s b u
  Decodes-bind h k c r =
      let (c', e, r') = h c r in let (c'', e', r'') = k c' r' in (c'', rw (e, ◌>>=◌) e', r'')

pub Decodes-pure : {A : Type 0} (a : A) (s : List ℕ) → Decodes (pure a) s a s
Decodes-pure a s c r = (c, refl, r)

pub Decodes-lift :
    {A : Type 0} (m : Result Error A) (a : A) (s : List ℕ) → m ≡ ok a → Decodes (lift m) s a s
Decodes-lift m a s e c r = (c, rw e refl, r)

module _ {A : Type 0} {s t : List ℕ} {a : A} (m n : Decoder A) where
  pub Decodes-if :
      (b : Bool)
      → (b ≡ true → Decodes m s a t)
      → (b ≡ false → Decodes n s a t)
      → Decodes (if b then m else n) s a t
  Decodes-if true h k = h refl
  Decodes-if false h k = k refl

pub Decodes-take : (xs t : List ℕ) (n : ℕ) → length xs ≡ n → Decodes (take_bytes n) (xs ++ t) xs t
Decodes-take xs t n e c r =
    let left : length c.bytes - c.pos ≡ n + length t =
      sym (length-drop c.pos c.bytes) ∙ ap length r.ahead ∙ length-append xs t ∙ omega (arith, e) in
    (
      record c { pos = c.pos + n },
      take_bytes_ok n c (omega (arith, left, r.within)) (omega (arith, left, r.within, r.small))
          ∙ ap (λ b. ok (b, record c { pos = c.pos + n }))
              (ap (take n) r.ahead ∙ take-append n xs t e),
      record {
        ahead = drop-add c.pos n c.bytes ∙ ap (drop n) r.ahead ∙ drop-append n xs t e;
        within = omega (arith, left, r.within);
        small = r.small;
      },
    )

pub Decodes-u8 : (b : ℕ) (t : List ℕ) → Decodes take_u8 (b ∷ t) b t
unfolding take_u8 first
Decodes-u8 b t =
    Decodes-bind (take_bytes 1) (λ raw. lift (first raw)) (Decodes-take (b ∷ []) t 1 refl)
      (Decodes-lift (first (b ∷ [])) b t refl)
