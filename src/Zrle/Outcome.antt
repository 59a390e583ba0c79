-- ===== src/Zrle/Outcome.antt =====
-- What a decoder gives on every cursor: it neither panics nor hangs, and what it returns is described.
use bolide.Base.{
  ℕ, ◌+◌, ◌-◌, ◌^◌, ◌≤◌, ◌<◌, ◌≡◌, refl, ap, ◌∙◌, ◌⊎◌, inl, inr, dec_le, dec_lt, arith, Bool, true,
  false, if◌then◌else◌, List, [], ◌∷◌, Result, ok, err, panic, stuck, Returns, length, length-take,
  length-drop, take, drop,
}
use bolide.Base.Bytes.{first}
use bolide.Error.{Error, protocol, absurd_read, ended_early}
use bolide.Zrle.Cursor.{Cursor, Decoder, ◌>>=◌, lift, take_bytes, take_u8}

-- `m` at `c` returns, with an error or with a value and a cursor that satisfy `P`.
abbrev pub Gives : {A : Type 0} → (A → Cursor → Type 0) → Cursor → Decoder A → Type 0
Gives P c m = Returns (λ r. P r.0 r.1) (m c)

pub Gives-bind :
    {A B : Type 0} (P : A → Cursor → Type 0) (Q : B → Cursor → Type 0) (c : Cursor) (m : Decoder A)
    (f : A → Decoder B)
    → Gives P c m
    → ((a : A) (c' : Cursor) → P a c' → Gives Q c' (f a))
    → Gives Q c (m >>= f)
Gives-bind {A} {B} P Q c m f = go (m c)
  where
    go :
        (r : Result Error (A × Cursor))
        → Returns (λ r. P r.0 r.1) r
        → ((a : A) (c' : Cursor) → P a c' → Gives Q c' (f a))
        → Returns
            (λ r. Q r.0 r.1)
            (elim r [ ok (a, c') ↦ f a c' | err e ↦ err e | panic ↦ panic | stuck ↦ stuck ])
    go (ok (a, c')) h k = k a c' h
    go (err e) h k = tt
    go panic h k = absurd h
    go stuck h k = absurd h

pub Gives-weaken :
    {A : Type 0} (P Q : A → Cursor → Type 0) (c : Cursor) (m : Decoder A)
    → Gives P c m
    → ((a : A) (c' : Cursor) → P a c' → Q a c')
    → Gives Q c m
Gives-weaken {A} P Q c m = go (m c)
  where
    go :
        (r : Result Error (A × Cursor))
        → Returns (λ r. P r.0 r.1) r
        → ((a : A) (c' : Cursor) → P a c' → Q a c')
        → Returns (λ r. Q r.0 r.1) r
    go (ok (a, c')) h k = k a c' h
    go (err e) h k = tt
    go panic h k = absurd h
    go stuck h k = absurd h

pub Gives-lift :
    {A : Type 0} (P : A → Type 0) (c : Cursor) (m : Result Error A)
    → Returns P m
    → Gives (λ a c'. P a × (c' ≡ c)) c (lift m)
Gives-lift P c (ok a) h = (h, refl)
Gives-lift P c (err e) h = tt
Gives-lift P c panic h = absurd h
Gives-lift P c stuck h = absurd h

-- The cursor has moved on over the same bytes, and stands within them.
pub record After (c c' : Cursor) : Type 0 where
  pub same_bytes : c'.bytes ≡ c.bytes
  pub forward : c.pos ≤ c'.pos
  pub within : c'.pos ≤ length c.bytes

pub take_bytes_ok :
    (n : ℕ) (c : Cursor)
    → c.pos + n ≤ length c.bytes
    → c.pos + n < 2 ^ 64
    → take_bytes n c ≡ ok (take n (drop c.pos c.bytes), record c { pos = c.pos + n })
unfolding take_bytes
take_bytes_ok n c h k = ground arith

take_bytes_err :
    (n : ℕ) (c : Cursor)
    → (length c.bytes < c.pos + n) ⊎ (2 ^ 64 ≤ c.pos + n)
    → (e : Error) × (take_bytes n c ≡ err e)
unfolding take_bytes
take_bytes_err n c h = elim (dec_le (2 ^ 64) (c.pos + n)) [
  | yes p ↦ (protocol absurd_read, ground arith)
  | no p ↦ (protocol (ended_early (c.pos + n - length c.bytes)), ground arith)
]

-- The bytes taken are the next ones, and the cursor stands behind them.
pub record Took (n : ℕ) (c : Cursor) (raw : List ℕ) (c' : Cursor) : Type 0 where
  pub taken : raw ≡ take n (drop c.pos c.bytes)
  pub size : length raw ≡ n
  pub same_bytes : c'.bytes ≡ c.bytes
  pub moved : c'.pos ≡ c.pos + n
  pub within : c'.pos ≤ length c.bytes

pub take_bytes-Took : (n : ℕ) (c : Cursor) → Gives (Took n c) c (take_bytes n)
take_bytes-Took n c = elim (dec_le (c.pos + n) (length c.bytes)) [
  | no p ↦ let (e, r) = take_bytes_err n c (inl (omega arith)) in rw r tt
  | yes p ↦ elim (dec_lt (c.pos + n) (2 ^ 64)) [
    | no q ↦ let (e, r) = take_bytes_err n c (inr (omega arith)) in rw r tt
    | yes q ↦ rw (take_bytes_ok n c p q) (record {
      taken = refl;
      size = omega (arith, length-take n (drop c.pos c.bytes), length-drop c.pos c.bytes);
      same_bytes = refl;
      moved = refl;
      within = p;
    })
  ]
]

-- One byte read.
pub record TookOne (c : Cursor) (b : ℕ) (c' : Cursor) : Type 0 where
  pub same_bytes : c'.bytes ≡ c.bytes
  pub moved : c'.pos ≡ c.pos + 1
  pub within : c'.pos ≤ length c.bytes

first-Returns : (raw : List ℕ) → length raw ≡ 1 → Returns {E = Error} (λ _. Unit {0}) (first raw)
unfolding first
first-Returns [] h = absurd (omega arith)
first-Returns (b ∷ bs) h = tt

pub take_u8-TookOne : (c : Cursor) → Gives (TookOne c) c take_u8
unfolding take_u8
take_u8-TookOne c =
    Gives-bind (Took 1 c) (TookOne c) c (take_bytes 1) (λ raw. lift (first raw))
      (take_bytes-Took 1 c)
      (λ raw c' t.
        Gives-weaken (λ b d. Unit × (d ≡ c')) (TookOne c) c' (lift (first raw))
          (Gives-lift (λ _. Unit) c' (first raw) (first-Returns raw t.size))
          (λ b d h. record {
            same_bytes = ap (λ (k : Cursor). k.bytes) h.1 ∙ t.same_bytes;
            moved = ap (λ (k : Cursor). k.pos) h.1 ∙ t.moved;
            within = rw h.1 t.within;
          }))

module _ {A : Type 0} (Q : A → Cursor → Type 0) (c : Cursor) (m n : Decoder A) where
  pub Gives-if :
      (t : Bool)
      → (t ≡ true → Gives Q c m)
      → (t ≡ false → Gives Q c n)
      → Gives Q c (if t then m else n)
  Gives-if true h k = h refl
  Gives-if false h k = k refl

  pub Gives-elim :
      (t : Bool)
      → (t ≡ true → Gives Q c m)
      → (t ≡ false → Gives Q c n)
      → Gives Q c (elim t [ true ↦ m | false ↦ n ])
  Gives-elim true h k = h refl
  Gives-elim false h k = k refl

pub Took-After : {n : ℕ} {raw : List ℕ} {c c' : Cursor} → Took n c raw c' → After c c'
Took-After t = record {
  same_bytes = t.same_bytes;
  forward = omega (arith, t.moved);
  within = t.within;
}

pub TookOne-After : {b : ℕ} {c c' : Cursor} → TookOne c b c' → After c c'
TookOne-After t = record {
  same_bytes = t.same_bytes;
  forward = omega (arith, t.moved);
  within = t.within;
}

pub After-trans : {a b c : Cursor} → After a b → After b c → After a c
After-trans {a} {b} {c} p q = record {
  same_bytes = q.same_bytes ∙ p.same_bytes;
  forward = omega (arith, p.forward, q.forward);
  within = omega (arith, q.within, ap length p.same_bytes);
}
