-- ===== src/Client/ReadLoop/Skipped.antt =====
-- client.rs, `Conn`: what the read head leaves to read, and `skip`.
use bolide.Base.{
  ℕ, zero, suc, ◌-◌, ◌≤◌, ◌<◌, ◌==◌, leb, ltb, min, Bool, Bool-cases, true, false, length,
  length-drop, if◌then◌else◌, Result, ok, err, panic, stuck, Returns, Returns-weaken, leb→le, ◌≡◌,
  refl, arith, inl, inr,
}
use bolide.Error.{Error}
use bolide.Client.{
  Conn, resume, give, bytes, one_byte, one_half, one_word, u8, u16, u32, string, skip_loop, skip,
}
use bolide.Client.Writes.{Anything, bytes-Silent, u8-Silent, u16-Silent, u32-Silent}

-- No more than `n` bytes are left to read, and nothing panicked.
abbrev pub Leaves : {A : Type 0} → ℕ → (A → Type 0) → Conn × Result Error A → Type 0
Leaves n P p = (length p.0.input ≤ n) × Returns P p.1

module _ {A B : Type 0} (n : ℕ) (P : A → Type 0) (Q : B → Type 0) where
  resume-Leaves :
      (f : A → Conn → Conn × Result Error B) (p : Conn × Result Error A)
      → Leaves n P p
      → ((a : A) (c : Conn) → length c.input ≤ n → P a → Leaves n Q (f a c))
      → Leaves n Q (resume f p)
  unfolding resume
  resume-Leaves f (c, ok a) h k = k a c h.0 h.1
  resume-Leaves f (c, err e) h k = (h.0, tt)
  resume-Leaves f (c, panic) h k = absurd h.1
  resume-Leaves f (c, stuck) h k = absurd h.1

if-Leaves :
    {A : Type 0} (n : ℕ) (P : A → Type 0) (t : Bool) (f g : Conn → Conn × Result Error A) (c : Conn)
    → (t ≡ true → Leaves n P (f c))
    → (t ≡ false → Leaves n P (g c))
    → Leaves n P ((if t then f else g) c)
if-Leaves n P true f g c h k = h refl
if-Leaves n P false f g c h k = k refl

-- A read past the end leaves nothing.
bytes_left : (k : ℕ) (c : Conn) → length (bytes k c).0.input ≤ length c.input - k
unfolding bytes
bytes_left k c = elim (Bool-cases (leb k (length c.input))) [
  | inl e ↦ rw e (omega (arith, length-drop k c.input))
  | inr e ↦ rw e (omega arith)
]

module _ (n : ℕ) (c : Conn) (h : length c.input ≤ n) where
  pub bytes-Leaves : (k : ℕ) → Leaves n (λ b. length b ≡ k) (bytes k c)
  bytes-Leaves k = (omega (arith, bytes_left k c, h), (bytes-Silent k c c.output refl).1)

given_left :
    {A B : Type 0} (g : A → Result Error B) (p : Conn × Result Error A)
    → (resume (λ a. give (g a)) p).0 ≡ p.0
unfolding resume give
given_left g (c, ok a) = refl
given_left g (c, err e) = refl
given_left g (c, panic) = refl
given_left g (c, stuck) = refl

pub u8_left : (c : Conn) → length (u8 c).0.input ≤ length c.input - 1
unfolding u8
u8_left c = rw (given_left one_byte (bytes 1 c)) (bytes_left 1 c)

-- A byte that is given was there.
pub u8_there : (c : Conn) → Returns (λ b. 0 < length c.input) (u8 c).1
unfolding u8 bytes resume
u8_there c = elim (Bool-cases (leb 1 (length c.input))) [
  | inl e ↦
      Returns-weaken Anything _ _ (u8-Silent c c.output refl).1
        (λ _ _. omega (arith, leb→le 1 (length c.input) e))
  | inr e ↦ rw e tt
]

module _ (n : ℕ) (c : Conn) (h : length c.input ≤ n) where
  pub u8-Leaves : Leaves n Anything (u8 c)
  u8-Leaves = (omega (arith, u8_left c, h), (u8-Silent c c.output refl).1)

  pub u16-Leaves : Leaves n Anything (u16 c)
  unfolding u16
  u16-Leaves = (
    rw (given_left one_half (bytes 2 c)) (omega (arith, bytes_left 2 c, h)),
    (u16-Silent c c.output refl).1,
  )

  pub u32-Leaves : Leaves n Anything (u32 c)
  unfolding u32
  u32-Leaves = (
    rw (given_left one_word (bytes 4 c)) (omega (arith, bytes_left 4 c, h)),
    (u32-Silent c c.output refl).1,
  )

module _ (n : ℕ) where
  pub string-Leaves : (cap : ℕ) (c : Conn) → length c.input ≤ n → Leaves n Anything (string cap c)
  unfolding string give
  string-Leaves cap c h =
      resume-Leaves n Anything Anything _ (u32 c) (u32-Leaves n c h) (λ len c1 h1 _.
        if-Leaves n Anything (ltb cap len) _ _ c1 (λ _. (h1, tt))
          (λ _.
            resume-Leaves n (λ b. length b ≡ len) Anything _ (bytes len c1)
              (bytes-Leaves n c1 h1 len) (λ b c2 h2 _. (h2, tt))))

  skip_loop-Leaves :
      (rounds k : ℕ) (c : Conn)
      → k ≤ rounds
      → length c.input ≤ n
      → Leaves n Anything (skip_loop rounds k c)
  unfolding skip_loop give
  skip_loop-Leaves zero k c r h = let e : k ≡ 0 = omega arith in rw e (h, tt)
  skip_loop-Leaves (suc rounds) k c r h =
      if-Leaves n Anything (k == 0) _ _ c (λ _. (h, tt))
        (λ e.
          resume-Leaves n (λ b. length b ≡ min k 1024) Anything _ (bytes (min k 1024) c)
            (bytes-Leaves n c h (min k 1024))
            (λ b c1 h1 _. skip_loop-Leaves rounds (k - min k 1024) c1 (fewer k rounds e r) h1))
    where
      fewer : (k rounds : ℕ) → (k == 0) ≡ false → k ≤ suc rounds → k - min k 1024 ≤ rounds
      fewer k rounds e r = ground arith

  pub skip-Leaves : (k : ℕ) (c : Conn) → length c.input ≤ n → Leaves n Anything (skip k c)
  unfolding skip
  skip-Leaves k c h = skip_loop-Leaves k k c (omega arith) h
