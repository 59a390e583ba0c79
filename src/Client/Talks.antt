-- ===== src/Client/Talks.antt =====
-- Calls on a connection, by what they read from it and what they write to it.
use mathlib.Core.List.{append_assoc, append-nil}
use bolide.Base.{
  ℕ, ◌≤◌, ◌<◌, ◌^◌, Bool, true, false, List, [], ◌∷◌, ◌++◌, length, length-append, take-append,
  drop-append, le→leb, leb, ltb, if◌then◌else◌, Result, ok, err, panic, ◌≡◌, refl, sym, ap, ◌∙◌,
  arith,
}
use bolide.Base.Bytes.{be16, be32, IsU16, IsU32, from_be16-be16, from_be32-be32}
use bolide.Proto.Messages.{from_latin1}
use bolide.Client.{
  Conn, Talk, ◌>>=◌, resume, give, bytes, one_byte, one_half, one_word, u8, u16, u32, string, write,
}

abbrev pub conn : List ℕ → List ℕ → Conn
conn i o = record { input = i; output = o }

-- Whatever follows `s` and whatever was written, `m` reads `s`, writes `w` and gives `r`.
pub record Talks {E A : Type 0} (m : Talk E A) (s w : List ℕ) (r : Result E A) : Type 0 where
  pub runs : (t o : List ℕ) → m (conn (s ++ t) o) ≡ (conn t (o ++ w), r)

module _ {E A B : Type 0} (m : Talk E A) (f : A → Talk E B) {s w : List ℕ} where
  pub Talks-bind :
      {s' w' : List ℕ} {a : A} {r : Result E B}
      → Talks m s w (ok a)
      → Talks (f a) s' w' r
      → Talks (m >>= f) (s ++ s') (w ++ w') r
  unfolding resume
  Talks-bind {s'} {w'} {a} {r} h k = record {
    runs = λ t o. rw (append_assoc s s' t) (
        ap (resume f) (h.runs (s' ++ t) o)
        ∙ k.runs t (o ++ w)
        ∙ ap (λ q. (conn t q, r)) (append_assoc o w w'));
  }

  -- An error ends the call.
  pub Talks-fail : {e : E} → Talks m s w (err e) → Talks (m >>= f) s w (err e)
  unfolding resume
  Talks-fail h = record { runs = λ t o. ap (resume f) (h.runs t o) }

  pub Talks-panics : Talks m s w panic → Talks (m >>= f) s w panic
  unfolding resume
  Talks-panics h = record { runs = λ t o. ap (resume f) (h.runs t o) }

module _ {E A : Type 0} (m n : Talk E A) {s w : List ℕ} {r : Result E A} where
  pub Talks-then : {t : Bool} → t ≡ true → Talks m s w r → Talks (if t then m else n) s w r
  Talks-then e h = rw e h

  pub Talks-else : {t : Bool} → t ≡ false → Talks n s w r → Talks (if t then m else n) s w r
  Talks-else e h = rw e h

pub Talks-as :
    {E A : Type 0} (m : Talk E A) {s w s' w' : List ℕ} {r r' : Result E A}
    → Talks m s w r
    → s ≡ s'
    → w ≡ w'
    → r ≡ r'
    → Talks m s' w' r'
Talks-as m h e e' e'' = rw (← e, ← e', ← e'') h

pub Talks-give : {E A : Type 0} (r : Result E A) → Talks (give r) [] [] r
unfolding give
Talks-give r = record { runs = λ t o. ap (λ q. (conn t q, r)) (sym (append-nil o)) }

pub Talks-given : {E A : Type 0} (m : Result E A) {r : Result E A} → m ≡ r → Talks (give m) [] [] r
Talks-given m e = rw e (Talks-give _)

pub Talks-write : {E : Type 0} (w : List ℕ) → Talks {E = E} (write w) [] w (ok tt)
unfolding write
Talks-write w = record { runs = λ t o. refl }

enough : (xs t : List ℕ) (n : ℕ) → length xs ≡ n → leb n (length (xs ++ t)) ≡ true
enough xs t n e = le→leb n (length (xs ++ t)) (omega (arith, length-append xs t))

pub Talks-bytes : (xs : List ℕ) (n : ℕ) → length xs ≡ n → Talks (bytes n) xs [] (ok xs)
unfolding bytes
Talks-bytes xs n e = record {
  runs = λ t o. rw (enough xs t n e, take-append n xs t e, drop-append n xs t e, append-nil o) refl;
}

short : (cap n : ℕ) → n ≤ cap → ltb cap n ≡ false
short cap n h = ground arith

pub Talks-u8 : (b : ℕ) → Talks u8 (b ∷ []) [] (ok b)
unfolding u8 one_byte
Talks-u8 b = Talks-bind _ _ (Talks-bytes (b ∷ []) 1 refl) (Talks-give (ok b))

pub Talks-u16 : (v : ℕ) → IsU16 v → Talks u16 (be16 v) [] (ok v)
unfolding u16 one_half
Talks-u16 v h =
    Talks-as u16 (Talks-bind _ _ (Talks-bytes (be16 v) 2 refl) (Talks-give (one_half (be16 v))))
      refl refl (ap ok (from_be16-be16 v h))

pub Talks-u32 : (v : ℕ) → IsU32 v → Talks u32 (be32 v) [] (ok v)
unfolding u32 one_word
Talks-u32 v h =
    Talks-as u32 (Talks-bind _ _ (Talks-bytes (be32 v) 4 refl) (Talks-give (one_word (be32 v))))
      refl refl (ap ok (from_be32-be32 v h))

pub Talks-string :
    (cap : ℕ) (xs : List ℕ)
    → length xs ≤ cap
    → cap < 2 ^ 32
    → Talks (string cap) (be32 (length xs) ++ xs) [] (ok (from_latin1 xs))
unfolding string
Talks-string cap xs h k = Talks-bind _ _ (Talks-u32 (length xs) (omega arith)) (
    Talks-else _ _ (short cap (length xs) h) (
      Talks-as _
        (Talks-bind _ _ (Talks-bytes xs (length xs) refl) (Talks-give (ok (from_latin1 xs))))
        (append-nil xs) refl refl))
