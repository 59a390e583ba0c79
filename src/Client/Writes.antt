-- ===== src/Client/Writes.antt =====
-- client.rs, `choose_security`: what it writes on every branch.
use bolide.Base.{
  ℕ, ◌==◌, leb, leb→le, ltb, Bool, true, false, List, [], ◌∷◌, ◌++◌, length, length-take,
  if◌then◌else◌, Result, ok, err, panic, stuck, Returns, Returns-weaken, ◌≡◌, refl, ap, arith,
}
use bolide.Error.{Error, refused}
use bolide.Client.{
  Config, Conn, resume, give, bytes, one_byte, one_half, one_word, u8, u16, u32, string, reason,
  write, pick, choose_security, max_string,
}
use bolide.Client.Security.{pick-Allowed}

abbrev pub Anything : {A : Type 0} → A → Type 0
Anything a = Unit

-- Nothing was written, and nothing panicked.
abbrev pub Silent : {A : Type 0} → List ℕ → (A → Type 0) → Conn × Result Error A → Type 0
Silent out P p = (p.0.output ≡ out) × Returns P p.1

-- One byte was written, the choice; or nothing, where there is an error.
abbrev pub Wrote : List ℕ → Conn × Result Error ℕ → Type 0
Wrote out (c, ok t) = c.output ≡ out ++ (t ∷ [])
Wrote out (c, err e) = c.output ≡ out
Wrote out (c, panic) = ⊥
Wrote out (c, stuck) = ⊥

module _ {A B : Type 0} (out : List ℕ) (P : A → Type 0) (Q : B → Type 0) where
  resume-Silent :
      (f : A → Conn → Conn × Result Error B) (p : Conn × Result Error A)
      → Silent out P p
      → ((a : A) (c : Conn) → c.output ≡ out → P a → Silent out Q (f a c))
      → Silent out Q (resume f p)
  unfolding resume
  resume-Silent f (c, ok a) h k = k a c h.0 h.1
  resume-Silent f (c, err e) h k = (h.0, tt)
  resume-Silent f (c, panic) h k = absurd h.1
  resume-Silent f (c, stuck) h k = absurd h.1

resume-Wrote :
    {A : Type 0} (out : List ℕ) (P : A → Type 0) (f : A → Conn → Conn × Result Error ℕ)
    (p : Conn × Result Error A)
    → Silent out P p
    → ((a : A) (c : Conn) → c.output ≡ out → P a → Wrote out (f a c))
    → Wrote out (resume f p)
unfolding resume
resume-Wrote out P f (c, ok a) h k = k a c h.0 h.1
resume-Wrote out P f (c, err e) h k = h.0
resume-Wrote out P f (c, panic) h k = absurd h.1
resume-Wrote out P f (c, stuck) h k = absurd h.1

if-Silent :
    {A : Type 0} (out : List ℕ) (P : A → Type 0) (t : Bool) (p q : Conn × Result Error A)
    → (t ≡ true → Silent out P p)
    → (t ≡ false → Silent out P q)
    → Silent out P (if t then p else q)
if-Silent out P true p q h k = h refl
if-Silent out P false p q h k = k refl

pub bytes-Silent :
    (n : ℕ) (c : Conn) (out : List ℕ) → c.output ≡ out → Silent out (λ b. length b ≡ n) (bytes n c)
unfolding bytes
bytes-Silent n c out same =
    if-Silent out (λ b. length b ≡ n) (leb n (length c.input)) _ _
      (λ e. (same, omega (arith, length-take n c.input, leb→le n (length c.input) e)))
      (λ _. (same, tt))

one_byte-Returns : (b : List ℕ) → length b ≡ 1 → Returns Anything (one_byte b)
unfolding one_byte
one_byte-Returns [] h = absurd (omega arith)
one_byte-Returns (x ∷ []) h = tt
one_byte-Returns (x ∷ y ∷ rest) h = absurd (omega arith)

one_half-Returns : (b : List ℕ) → length b ≡ 2 → Returns Anything (one_half b)
unfolding one_half
one_half-Returns [] h = absurd (omega arith)
one_half-Returns (x ∷ []) h = absurd (omega arith)
one_half-Returns (x ∷ y ∷ []) h = tt
one_half-Returns (x ∷ y ∷ z ∷ rest) h = absurd (omega arith)

one_word-Returns : (b : List ℕ) → length b ≡ 4 → Returns Anything (one_word b)
unfolding one_word
one_word-Returns [] h = absurd (omega arith)
one_word-Returns (x ∷ []) h = absurd (omega arith)
one_word-Returns (x ∷ y ∷ []) h = absurd (omega arith)
one_word-Returns (x ∷ y ∷ z ∷ []) h = absurd (omega arith)
one_word-Returns (x ∷ y ∷ z ∷ w ∷ []) h = tt
one_word-Returns (x ∷ y ∷ z ∷ w ∷ v ∷ rest) h = absurd (omega arith)

pub u8-Silent : (c : Conn) (out : List ℕ) → c.output ≡ out → Silent out Anything (u8 c)
unfolding u8 give
u8-Silent c out same =
    resume-Silent out (λ b. length b ≡ 1) Anything _ (bytes 1 c) (bytes-Silent 1 c out same)
      (λ b c' e h. (e, one_byte-Returns b h))

pub u16-Silent : (c : Conn) (out : List ℕ) → c.output ≡ out → Silent out Anything (u16 c)
unfolding u16 give
u16-Silent c out same =
    resume-Silent out (λ b. length b ≡ 2) Anything _ (bytes 2 c) (bytes-Silent 2 c out same)
      (λ b c' e h. (e, one_half-Returns b h))

pub u32-Silent : (c : Conn) (out : List ℕ) → c.output ≡ out → Silent out Anything (u32 c)
unfolding u32 give
u32-Silent c out same =
    resume-Silent out (λ b. length b ≡ 4) Anything _ (bytes 4 c) (bytes-Silent 4 c out same)
      (λ b c' e h. (e, one_word-Returns b h))

-- A test between two calls.
if_call-Silent :
    {A : Type 0} (out : List ℕ) (P : A → Type 0) (t : Bool) (m n : Conn → Conn × Result Error A)
    (c : Conn)
    → Silent out P (m c)
    → Silent out P (n c)
    → Silent out P ((if t then m else n) c)
if_call-Silent out P true m n c h k = h
if_call-Silent out P false m n c h k = k

if_call-Wrote :
    (out : List ℕ) (t : Bool) (m n : Conn → Conn × Result Error ℕ) (c : Conn)
    → Wrote out (m c)
    → Wrote out (n c)
    → Wrote out ((if t then m else n) c)
if_call-Wrote out true m n c h k = h
if_call-Wrote out false m n c h k = k

pub string-Silent :
    (cap : ℕ) (c : Conn) (out : List ℕ) → c.output ≡ out → Silent out Anything (string cap c)
unfolding string give
string-Silent cap c out same =
    resume-Silent out Anything Anything _ (u32 c) (u32-Silent c out same) (λ len c' e _.
      if_call-Silent out Anything (ltb cap len) _ _ c' (e, tt)
        (resume-Silent out (λ b. length b ≡ len) Anything _ (bytes len c')
          (bytes-Silent len c' out e) (λ b c'' e' _. (e', tt))))

pub reason-Silent : (c : Conn) (out : List ℕ) → c.output ≡ out → Silent out Anything (reason c)
unfolding reason
reason-Silent c out same = string-Silent max_string c out same

choice-Silent :
    (config : Config) (offered : List ℕ) (c : Conn) (out : List ℕ)
    → c.output ≡ out
    → Silent out Anything (give (pick config.auth config offered) c)
unfolding give
choice-Silent config offered c out same =
    (same, Returns-weaken _ Anything _ (pick-Allowed config.auth config offered) (λ _ _. tt))

write-Wrote :
    (chosen : ℕ) (c : Conn) (out : List ℕ)
    → c.output ≡ out
    → Wrote out (resume (λ _. give (ok chosen)) (write (chosen ∷ []) c))
unfolding resume give write
write-Wrote chosen c out same = ap (λ o. o ++ (chosen ∷ [])) same

fail-Wrote :
    (x : Error) (c : Conn) (out : List ℕ) → c.output ≡ out → Wrote out (give {A = ℕ} (err x) c)
unfolding give
fail-Wrote x c out same = same

-- On whatever the server sends, `choose_security` either gives a type and has written that one byte,
-- or fails and has written nothing. It never panics.
pub choose_security-Wrote : (config : Config) (c : Conn) → Wrote c.output (choose_security config c)
unfolding choose_security
choose_security-Wrote config c =
    resume-Wrote c.output Anything _ (u8 c) (u8-Silent c c.output refl) (λ count c₁ e _.
      if_call-Wrote c.output (count == 0) _ _ c₁
        (resume-Wrote c.output Anything _ (reason c₁) (reason-Silent c₁ c.output e)
          (λ why c₂ e' _. fail-Wrote (refused why) c₂ c.output e'))
        (resume-Wrote c.output (λ b. length b ≡ count) _ (bytes count c₁)
          (bytes-Silent count c₁ c.output e)
          (λ offered c₂ e' _.
            resume-Wrote c.output Anything _ (give (pick config.auth config offered) c₂)
              (choice-Silent config offered c₂ c.output e')
              (λ chosen c₃ e'' _. write-Wrote chosen c₃ c.output e''))))
