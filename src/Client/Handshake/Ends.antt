-- ===== src/Client/Handshake/Ends.antt =====
-- client.rs and ard.rs: calls that end with a value or an error, or panic where something holds.
use bolide.Base.{
  ℕ, ◌==◌, leb, Bool, Bool-cases, true, false, ◌&&◌, ◌||◌, not, Option, none, some, List, ◌++◌,
  length, if◌then◌else◌, Result, ok, err, panic, stuck, ◌>>=◌, Returns, ◌≡◌, inl, inr, refl,
}
use bolide.Error.{Error}
use bolide.Base.Text.{Text}
use bolide.Ard.{
  Crates, ArdError, power, dh_public, dh_shared, pack_credentials, client_response, credential_len,
  min_key_len, max_key_len,
}
use bolide.Ard.Credentials.{pack_credentials-Returns}
use bolide.Client.{Config, Conn, Io, resume, give, write}
use bolide.Client.Writes.{Silent}
use bolide.Client.Handshake.{Outside, ok_or, ard_error}

-- A value, an error, or a panic, and that only where `bad` holds.
abbrev pub Ends : {E A : Type 0} → Type 0 → (A → Type 0) → Result E A → Type 0
Ends bad P (ok a) = P a
Ends bad P (err e) = Unit
Ends bad P panic = bad
Ends bad P stuck = ⊥

abbrev pub Any : {A : Type 0} → A → Type 0
Any a = Unit

pub Returns-Ends :
    {E A : Type 0} (bad : Type 0) (P : A → Type 0) (r : Result E A) → Returns P r → Ends bad P r
Returns-Ends bad P (ok a) h = h
Returns-Ends bad P (err e) h = tt
Returns-Ends bad P panic h = absurd h
Returns-Ends bad P stuck h = absurd h

module _ (bad : Type 0) where
  module _ {A B : Type 0} (P : A → Type 0) (Q : B → Type 0) (f : A → Io B) where
    pub resume-Ends :
        (p : Conn × Result Error A)
        → Ends bad P p.1
        → ((a : A) (c : Conn) → P a → Ends bad Q (f a c).1)
        → Ends bad Q (resume f p).1
    unfolding resume
    resume-Ends (c, ok a) h k = k a c h
    resume-Ends (c, err e) h k = tt
    resume-Ends (c, panic) h k = h
    resume-Ends (c, stuck) h k = h

  -- A call that gives what it is given.
  pub given-Ends :
      {A B : Type 0} (P : A → Type 0) (Q : B → Type 0) (r : Result Error A) (f : A → Io B)
      (c : Conn)
      → Ends bad P r
      → ((a : A) (d : Conn) → P a → Ends bad Q (f a d).1)
      → Ends bad Q (resume f (give r c)).1
  unfolding give
  given-Ends P Q r f c h k = resume-Ends P Q f (c, r) h k

  pub written-Ends :
      {B : Type 0} (Q : B → Type 0) (b : List ℕ) (f : Unit {0} → Io B) (c : Conn)
      → ((d : Conn) → Ends bad Q (f tt d).1)
      → Ends bad Q (resume f (write b c)).1
  unfolding resume write
  written-Ends Q b f c k = k (record c { output = c.output ++ b })

  pub Silent-Ends :
      {A B : Type 0} (P : A → Type 0) (Q : B → Type 0) (f : A → Io B) (c : Conn)
      (p : Conn × Result Error A)
      → Silent c.output P p
      → ((a : A) (d : Conn) → P a → Ends bad Q (f a d).1)
      → Ends bad Q (resume f p).1
  Silent-Ends P Q f c p h k = resume-Ends P Q f p (Returns-Ends bad P p.1 h.1) k

  pub if-Ends :
      {A : Type 0} (P : A → Type 0) (t : Bool) (m n : Io A) (c : Conn)
      → (t ≡ true → Ends bad P (m c).1)
      → (t ≡ false → Ends bad P (n c).1)
      → Ends bad P ((if t then m else n) c).1
  if-Ends P true m n c h k = h refl
  if-Ends P false m n c h k = k refl

  pub if_value-Ends :
      {E A : Type 0} (P : A → Type 0) (t : Bool) (a b : Result E A)
      → Ends bad P a
      → Ends bad P b
      → Ends bad P (if t then a else b)
  if_value-Ends P true a b h k = h
  if_value-Ends P false a b h k = k

  pub bind-Ends :
      {E A B : Type 0} (P : A → Type 0) (Q : B → Type 0) (r : Result E A) (f : A → Result E B)
      → Ends bad P r
      → ((a : A) → P a → Ends bad Q (f a))
      → Ends bad Q (r >>= f)
  bind-Ends P Q (ok a) f h k = k a h
  bind-Ends P Q (err e) f h k = tt
  bind-Ends P Q panic f h k = h
  bind-Ends P Q stuck f h k = h

  module _ (crates : Crates) (b : bad) (prime : List ℕ) where
    pub power-Ends :
        (g x : ℕ) → Ends bad Any (power crates {E = ArdError} g x (crates.from_bytes_be prime))
    unfolding power
    power-Ends g x = elim (Bool-cases (crates.from_bytes_be prime == 0)) [
      | inl e ↦ rw e b
      | inr e ↦ rw e tt
    ]

    pub dh_public-Ends :
        (g : ℕ) (private : List ℕ) → Ends bad Any (dh_public crates {E = ArdError} g prime private)
    unfolding dh_public
    dh_public-Ends g private =
        bind-Ends Any Any
          (power crates {E = ArdError} g (crates.from_bytes_be private)
            (crates.from_bytes_be prime))
          _ (power-Ends g (crates.from_bytes_be private)) (λ _ _. tt)

    pub dh_shared-Ends :
        (peer private : List ℕ) → Ends bad Any (dh_shared crates {E = ArdError} peer prime private)
    unfolding dh_shared
    dh_shared-Ends peer private =
        bind-Ends Any Any
          (power crates {E = ArdError} (crates.from_bytes_be peer) (crates.from_bytes_be private)
            (crates.from_bytes_be prime))
          _ (power-Ends (crates.from_bytes_be peer) (crates.from_bytes_be private)) (λ _ _. tt)

    pub client_response-Ends :
        (generator : ℕ) (server_public username password private filler : List ℕ)
        → length filler ≡ credential_len
        → Ends bad Any
            (client_response crates generator prime server_public username password private filler)
    unfolding client_response
    client_response-Ends generator server_public username password private filler full =
        if_value-Ends Any
          (not (leb min_key_len (length prime) && leb (length prime) max_key_len)
            || not (length server_public == length prime))
          _ _ tt
          (bind-Ends Any Any (dh_shared crates {E = ArdError} server_public prime private) _
            (dh_shared-Ends server_public private)
            (λ shared _.
              bind-Ends Any Any (pack_credentials username password filler) _
                (Returns-Ends bad Any (pack_credentials username password filler)
                  (pack_credentials-Returns username password filler full))
                (λ block _.
                  bind-Ends Any Any (dh_public crates {E = ArdError} generator prime private) _
                    (dh_public-Ends generator private) (λ _ _. tt))))

  pub ard_error-Ends : (r : Result ArdError (List ℕ)) → Ends bad Any r → Ends bad Any (ard_error r)
  unfolding ard_error
  ard_error-Ends (ok payload) h = tt
  ard_error-Ends (err e) h = tt
  ard_error-Ends panic h = h
  ard_error-Ends stuck h = h

  pub ok_or-Ends :
      {A : Type 0} (P : A → Type 0) (o : Option A) (e : Error)
      → ((a : A) → o ≡ some a → P a)
      → Ends bad P (ok_or o e)
  unfolding ok_or
  ok_or-Ends P none e h = tt
  ok_or-Ends P (some a) e h = h a refl

-- The client has a name and a password to authenticate with.
abbrev pub Named : Config → Type 0
Named config =
    (username password : Text) × (config.username ≡ some username)
    × (config.password ≡ some password)

-- The generator fills the block that it is given.
abbrev pub Fills : Outside → Type 0
Fills outside =
    (filler : List ℕ) → outside.random_filler ≡ some filler → length filler ≡ credential_len
