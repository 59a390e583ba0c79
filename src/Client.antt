-- ===== src/Client.antt =====
-- crates/bolide-rfb/src/client.rs: the read head and the choice of a security type; `Config` of lib.rs.
-- The socket is what the server will send and what was written to it; a read past its end is an I/O
-- error, and so is a read that the deadline cuts off.
pub mod Security
pub mod Writes
pub mod Talks
pub mod Handshake
pub mod ReadLoop
use bolide.Base.{
  ℕ, zero, suc, contains, ◌-◌, ◌*◌, min, ◌==◌, leb, ltb, Bool, true, false, ◌&&◌, ◌||◌, Option,
  some, none, List, [], ◌∷◌, ◌++◌, length, take, drop, if◌then◌else◌, Result, ok, err, panic, stuck,
}
use bolide.Base.Text.{Text}
use bolide.Base.Bytes.{from_be16, from_be32}
use bolide.Error.{Error, io, no_supported_security, refused, protocol, string_too_long}
use bolide.Proto.{security_none, security_vnc_auth, security_ard}
use bolide.Proto.Messages.{from_latin1}

pub data AuthMode : Type 0 where
  auto ard vnc : AuthMode

pub record Config : Type 0 where
  pub username : Option Text
  pub password : Option Text
  pub shared : Bool
  pub continuous : Bool
  pub auth : AuthMode

pub record Conn : Type 0 where
  pub input : List ℕ
  pub output : List ℕ

-- A call on a connection: what it leaves, and its value or error.
abbrev pub Talk : Type 0 → Type 0 → Type 0
Talk E A = Conn → Conn × Result E A

abbrev pub Io : Type 0 → Type 0
Io A = Talk Error A

unfoldable pub resume : {E A B : Type 0} → (A → Talk E B) → Conn × Result E A → Conn × Result E B
resume f (c, ok a) = f a c
resume f (c, err e) = (c, err e)
resume f (c, panic) = (c, panic)
resume f (c, stuck) = (c, stuck)

infixl 5 ◌>>=◌
abbrev pub ◌>>=◌ : {E A B : Type 0} → Talk E A → (A → Talk E B) → Talk E B
◌>>=◌ m f c = resume f (m c)

unfoldable pub give : {E A : Type 0} → Result E A → Talk E A
give r c = (c, r)

-- `fill` of a buffer of `n` bytes.
unfoldable pub bytes : ℕ → Io (List ℕ)
bytes n c =
    if leb n (length c.input)
    then (record c { input = drop n c.input }, ok (take n c.input))
    else (record c { input = [] }, err io)

-- `b[0]` of a buffer of one byte, and the words of buffers of two and four.
unfoldable pub one_byte : List ℕ → Result Error ℕ
one_byte (b ∷ []) = ok b
one_byte other = panic

unfoldable pub one_half : List ℕ → Result Error ℕ
one_half (a ∷ b ∷ []) = ok (from_be16 a b)
one_half other = panic

unfoldable pub one_word : List ℕ → Result Error ℕ
one_word (a ∷ b ∷ c ∷ d ∷ []) = ok (from_be32 a b c d)
one_word other = panic

unfoldable pub u8 : Io ℕ
u8 = bytes 1 >>= λ b. give (one_byte b)

unfoldable pub u16 : Io ℕ
u16 = bytes 2 >>= λ b. give (one_half b)

unfoldable pub u32 : Io ℕ
u32 = bytes 4 >>= λ b. give (one_word b)

-- `skip`, in pieces of the sink's length; a round takes a byte off at least.
unfoldable pub skip_loop : (rounds n : ℕ) → Io (Unit {0})
skip_loop zero n = if n == 0 then give (ok tt) else give stuck
skip_loop (suc rounds) n =
    if n == 0
    then give (ok tt)
    else (bytes (min n 1024) >>= λ sink. skip_loop rounds (n - min n 1024))

unfoldable pub skip : ℕ → Io (Unit {0})
unfolding skip_loop
skip n = skip_loop n n

unfoldable pub string : ℕ → Io Text
string cap = u32 >>= λ len.
    if ltb cap len
    then give (err (protocol (string_too_long len cap)))
    else (bytes len >>= λ b. give (ok (from_latin1 b)))

abbrev pub max_string : ℕ
max_string = 64 * 1024

unfoldable pub reason : Io Text
reason = string max_string

unfoldable pub write : {E : Type 0} → List ℕ → Talk E (Unit {0})
write b c = (record c { output = c.output ++ b }, ok tt)

unfoldable pub is_some : Option Text → Bool
is_some none = false
is_some (some t) = true

unfoldable pub pick_auto : Config → List ℕ → Result Error ℕ
pick_auto config offered =
    if (is_some config.username && is_some config.password) && contains offered security_ard
    then ok security_ard
    else if is_some config.password && contains offered security_vnc_auth
    then ok security_vnc_auth
    else if contains offered security_none
    then ok security_none
    else if contains offered security_vnc_auth
    then ok security_vnc_auth
    else err (no_supported_security offered)

-- The `match` on `config.auth`.
unfoldable pub pick : AuthMode → Config → List ℕ → Result Error ℕ
pick ard config offered =
    if contains offered security_ard then ok security_ard else err (no_supported_security offered)
pick vnc config offered =
    if contains offered security_vnc_auth
    then ok security_vnc_auth
    else err (no_supported_security offered)
pick auto config offered = pick_auto config offered

unfoldable pub choose_security : Config → Io ℕ
choose_security config = u8 >>= λ count.
    if count == 0
    then (reason >>= λ why. give (err (refused why)))
    else (bytes count >>= λ offered. give (pick config.auth config offered) >>= λ chosen.
        write (chosen ∷ []) >>= λ _. give (ok chosen))
