-- ===== src/Zrle/Cursor.antt =====
-- zrle.rs: `Cursor`, the bounds-checked read head over the inflated tile bytes. A decoder takes the
-- cursor and gives it back moved, with its value, or an error.
use bolide.Base.{
  ℕ, ◌+◌, ◌-◌, ◌^◌, List, Result, ok, err, panic, stuck, leb, ltb, length, take, drop,
  if◌then◌else◌,
}
use bolide.Base.Bytes.{first}
use bolide.Error.{Error, protocol, absurd_read, ended_early}

pub record Cursor : Type 0 where
  pub bytes : List ℕ
  pub pos : ℕ

abbrev pub Decoder : Type 0 → Type 0
Decoder A = Cursor → Result Error (A × Cursor)

abbrev pub pure : {A : Type 0} → A → Decoder A
pure a c = ok (a, c)

abbrev pub fail : {A : Type 0} → Error → Decoder A
fail e c = err e

-- No call of the source: the fuel has run out.
abbrev pub hang : {A : Type 0} → Decoder A
hang c = stuck

-- A call that gives a value or panics, and does not read.
abbrev pub lift : {A : Type 0} → Result Error A → Decoder A
lift (ok a) c = ok (a, c)
lift (err e) c = err e
lift panic c = panic
lift stuck c = stuck

infixl 5 ◌>>=◌ ◌>>◌
abbrev pub ◌>>=◌ : {A B : Type 0} → Decoder A → (A → Decoder B) → Decoder B
◌>>=◌ m f c = elim (m c) [ ok (a, c') ↦ f a c' | err e ↦ err e | panic ↦ panic | stuck ↦ stuck ]

abbrev pub ◌>>◌ : {B : Type 0} → Decoder (Unit {0}) → Decoder B → Decoder B
m >> k = m >>= λ _. k

-- `Cursor::take`; the sum is a `usize`.
unfoldable pub take_bytes : ℕ → Decoder (List ℕ)
take_bytes n c =
    let end = c.pos + n in
    if leb (2 ^ 64) end
    then err (protocol absurd_read)
    else if ltb (length c.bytes) end
    then err (protocol (ended_early (end - length c.bytes)))
    else ok (take n (drop c.pos c.bytes), record c { pos = end })

-- `Cursor::u8`
unfoldable pub take_u8 : Decoder ℕ
unfolding take_bytes first
take_u8 = do raw ← take_bytes 1; lift (first raw)
