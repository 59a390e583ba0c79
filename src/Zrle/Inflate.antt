-- ===== src/Zrle/Inflate.antt =====
-- zrle.rs: ZrleDecoder, with `decode_rect` and `inflate_slice`. The inflater is flate2's and a parameter.
pub mod Ended
use bolide.Base.{
  ℕ, zero, suc, ◌+◌, ◌*◌, ◌==◌, leb, ltb, Bool, true, false, ◌&&◌, ◌||◌, Option, none, some, List,
  [], ◌∷◌, ◌++◌, length, drop, Result, ok, err, panic, stuck, ◌>>=◌, if◌then◌else◌,
}
use bolide.Error.{Error, protocol, corrupt_zlib}
use bolide.Proto.Format.{PixelFormat}
use bolide.Zrle.Tiles.{decode_tiles}

-- What a call of `decompress` did: how far `total_in` went on, and what it put into the buffer.
pub record Moved (Z : Type 0) : Type 0 where
  pub state : Z
  pub read : ℕ
  pub produced : List ℕ
  pub stream_end : Bool

-- The state of an inflater, and `decompress` with the input and the room of the buffer; `none` is a
-- corrupt stream. `owed` is no part of the code: it is a number of bytes that a state can give at most
-- without more input, and counts the rounds of the loop.
pub record Inflater : Type 1 where
  pub State : Type 0
  pub fresh : State
  pub decompress : State → List ℕ → ℕ → Option (Moved State)
  pub owed : State → ℕ

abbrev pub buffer_len : ℕ
buffer_len = 64 * 1024

-- `&payload[consumed..]`.
unfoldable pub from_index : List ℕ → ℕ → Result Error (List ℕ)
from_index payload consumed =
    if leb consumed (length payload) then ok (drop consumed payload) else panic

-- `out.extend_from_slice(&buf[..produced])`.
unfoldable pub extended : List ℕ → List ℕ → Result Error (List ℕ)
extended out produced = if leb (length produced) buffer_len then ok (out ++ produced) else panic

module _ (inflater : Inflater) where
  open inflater use {State, decompress, owed}

  unfoldable pub inflate_loop :
      List ℕ → (fuel consumed : ℕ) → List ℕ → State → Result Error (State × List ℕ)
  unfolding from_index extended
  inflate_loop payload zero consumed out z = stuck
  inflate_loop payload (suc fuel) consumed out z = do
    rest ← from_index payload consumed
    elim (decompress z rest buffer_len) [
      | none ↦ err (protocol corrupt_zlib)
      | some m ↦ (do
        out' ← extended out m.produced
        elim (m.stream_end || (m.read == 0 && length m.produced == 0)) [
          | true ↦ ok (m.state, out')
          | false ↦ inflate_loop payload fuel (consumed + m.read) out' m.state
        ])
    ]

  -- The fuel is enough where an inflater gives at most 1032 bytes for each that it reads.
  unfoldable pub inflate_slice : List ℕ → State → Result Error (State × List ℕ)
  unfolding inflate_loop
  inflate_slice payload z = inflate_loop payload (owed z + 1033 * length payload + 1) 0 [] z

  unfoldable pub decode_rect : List ℕ → PixelFormat → ℕ → ℕ → State → Result Error (State × List ℕ)
  unfolding inflate_slice
  decode_rect payload f w h z = do
    (z', plain) ← inflate_slice payload z
    rgba ← decode_tiles plain f w h
    ok (z', rgba)
