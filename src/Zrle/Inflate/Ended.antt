-- ===== src/Zrle/Inflate/Ended.antt =====
-- zrle.rs: the loop of `inflate_slice` ends, and `decode_rect` with it.
use bolide.Base.{
  ℕ, zero, suc, ◌+◌, ◌-◌, ◌*◌, ◌≤◌, ◌<◌, ◌==◌, ◌&&◌, ◌||◌, true, false, some, none, List, [], ◌++◌,
  length, length-append, length-drop, drop, ok, err, Returns, Returns-bind, Returns-weaken, ◌≡◌,
  refl, arith, le→leb, ◌>>=◌, Option, Bool-cases, inl, inr,
}
use bolide.Proto.Format.{PixelFormat}
use bolide.Error.{protocol, corrupt_zlib}
use bolide.Zrle.Tiles.{decode_tiles}
use bolide.Zrle.Tiles.Total.{decode_tiles_total}
use bolide.Zrle.Inflate.{
  Moved, Inflater, buffer_len, from_index, extended, inflate_loop, inflate_slice, decode_rect,
}

-- What flate2 documents: a call reads no more than it is given and writes no more than there is room,
-- and deflate gives at most 1032 bytes for each that it reads.
pub record Steady (inflater : Inflater) : Type 0 where
  pub moves :
      (z : inflater.State) (input : List ℕ) (room : ℕ) (m : Moved inflater.State)
      → inflater.decompress z input room ≡ some m
      → (m.read ≤ length input)
        × (length m.produced ≤ room)
        × (inflater.owed m.state + length m.produced ≤ inflater.owed z + 1032 * m.read)

module _ (inflater : Inflater) (steady : Steady inflater) where
  open inflater use {State, decompress, owed}

  -- What is given, and what is owed behind it.
  abbrev Kept : List ℕ → ℕ → List ℕ → State → State × List ℕ → Type 0
  Kept payload consumed out z r =
      owed r.0 + length r.1 ≤ length out + owed z + 1032 * (length payload - consumed)

  moves :
      (r : Moved State)
      → (r.stream_end || (r.read == 0 && length r.produced == 0)) ≡ false
      → 0 < r.read + length r.produced
  moves r e = ground arith

  -- With more rounds than bytes are left to read and to give, the loop returns.
  inflate_loop-Returns :
      (payload : List ℕ) (fuel consumed : ℕ) (out : List ℕ) (z : State)
      → consumed ≤ length payload
      → owed z + 1033 * (length payload - consumed) < fuel
      → Returns (Kept payload consumed out z) (inflate_loop inflater payload fuel consumed out z)
  unfolding inflate_loop from_index extended
  inflate_loop-Returns payload zero consumed out z k m = absurd (omega arith)
  inflate_loop-Returns payload (suc fuel) consumed out z k m =
      rw (le→leb consumed (length payload) k) (
        called (λ c o y. inflate_loop-Returns payload fuel c o y)
          (decompress z (drop consumed payload) buffer_len) refl)
    where
      called :
          ((c : ℕ) (o : List ℕ) (y : State)
            → c ≤ length payload
            → owed y + 1033 * (length payload - c) < fuel
            → Returns (Kept payload c o y) (inflate_loop inflater payload fuel c o y))
          → (o : Option (Moved State)) → decompress z (drop consumed payload) buffer_len ≡ o
          → Returns (Kept payload consumed out z) (elim o [
            | none ↦ err (protocol corrupt_zlib)
            | some r ↦ (do
              out' ← extended out r.produced
              elim (r.stream_end || (r.read == 0 && length r.produced == 0)) [
                | true ↦ ok (r.state, out')
                | false ↦ inflate_loop inflater payload fuel (consumed + r.read) out' r.state
              ])
          ])
      called again none e = tt
      called again (some r) e =
          let (within, room, less) = steady.moves z (drop consumed payload) buffer_len r e in
          let left = length-drop consumed payload in
          let longer = length-append out r.produced in
          rw (le→leb (length r.produced) buffer_len room)
            (elim (Bool-cases (r.stream_end || (r.read == 0 && length r.produced == 0))) [
              | inl stops ↦ rw stops (omega (arith, less, longer, within, left))
              | inr goes ↦ rw goes (
                  Returns-weaken (Kept payload (consumed + r.read) (out ++ r.produced) r.state)
                    (Kept payload consumed out z) _
                    (again (consumed + r.read) (out ++ r.produced) r.state
                      (omega (arith, within, left))
                      (omega (arith, less, within, left, moves r goes, m)))
                    (λ q bound. omega (arith, bound, less, within, left, longer)))
            ])

  pub inflate_slice-Returns :
      (payload : List ℕ) (z : State)
      → Returns
          (λ r. owed r.0 + length r.1 ≤ owed z + 1032 * length payload)
          (inflate_slice inflater payload z)
  unfolding inflate_slice
  inflate_slice-Returns payload z =
      Returns-weaken (Kept payload 0 [] z) _ _
        (inflate_loop-Returns payload (owed z + 1033 * length payload + 1) 0 [] z (omega arith)
          (omega arith))
        (λ r bound. omega (arith, bound))

-- On any payload, at any point of the stream, the loop of `inflate_slice` ends: `decode_rect` returns
-- the pixels of the whole rect, or an error. The inflater keeps to what flate2 documents.
pub decode_rect-Returns :
    (inflater : Inflater)
    → Steady inflater
    → (payload : List ℕ) (f : PixelFormat) (w h : ℕ) (z : inflater.State)
    → Returns (λ r. length r.1 ≡ w * h * 4) (decode_rect inflater payload f w h z)
unfolding decode_rect
decode_rect-Returns inflater steady payload f w h z =
    Returns-bind
      (λ (r : inflater.State × List ℕ).
        inflater.owed r.0 + length r.1 ≤ inflater.owed z + 1032 * length payload)
      (λ (r : inflater.State × List ℕ). length r.1 ≡ w * h * 4) (inflate_slice inflater payload z) _
      (inflate_slice-Returns inflater steady payload z)
      (λ r _.
        Returns-bind (λ (out : List ℕ). length out ≡ w * h * 4)
          (λ (q : inflater.State × List ℕ). length q.1 ≡ w * h * 4) (decode_tiles r.1 f w h) _
          (decode_tiles_total r.1 f w h) (λ rgba size. size))
