-- ===== src/Encode/Runs.antt =====
-- encode.rs: runs and run lengths, and the RLE loops of zrle.rs that read them.
pub mod Plain
pub mod Indexed
use mathlib.Core.List.{append_assoc, append-nil}
use bolide.Base.{
  ℕ, zero, suc, ◌+◌, ◌-◌, ◌*◌, ◌/◌, ◌%◌, ◌^◌, ◌≤◌, ◌<◌, ltb, leb, lt→ltb, le→leb, lt→leb, ◌==◌,
  ==_iff, not, Bool, true, false, Bool-cases, List, [], ◌∷◌, ◌++◌, All, Result, ok, length,
  length-append, length-drop, dec_le, length-replicate, replicate, map, ◌≡◌, refl, sym, ap, ◌∙◌,
  inl, inr, arith, ◌>>=◌,
}
use bolide.Proto.Format.{PixelFormat, Rgba, rgba_bytes, to_rgba}
use bolide.Error.{Error}
use bolide.Zrle.Cursor.{Cursor, Decoder, pure, lift, take_u8}
use bolide.Zrle.Pixels.{read_cpixel, run_length_loop, read_run_length}
use bolide.Zrle.Tile.{repeat_colour, push_run, plain_rle}
use bolide.Encode.{write_cpixel, runs_from, runs_of, run_length_rest, write_run_length, write_runs}
use bolide.Encode.Stream.{
  Reading, Decodes, Decodes-bind, Decodes-if, Decodes-lift, Decodes-pure, Decodes-u8,
}
use bolide.Encode.Pixels.{Packs, Decodes-cpixel}

-- The pixels of the runs, one after the other.
abbrev pub spread : List (ℕ × ℕ) → List ℕ
spread [] = []
spread ((v, n) ∷ runs) = replicate n v ++ spread runs

-- Every run has a pixel.
abbrev pub Runs : List (ℕ × ℕ) → Type 0
Runs [] = Unit
Runs ((v, n) ∷ runs) = (1 ≤ n) × Runs runs

replicate_snoc : (n v : ℕ) (px : List ℕ) → replicate n v ++ v ∷ px ≡ replicate (n + 1) v ++ px
replicate_snoc zero v px = refl
replicate_snoc (suc n) v px =
    let e : suc n + 1 ≡ suc (n + 1) = omega arith in rw e (ap (◌∷◌ v) (replicate_snoc n v px))

runs_from-nil : (v n : ℕ) → runs_from v n [] ≡ (v, n) ∷ []
unfolding runs_from
runs_from-nil v n = refl

module _ (v n p : ℕ) (px : List ℕ) where
  runs_from_same : (v == p) ≡ true → runs_from v n (p ∷ px) ≡ runs_from v (n + 1) px
  unfolding runs_from
  runs_from_same e = rw (e, runs_from) refl

  runs_from_other : (v == p) ≡ false → runs_from v n (p ∷ px) ≡ (v, n) ∷ runs_from p 1 px
  unfolding runs_from
  runs_from_other e = rw (e, runs_from) refl

runs_from_lem :
    (v n : ℕ) (px : List ℕ)
    → 1 ≤ n
    → (spread (runs_from v n px) ≡ replicate n v ++ px) × Runs (runs_from v n px)
runs_from_lem v n [] h = rw (runs_from-nil v n) (refl, (h, tt))
runs_from_lem v n (p ∷ px) h = elim (Bool-cases (v == p)) [
  | inl e ↦
      let same : v ≡ p = (==_iff v p).0 e in
      let rest = runs_from_lem v (n + 1) px (omega arith) in
      rw (runs_from_same v n p px e)
        (rest.0 ∙ sym (replicate_snoc n v px) ∙ ap (λ q. replicate n v ++ q ∷ px) same, rest.1)
  | inr e ↦
      let rest = runs_from_lem p 1 px (omega arith) in
      rw (runs_from_other v n p px e) (ap (λ q. replicate n v ++ q) rest.0, (h, rest.1))
]

-- The runs of a tile are its pixels again.
pub spread-runs_of : (px : List ℕ) → (spread (runs_of px) ≡ px) × Runs (runs_of px)
unfolding runs_of
spread-runs_of [] = (refl, tt)
spread-runs_of (p ∷ px) = runs_from_lem p 1 px (omega arith)

-- The bytes are those of a run length `n` above what was read before.
abbrev Length : List ℕ → ℕ → Type 0
Length bytes n =
    (t : List ℕ) (more len : ℕ)
    → length bytes ≤ more
    → Decodes (run_length_loop more len) (bytes ++ t) (len + n) t

last_byte : (n : ℕ) → n < 255 → Length (n % 256 ∷ []) n
unfolding run_length_loop
last_byte n small t zero len h = absurd (omega arith)
last_byte n small t (suc more) len h =
    let low : n % 256 ≡ n = omega arith in
    let ends : (n == 255) ≡ false = ground arith in
    rw low (Decodes-bind take_u8 _ (Decodes-u8 n t) (rw ends (Decodes-pure (len + n) t)))

full_byte : (bytes : List ℕ) (n : ℕ) → 255 ≤ n → Length bytes (n - 255) → Length (255 ∷ bytes) n
unfolding run_length_loop
full_byte bytes n big reads t zero len h = absurd (omega arith)
full_byte bytes n big reads t (suc more) len h =
    let sum : len + n ≡ len + 255 + (n - 255) = omega arith in
    Decodes-bind take_u8 _ (Decodes-u8 255 (bytes ++ t))
      (rw sum (reads t more (len + 255) (omega arith)))

abbrev Written : Result Error (List ℕ) → ℕ → Type 0
Written r n = (bytes : List ℕ) × (r ≡ ok bytes) × Length bytes n

run_length_more :
    (fuel n : ℕ) {bytes : List ℕ}
    → 255 ≤ n
    → run_length_rest fuel (n - 255) ≡ ok bytes
    → run_length_rest (suc fuel) n ≡ ok (255 ∷ bytes)
unfolding run_length_rest
run_length_more fuel n big e = rw (le→leb 255 n big, run_length_rest) (rw e refl)

run_length_last : (fuel n : ℕ) → n < 255 → run_length_rest (suc fuel) n ≡ ok (n % 256 ∷ [])
unfolding run_length_rest
run_length_last fuel n small = rw (lt→leb 255 n small, run_length_rest) refl

rest-Written : (fuel n : ℕ) → n < 255 * fuel → Written (run_length_rest fuel n) n
rest-Written zero n h = absurd (omega arith)
rest-Written (suc fuel) n h = elim (dec_le 255 n) [
  | yes big ↦
      let (bytes, e, reads) = rest-Written fuel (n - 255) (omega arith) in
      (255 ∷ bytes, run_length_more fuel n big e, full_byte bytes n big reads)
  | no small ↦ (n % 256 ∷ [], run_length_last fuel n (omega arith), last_byte n (omega arith))
]

-- A run length is read back, whatever follows it.
pub run_length_read :
    (len : ℕ)
    → 1 ≤ len
    → (bytes : List ℕ) × (write_run_length len ≡ ok bytes)
      × ((t : List ℕ) → Decodes read_run_length (bytes ++ t) len t)
unfolding write_run_length read_run_length
run_length_read len h =
    let (bytes, e, reads) = rest-Written len (len - 1) (omega arith) in
    (
      bytes,
      e,
      λ t c r.
          let sum : len ≡ 1 + (len - 1) = omega arith in
          let left : length c.bytes - c.pos ≡ length bytes + length t =
            sym (length-drop c.pos c.bytes) ∙ ap length r.ahead ∙ length-append bytes t in
          rw sum (reads t (length c.bytes - c.pos + 1) 1 (omega (arith, left)) c r),
    )
