-- ===== src/Proto/Format/Pixels.antt =====
-- `read_pixel` reads back what `write_pixel` writes, in either byte order.
use mathlib.Core.List.{reverse, foldl}
use bolide.Base.{
  ℕ, zero, suc, ◌+◌, ◌*◌, ◌%◌, ◌^◌, ◌≤◌, ◌<◌, min, ◌≡◌, refl, ap, ◌∙◌, arith, length, List, take,
  true, false, Bool-cases, inl, inr,
}
use bolide.Base.Bits.{bit_or-disjoint}
use bolide.Proto.Format.{
  PixelFormat, bytes_per_pixel, shift_in, read_pixel, bytes_down, bytes_up, write_pixel,
}

pub shift_in_lem : (v b : ℕ) → v < 2 ^ 24 → b < 256 → shift_in v b ≡ v * 256 + b
unfolding shift_in
shift_in_lem v b hv hb =
    let e : v * 256 % 2 ^ 32 ≡ v * 256 = omega arith in rw e (bit_or-disjoint 8 v b hb)

value_1 : (a : ℕ) → a < 256 → shift_in 0 a ≡ a
value_1 a ha = shift_in_lem 0 a (omega arith) ha ∙ omega arith

value_2 : (a b : ℕ) → a < 256 → b < 256 → shift_in (shift_in 0 a) b ≡ a * 256 + b
value_2 a b ha hb = rw (value_1 a ha) (shift_in_lem a b (omega arith) hb)

value_3 :
    (a b c : ℕ)
    → a < 256
    → b < 256
    → c < 256
    → shift_in (shift_in (shift_in 0 a) b) c ≡ (a * 256 + b) * 256 + c
value_3 a b c ha hb hc = rw (value_2 a b ha hb) (shift_in_lem (a * 256 + b) c (omega arith) hc)

value_4 :
    (a b c d : ℕ)
    → a < 256
    → b < 256
    → c < 256
    → d < 256
    → shift_in (shift_in (shift_in (shift_in 0 a) b) c) d ≡ ((a * 256 + b) * 256 + c) * 256 + d
value_4 a b c d ha hb hc hd =
    rw (value_3 a b c ha hb hc) (shift_in_lem ((a * 256 + b) * 256 + c) d (omega arith) hd)

-- A pixel of `n` bytes, highest byte first and lowest byte first.
big_endian_value :
    (n p : ℕ) → n ≤ 4 → p < 2 ^ (8 * n) → foldl shift_in 0 (take n (bytes_down n p)) ≡ p
unfolding bytes_down
big_endian_value zero p hn hp = omega arith
big_endian_value (suc zero) p hn hp = value_1 _ (omega arith) ∙ omega arith
big_endian_value (suc (suc zero)) p hn hp = value_2 _ _ (omega arith) (omega arith) ∙ omega arith
big_endian_value (suc (suc (suc zero))) p hn hp =
    value_3 _ _ _ (omega arith) (omega arith) (omega arith) ∙ omega arith
big_endian_value (suc (suc (suc (suc zero)))) p hn hp =
    value_4 _ _ _ _ (omega arith) (omega arith) (omega arith) (omega arith) ∙ omega arith
big_endian_value (suc (suc (suc (suc (suc n))))) p hn hp = absurd (omega arith)

little_endian_value :
    (n p : ℕ) → n ≤ 4 → p < 2 ^ (8 * n) → foldl shift_in 0 (reverse (take n (bytes_up n 0 p))) ≡ p
unfolding bytes_up
little_endian_value zero p hn hp = omega arith
little_endian_value (suc zero) p hn hp = value_1 _ (omega arith) ∙ omega arith
little_endian_value (suc (suc zero)) p hn hp = value_2 _ _ (omega arith) (omega arith) ∙ omega arith
little_endian_value (suc (suc (suc zero))) p hn hp =
    value_3 _ _ _ (omega arith) (omega arith) (omega arith) ∙ omega arith
little_endian_value (suc (suc (suc (suc zero)))) p hn hp =
    value_4 _ _ _ _ (omega arith) (omega arith) (omega arith) (omega arith) ∙ omega arith
little_endian_value (suc (suc (suc (suc (suc n))))) p hn hp = absurd (omega arith)

pub length-bytes_down : (n p : ℕ) → length (bytes_down n p) ≡ n
unfolding bytes_down
length-bytes_down zero p = refl
length-bytes_down (suc n) p = ap suc (length-bytes_down n p)

pub length-bytes_up : (n i p : ℕ) → length (bytes_up n i p) ≡ n
unfolding bytes_up
length-bytes_up zero i p = refl
length-bytes_up (suc n) i p = ap suc (length-bytes_up n (i + 1) p)

pub length-write_pixel :
    (f : PixelFormat) (p : ℕ) → length (write_pixel f p) ≡ min (bytes_per_pixel f) 4
unfolding write_pixel
length-write_pixel f p = ground (
  arith,
  length-bytes_down (min (bytes_per_pixel f) 4) p,
  length-bytes_up (min (bytes_per_pixel f) 4) 0 p,
)

module _ (f : PixelFormat) where
  read_pixel_be :
      (w : List ℕ)
      → f.big_endian ≡ true
      → bytes_per_pixel f ≤ 4
      → length w ≡ bytes_per_pixel f
      → read_pixel f w ≡ foldl shift_in 0 (take (bytes_per_pixel f) w)
  unfolding read_pixel
  read_pixel_be w b hn hw =
      let e : min (min (bytes_per_pixel f) 4) (length w) ≡ bytes_per_pixel f = omega arith in
      rw (e, b)

  read_pixel_le :
      (w : List ℕ)
      → f.big_endian ≡ false
      → bytes_per_pixel f ≤ 4
      → length w ≡ bytes_per_pixel f
      → read_pixel f w ≡ foldl shift_in 0 (reverse (take (bytes_per_pixel f) w))
  unfolding read_pixel
  read_pixel_le w b hn hw =
      let e : min (min (bytes_per_pixel f) 4) (length w) ≡ bytes_per_pixel f = omega arith in
      rw (e, b)

  write_pixel_be :
      (p : ℕ)
      → f.big_endian ≡ true
      → bytes_per_pixel f ≤ 4
      → write_pixel f p ≡ bytes_down (bytes_per_pixel f) p
  unfolding write_pixel
  write_pixel_be p b hn =
      let e : min (bytes_per_pixel f) 4 ≡ bytes_per_pixel f = omega arith in rw (e, b)

  write_pixel_le :
      (p : ℕ)
      → f.big_endian ≡ false
      → bytes_per_pixel f ≤ 4
      → write_pixel f p ≡ bytes_up (bytes_per_pixel f) 0 p
  unfolding write_pixel
  write_pixel_le p b hn =
      let e : min (bytes_per_pixel f) 4 ≡ bytes_per_pixel f = omega arith in rw (e, b)

  -- A pixel value of at most four bytes is read back from the bytes that `write_pixel` pushed, in
  -- either byte order and at every width.
  pub read_pixel-write_pixel :
      (p : ℕ)
      → bytes_per_pixel f ≤ 4
      → p < 2 ^ (8 * bytes_per_pixel f)
      → read_pixel f (write_pixel f p) ≡ p
  read_pixel-write_pixel p hn hp = elim (Bool-cases f.big_endian) [
    | inl b ↦
        rw (write_pixel_be p b hn)
          (read_pixel_be _ b hn (length-bytes_down _ p) ∙ big_endian_value _ p hn hp)
    | inr b ↦
        rw (write_pixel_le p b hn)
          (read_pixel_le _ b hn (length-bytes_up _ 0 p) ∙ little_endian_value _ p hn hp)
  ]
