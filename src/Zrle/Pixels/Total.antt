-- ===== src/Zrle/Pixels/Total.antt =====
-- CPIXELs, palettes and run lengths are read, or refused, from any bytes.
use bolide.Base.{
  ℕ, zero, suc, ◌+◌, ◌-◌, ◌≤◌, ◌<◌, ◌≡◌, ◌≢◌, ◌==◌, not, refl, ap, arith, replicate,
  length-replicate, ok, ==-ne, List, All, length,
}
use bolide.Base.Bytes.{IsByte}
use bolide.Base.Bytes.Slices.{copy_at_ok, overwritten}
use bolide.Error.{Error}
use bolide.Proto.Format.{
  PixelFormat, Rgba, bytes_per_pixel, cpixel_bytes, cpixel_offset, to_rgba, read_pixel,
}
use bolide.Proto.Format.Colours.{scale-IsByte}
use bolide.Zrle.Cursor.{Cursor, pure, lift, take_bytes, take_u8}
use bolide.Zrle.Outcome.{
  Gives, Gives-bind, Gives-weaken, Gives-if, Gives-elim, After, After-trans, Took, Took-After,
  TookOne, TookOne-After, take_bytes-Took, take_u8-TookOne,
}
use bolide.Zrle.Pixels.{widen, read_cpixel, read_palette, run_length_loop, read_run_length}

-- An opaque colour of three bytes.
pub record IsColour (c : Rgba) : Type 0 where
  pub r_byte : IsByte c.r
  pub g_byte : IsByte c.g
  pub b_byte : IsByte c.b
  pub opaque : c.a ≡ 255

pub to_rgba-IsColour : (f : PixelFormat) (p : ℕ) → IsColour (to_rgba f p)
unfolding to_rgba
to_rgba-IsColour f p = record {
  r_byte = scale-IsByte _ f.red_max;
  g_byte = scale-IsByte _ f.green_max;
  b_byte = scale-IsByte _ f.blue_max;
  opaque = refl;
}

-- A CPIXEL shorter than its pixel is three bytes of four, and fits at its offset.
pub cpixel_fits :
    (f : PixelFormat)
    → cpixel_bytes f ≢ bytes_per_pixel f
    → (cpixel_bytes f ≡ 3) × (bytes_per_pixel f ≡ 4) × (cpixel_offset f ≤ 1)
unfolding cpixel_bytes bytes_per_pixel cpixel_offset
cpixel_fits f h = ground arith

-- The full pixel that `widen` reads.
abbrev pub widened : PixelFormat → List ℕ → List ℕ
widened f bytes = overwritten (replicate (bytes_per_pixel f) 0) (cpixel_offset f) bytes

pub widen_ok :
    (f : PixelFormat) (bytes : List ℕ)
    → length bytes ≡ cpixel_bytes f
    → cpixel_bytes f ≢ bytes_per_pixel f
    → widen f bytes ≡ ok (to_rgba f (read_pixel f (widened f bytes)))
unfolding widen
widen_ok f bytes h k =
    let (cb, bpp, off) = cpixel_fits f k in
    let room : cpixel_offset f + length bytes ≤ length (replicate {A = ℕ} (bytes_per_pixel f) 0) =
      omega (arith, length-replicate {A = ℕ} (bytes_per_pixel f) 0) in
    rw
      (copy_at_ok {E = Error} (replicate (bytes_per_pixel f) 0) (cpixel_offset f) bytes room, widen)

-- The value satisfies `P` and the cursor has moved on.
abbrev pub Reads : {A : Type 0} → (A → Type 0) → Cursor → A → Cursor → Type 0
Reads P c a c' = P a × After c c'

pub read_cpixel-Reads : (f : PixelFormat) (c : Cursor) → Gives (Reads IsColour c) c (read_cpixel f)
unfolding read_cpixel
read_cpixel-Reads f c =
    Gives-bind (Took (cpixel_bytes f) c) (Reads IsColour c) c (take_bytes (cpixel_bytes f)) _
      (take_bytes-Took (cpixel_bytes f) c)
      (λ raw c' t.
        Gives-if (Reads IsColour c) c' (pure (to_rgba f (read_pixel f raw))) (lift (widen f raw))
          (cpixel_bytes f == bytes_per_pixel f)
          (λ e. (to_rgba-IsColour f (read_pixel f raw), Took-After t))
          (λ e.
            rw (widen_ok f raw t.size (==-ne _ _ e))
              (to_rgba-IsColour f (read_pixel f (widened f raw)), Took-After t)))

pub read_palette-Reads :
    (f : PixelFormat) (n : ℕ) (c : Cursor)
    → c.pos ≤ length c.bytes
    → Gives (Reads (λ p. All IsColour p × (length p ≡ n)) c) c (read_palette f n)
unfolding read_palette
read_palette-Reads f zero c h =
    ((tt, refl), record { same_bytes = refl; forward = omega arith; within = h })
read_palette-Reads f (suc n) c h =
    Gives-bind (Reads IsColour c) _ c (read_cpixel f) _ (read_cpixel-Reads f c) (λ colour c1 p.
      Gives-bind (Reads (λ p. All IsColour p × (length p ≡ n)) c1) _ c1 (read_palette f n) _
        (read_palette-Reads f n c1 (omega (arith, p.1.within, ap length p.1.same_bytes)))
        (λ rest c2 q. (((p.0, q.0.0), ap suc q.0.1), After-trans p.1 q.1)))

run_length_loop-Reads :
    (fuel len : ℕ) (c : Cursor)
    → length c.bytes - c.pos < fuel
    → Gives (Reads (λ run. len ≤ run) c) c (run_length_loop fuel len)
unfolding run_length_loop
run_length_loop-Reads zero len c h = absurd (omega arith)
run_length_loop-Reads (suc fuel) len c h =
    Gives-bind (TookOne c) (Reads (λ run. len ≤ run) c) c take_u8 _ (take_u8-TookOne c) (λ b c' t.
      Gives-elim (Reads (λ run. len ≤ run) c) c' (pure (len + b)) (run_length_loop fuel (len + b))
        (not (b == 0xff)) (λ _. (omega arith, TookOne-After t))
        (λ _.
          Gives-weaken (Reads (λ run. len + b ≤ run) c') (Reads (λ run. len ≤ run) c) c'
            (run_length_loop fuel (len + b))
            (run_length_loop-Reads fuel (len + b) c'
              (omega (arith, t.moved, t.within, ap length t.same_bytes)))
            (λ run d q. (omega (arith, q.0), After-trans (TookOne-After t) q.1))))

-- A run length is at least 1, and its loop ends within the bytes that are left.
pub read_run_length-Reads : (c : Cursor) → Gives (Reads (λ run. 1 ≤ run) c) c read_run_length
unfolding read_run_length
read_run_length-Reads c = run_length_loop-Reads (length c.bytes - c.pos + 1) 1 c (omega arith)
