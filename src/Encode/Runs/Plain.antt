-- ===== src/Encode/Runs/Plain.antt =====
-- encode.rs: plain RLE, and the loop of zrle.rs that reads it.
use mathlib.Core.List.{append_assoc, append-nil}
use bolide.Base.{
  ℕ, zero, suc, ◌+◌, ◌*◌, ◌/◌, ◌≤◌, ◌<◌, ltb, lt→ltb, false, List, [], ◌∷◌, ◌++◌, All, ok, length,
  length-append, replicate, length-replicate, ◌≡◌, refl, sym, ap, ◌∙◌, arith,
}
use bolide.Proto.Format.{PixelFormat, Rgba, to_rgba}
use bolide.Zrle.Cursor.{◌>>=◌, lift}
use bolide.Zrle.Pixels.{read_cpixel, read_run_length}
use bolide.Zrle.Tile.{repeat_colour, push_run, plain_rle}
use bolide.Zrle.Tile.Packed.{length-repeat_colour}
use bolide.Encode.{write_cpixel, write_runs}
use bolide.Encode.Stream.{Decodes, Decodes-bind, Decodes-lift}
use bolide.Encode.Pixels.{Packs, Decodes-cpixel, paints, paints-append, paints-replicate}
use bolide.Encode.Runs.{spread, Runs, run_length_read}

pub not_ltb : (a b : ℕ) → b ≤ a → ltb a b ≡ false
not_ltb a b h = ground arith

-- A run that fits the tile is pushed.
pub Decodes-push :
    (px : List ℕ) (colour : Rgba) (run count : ℕ) (s : List ℕ)
    → length px / 4 + run ≤ count
    → Decodes (lift (push_run px colour run count)) s (px ++ repeat_colour run colour) s
unfolding push_run
Decodes-push px colour run count s h =
    Decodes-lift (push_run px colour run count) (px ++ repeat_colour run colour) s
      (rw (not_ltb count (length px / 4 + run) h) refl)

pub All-spread_head :
    (P : ℕ → Type 0) (n v : ℕ) (rest : List ℕ)
    → 1 ≤ n
    → All P (replicate n v ++ rest)
    → P v × All P rest
All-spread_head P zero v rest h a = absurd (omega arith)
All-spread_head P (suc zero) v rest h a = (a.0, a.1)
All-spread_head P (suc (suc n)) v rest h a = All-spread_head P (suc n) v rest (omega arith) a.1

-- How much of the tile is painted, and how much the runs will paint.
pub record Room (acc : List ℕ) (runs : List (ℕ × ℕ)) (fuel count : ℕ) : Type 0 where
  pub fills : length acc + length (spread runs) * 4 ≡ count * 4
  pub rounds : length (spread runs) < fuel

pub Room-next :
    (f : PixelFormat) (acc : List ℕ) (v n fuel count : ℕ) (runs : List (ℕ × ℕ))
    → 1 ≤ n
    → Room acc ((v, n) ∷ runs) (suc fuel) count
    → (length acc < count * 4)
      × (length acc / 4 + n ≤ count)
      × Room (acc ++ repeat_colour n (to_rgba f v)) runs fuel count
Room-next f acc v n fuel count runs h r =
    let total : length (spread ((v, n) ∷ runs)) ≡ n + length (spread runs) =
      length-append (replicate n v) (spread runs) ∙ omega (arith, length-replicate n v) in
    let grown : length (acc ++ repeat_colour n (to_rgba f v)) ≡ length acc + 4 * n =
      length-append acc (repeat_colour n (to_rgba f v))
      ∙ omega (arith, length-repeat_colour n (to_rgba f v)) in
    (
      omega (arith, total, r.fills),
      omega (arith, total, r.fills),
      record {
        fills = omega (arith, total, grown, r.fills);
        rounds = omega (arith, total, r.rounds);
      },
    )

-- The pixels of a run and of those behind it.
pub paints-spread :
    (f : PixelFormat) (acc : List ℕ) (v n : ℕ) (runs : List (ℕ × ℕ))
    → (acc ++ repeat_colour n (to_rgba f v)) ++ paints f (spread runs)
      ≡ acc ++ paints f (spread ((v, n) ∷ runs))
paints-spread f acc v n runs =
    append_assoc acc (repeat_colour n (to_rgba f v)) (paints f (spread runs))
    ∙ ap (λ q. acc ++ q)
        (ap (λ q. q ++ paints f (spread runs)) (sym (paints-replicate f n v))
          ∙ sym (paints-append f (replicate n v) (spread runs)))

plain_rle_round :
    (f : PixelFormat) (fuel count : ℕ) (px s out t : List ℕ)
    → length px < count * 4
    → Decodes
        (do
          colour ← read_cpixel f
          run ← read_run_length
          px' ← lift (push_run px colour run count)
          plain_rle f fuel count px')
        s
        out
        t
    → Decodes (plain_rle f (suc fuel) count px) s out t
unfolding plain_rle
plain_rle_round f fuel count px s out t h k c r =
    rw (lt→ltb (length px) (count * 4) h, plain_rle) (k c r)

plain_rle_full :
    (f : PixelFormat) (fuel count : ℕ) (px t : List ℕ)
    → length px ≡ count * 4
    → Decodes (plain_rle f (suc fuel) count px) t px t
unfolding plain_rle
plain_rle_full f fuel count px t h c r =
    rw (not_ltb (length px) (count * 4) (omega arith), plain_rle) (c, refl, r)

-- The runs that a server writes are what the client's loop paints.
pub plain-Runs_read :
    (f : PixelFormat) (runs : List (ℕ × ℕ))
    → Runs runs
    → All (Packs f) (spread runs)
    → (bytes : List ℕ) × (write_runs f runs ≡ ok bytes)
      × ((fuel count : ℕ) (acc t : List ℕ)
          → Room acc runs fuel count
          → Decodes (plain_rle f fuel count acc) (bytes ++ t) (acc ++ paints f (spread runs)) t)
unfolding write_runs
plain-Runs_read f [] h packs = ([], refl, painted)
  where
    painted :
        (fuel count : ℕ) (acc t : List ℕ)
        → Room acc [] fuel count
        → Decodes (plain_rle f fuel count acc) t (acc ++ []) t
    painted zero count acc t r = absurd (omega (arith, r.rounds))
    painted (suc fuel) count acc t r =
        rw (append-nil acc) (plain_rle_full f fuel count acc t (omega (arith, r.fills)))
plain-Runs_read f ((v, n) ∷ runs) h packs =
    let (pack, packs') = All-spread_head (Packs f) n v (spread runs) h.0 packs in
    let (len, written, read) = run_length_read n h.0 in
    let (rest, written', read') = plain-Runs_read f runs h.1 packs' in
    (
      write_cpixel f v ++ (len ++ rest),
      rw (written, written') refl,
      painted pack len rest read read',
    )
  where
    painted :
        Packs f v
        → (len rest : List ℕ) → ((t : List ℕ) → Decodes read_run_length (len ++ t) n t)
        → ((fuel count : ℕ) (acc t : List ℕ)
            → Room acc runs fuel count
            → Decodes (plain_rle f fuel count acc) (rest ++ t) (acc ++ paints f (spread runs)) t)
        → (fuel count : ℕ) (acc t : List ℕ) → Room acc ((v, n) ∷ runs) fuel count
        → Decodes
            (plain_rle f fuel count acc)
            ((write_cpixel f v ++ (len ++ rest)) ++ t)
            (acc ++ paints f (spread ((v, n) ∷ runs)))
            t
    painted pack len rest read read' zero count acc t r = absurd (omega (arith, r.rounds))
    painted pack len rest read read' (suc fuel) count acc t r =
        let (more, fits, room) = Room-next f acc v n fuel count runs h.0 r in
        plain_rle_round f fuel count acc _ _ t more (
          rw
            (
              append_assoc (write_cpixel f v) (len ++ rest) t,
              append_assoc len rest t,
              ← paints-spread f acc v n runs,
            )
            (Decodes-bind (read_cpixel f) _ (Decodes-cpixel f v (len ++ (rest ++ t)) pack) (
              Decodes-bind read_run_length _ (read (rest ++ t)) (
                Decodes-bind (lift (push_run acc (to_rgba f v) n count)) _
                  (Decodes-push acc (to_rgba f v) n count (rest ++ t) fits)
                  (read' fuel count (acc ++ repeat_colour n (to_rgba f v)) t room)))))
