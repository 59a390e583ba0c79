-- ===== src/Tests/Record.antt =====
-- record.rs: a frame of two pixels on the smallest video.
use bolide.Base.{
  ℕ, ◌*◌, ◌+◌, ◌%◌, ◌≡◌, refl, sym, ap, arith, List, [], ◌∷◌, ok, none, Returns, length,
}
use bolide.Base.Bytes.{slice, copy_at}
use bolide.Framebuffer.{Framebuffer}
use bolide.Rows.{copy_rows}
use bolide.Record.{Geometry, for_screen, even, scaled, black_pixels, fit, fit_rows, fit_row}
use bolide.Record.Loop.{Studio, stopped, tick, other_event, recorded}
use bolide.Record.Loop.Framed.{Counts, Recorded, recorded-Recorded}
use bolide.Record.Fitted.{fit-for_screen}

-- Four pixels in a row, of which two are kept.
abbrev strip : Framebuffer
strip = record {
  width = 4;
  height = 1;
  rgba = 1 ∷ 1 ∷ 1 ∷ 255 ∷ 2 ∷ 2 ∷ 2 ∷ 255 ∷ 3 ∷ 3 ∷ 3 ∷ 255 ∷ 4 ∷ 4 ∷ 4 ∷ 255 ∷ [];
}

strip_fitted :
    fit strip (for_screen 1 1)
    ≡ ok (1 ∷ 1 ∷ 1 ∷ 255 ∷ 3 ∷ 3 ∷ 3 ∷ 255 ∷ 0 ∷ 0 ∷ 0 ∷ 255 ∷ 0 ∷ 0 ∷ 0 ∷ 255 ∷ [])
unfolding fit for_screen even scaled black_pixels fit_rows fit_row copy_rows slice copy_at
strip_fitted = refl

fit-for_screen_example :
    ((for_screen 1 1).width % 2 ≡ 0)
    × ((for_screen 1 1).height % 2 ≡ 0)
    × Returns
        (λ (out : List ℕ). length out ≡ (for_screen 1 1).width * (for_screen 1 1).height * 4)
        (fit strip (for_screen 1 1))
fit-for_screen_example = fit-for_screen strip 1 1 refl (omega arith) (omega arith)

-- The world is the number of frames written.
abbrev studio : Studio
studio = record {
  World = ℕ;
  framebuffer = λ w. (w, ok strip);
  write_frame = λ rgba w. (w + 1, none);
  finish = λ w. (w, none);
}

counts : Counts studio
counts = record {
  written = λ w. w;
  complete = λ w. refl;
  frame_keeps = λ w. refl;
  write_counts = λ rgba w w' e. ap (λ q. q.0) (sym e);
  finish_keeps = λ w. refl;
}

abbrev small : Geometry
small = record { width = 2; height = 2 }

recorded-Recorded_example :
    Recorded studio small counts
      (omega arith)
      (omega arith)
      (counts.written 7)
      (recorded studio small (other_event ∷ tick ∷ tick ∷ stopped ∷ []) 7)
recorded-Recorded_example =
    recorded-Recorded studio small counts (omega arith) (omega arith)
      (other_event ∷ tick ∷ tick ∷ stopped ∷ []) 7
