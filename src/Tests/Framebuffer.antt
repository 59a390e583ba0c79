-- ===== src/Tests/Framebuffer.antt =====
-- Rectangles painted and moved, on the inputs of client.rs's own tests.
use bolide.Base.{ℕ, ◌*◌, ◌<◌, ◌≡◌, ◌⊎◌, refl, arith, List, [], ◌∷◌, ok, err}
use bolide.Base.Bytes.{copy_at, slice}
use bolide.Error.{protocol, does_not_fit, came_up_short}
use bolide.Framebuffer.{Framebuffer, check_bounds, blit_rgba, copy_rect}
use bolide.Framebuffer.Blit.{InBounds, Painted, SticksOut, blit_rgba_cases}
use bolide.Framebuffer.Copy.{Moved, copy_rect-Moved}
use bolide.Rows.{copy_rows}

-- One column of four pixels.
abbrev column : List ℕ → Framebuffer
column bytes = record { width = 1; height = 4; rgba = bytes }

abbrev four : List ℕ
four = 1 ∷ 1 ∷ 1 ∷ 9 ∷ 2 ∷ 2 ∷ 2 ∷ 9 ∷ 3 ∷ 3 ∷ 3 ∷ 9 ∷ 4 ∷ 4 ∷ 4 ∷ 9 ∷ []

scroll_down :
    copy_rect (column four) 0 1 1 3 0 0
    ≡ ok (column (1 ∷ 1 ∷ 1 ∷ 9 ∷ 1 ∷ 1 ∷ 1 ∷ 9 ∷ 2 ∷ 2 ∷ 2 ∷ 9 ∷ 3 ∷ 3 ∷ 3 ∷ 9 ∷ []))
unfolding copy_rect check_bounds copy_rows copy_at slice
scroll_down = refl

copy_rect-Moved_example :
    (out : Framebuffer) × (copy_rect (column four) 0 1 1 3 0 0 ≡ ok out)
    × Moved (column four) 0 1 1 3 0 0 out
copy_rect-Moved_example =
    copy_rect-Moved (column four) 0 1 1 3 0 0 (omega arith) (omega arith) (omega arith)

blit_rgba_cases_example :
    (InBounds (column four) 0 2 1 1
      × (out : Framebuffer) × (blit_rgba (column four) 0 2 1 1 (7 ∷ 7 ∷ 7 ∷ 9 ∷ []) ≡ ok out)
      × Painted (column four) out 0 2 1 1 (7 ∷ 7 ∷ 7 ∷ 9 ∷ []))
    ⊎ ((SticksOut (column four) 0 2 1 1
          × (blit_rgba (column four) 0 2 1 1 (7 ∷ 7 ∷ 7 ∷ 9 ∷ [])
              ≡ err (protocol (does_not_fit 1 1 0 2 1 4))))
        ⊎ (InBounds (column four) 0 2 1 1
            × (4 < 1 * 1 * 4)
            × (blit_rgba (column four) 0 2 1 1 (7 ∷ 7 ∷ 7 ∷ 9 ∷ [])
                ≡ err (protocol came_up_short))))
blit_rgba_cases_example = blit_rgba_cases (column four) 0 2 1 1 (7 ∷ 7 ∷ 7 ∷ 9 ∷ []) (omega arith)
