-- ===== src/Rows.antt =====
-- The loop that copies a rectangle row by row, as decode_tiles of zrle.rs and blit_rgba and copy_rect
-- of client.rs write it:
--   for row in 0..rows { into[dst..dst + n].copy_from_slice(&from[src..src + n]) }
-- with `dst` and `src` computed from `row`. Slices out of range panic.
pub mod Copied
use bolide.Base.{ℕ, zero, suc, ◌+◌, List, Result, ok, ◌>>=◌}
use bolide.Base.Bytes.{copy_at, slice}

module _ {E : Type 0} {A : Type 0} (dst src : ℕ → ℕ) (n : ℕ) where
  -- `left` rows, from `row` on.
  unfoldable pub copy_rows : ℕ → ℕ → List A → List A → Result E (List A)
  copy_rows zero row from into = ok into
  copy_rows (suc left) row from into = do
    taken ← slice from (src row) n
    into' ← copy_at into (dst row) taken
    copy_rows left (row + 1) from into'
