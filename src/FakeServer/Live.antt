-- ===== src/FakeServer/Live.antt =====
-- server.rs of the test kit: what a directive does to the screen, and what a live connection is sent;
-- lib.rs: Screen.fill_rect.
pub mod Heard
use bolide.Base.{
  ℕ, zero, suc, ◌+◌, ◌-◌, ◌*◌, ◌%◌, ◌^◌, ◌==◌, min, if◌then◌else◌, List, [], ◌∷◌, ◌++◌, length,
  Result, ok, ◌>>=◌,
}
use bolide.Base.Text.{Text}
use bolide.Base.Bytes.{be32, copy_at, index}
use bolide.Error.{Error}
use bolide.Proto.{enc_zrle, enc_copy_rect, enc_desktop_size}
use bolide.Proto.ServerMsg
use bolide.Proto.Format.{PixelFormat, Rgba, rgba_bytes}
use bolide.Proto.Messages.{to_latin1}
use bolide.Encode
use bolide.Encode.{ZrleTiling}
use bolide.Encode.Screen.{
  Screen, solid, pixel, saturating_add, or_black, raw_rect, Encoding, choose_encoding,
  update_header, rect_header,
}
use bolide.Encode.Rect.{Deflater, rect}

pub data Directive : Type 0 where
  set_screen : Screen → Directive
  cut_text : Text → Directive
  bell : Directive
  resize : (width height : ℕ) → Directive
  copy_rect : (src_x src_y dst_x dst_y width height : ℕ) → Directive
  drop shutdown : Directive

-- `left` columns of a row from `col` on, and `left` rows from `row` on.
unfoldable pub fill_row : (width row : ℕ) → Rgba → (left col : ℕ) → List ℕ → Result Error (List ℕ)
fill_row width row colour zero col into = ok into
fill_row width row colour (suc left) col into = do
  into' ← copy_at into ((row * width + col) * 4) (rgba_bytes colour)
  fill_row width row colour left (col + 1) into'

unfoldable pub fill_rows :
    (width x columns : ℕ) → Rgba → (left row : ℕ) → List ℕ → Result Error (List ℕ)
fill_rows width x columns colour zero row into = ok into
fill_rows width x columns colour (suc left) row into = do
  into' ← fill_row width row colour columns x into
  fill_rows width x columns colour left (row + 1) into'

unfoldable pub fill_rect : Screen → (x y width height : ℕ) → Rgba → Result Error Screen
unfolding fill_rows fill_row
fill_rect screen x y width height colour = do
  let columns = min (saturating_add x width) screen.width - x
  let rows = min (saturating_add y height) screen.height - y
  rgba ← fill_rows screen.width x columns colour rows y screen.rgba
  ok (record screen { rgba = rgba })

-- The two pairs of loops of `blit`: what is taken, and what is put.
unfoldable pub taken_row : Screen → (src_x src_y row left col : ℕ) → Result Error (List Rgba)
taken_row screen src_x src_y row zero col = ok []
taken_row screen src_x src_y row (suc left) col = do
  colour ← pixel screen (saturating_add src_x col) (saturating_add src_y row)
  rest ← taken_row screen src_x src_y row left (col + 1)
  ok (or_black colour ∷ rest)

unfoldable pub taken_rows : Screen → (src_x src_y w left row : ℕ) → Result Error (List Rgba)
taken_rows screen src_x src_y w zero row = ok []
taken_rows screen src_x src_y w (suc left) row = do
  line ← taken_row screen src_x src_y row w 0
  rest ← taken_rows screen src_x src_y w left (row + 1)
  ok (line ++ rest)

unfoldable pub put_row : List Rgba → (dst_x dst_y w row left col : ℕ) → Screen → Result Error Screen
put_row taken dst_x dst_y w row zero col screen = ok screen
put_row taken dst_x dst_y w row (suc left) col screen = do
  colour ← index taken (row * w + col)
  screen' ← fill_rect screen (saturating_add dst_x col) (saturating_add dst_y row) 1 1 colour
  put_row taken dst_x dst_y w row left (col + 1) screen'

unfoldable pub put_rows : List Rgba → (dst_x dst_y w left row : ℕ) → Screen → Result Error Screen
put_rows taken dst_x dst_y w zero row screen = ok screen
put_rows taken dst_x dst_y w (suc left) row screen = do
  screen' ← put_row taken dst_x dst_y w row w 0 screen
  put_rows taken dst_x dst_y w left (row + 1) screen'

unfoldable pub blit : Screen → (src_x src_y dst_x dst_y w h : ℕ) → Result Error Screen
unfolding taken_rows taken_row put_rows put_row
blit screen src_x src_y dst_x dst_y w h = do
  taken ← taken_rows screen src_x src_y w h 0
  put_rows taken dst_x dst_y w h 0 screen

abbrev pub black_pixel : Rgba
black_pixel = record { r = 0; g = 0; b = 0; a = 255 }

-- With no client connected.
unfoldable pub apply_offline : Directive → Screen → Result Error Screen
apply_offline (set_screen new) screen = ok new
apply_offline (resize w h) screen = ok (solid w h black_pixel)
apply_offline (copy_rect src_x src_y dst_x dst_y w h) screen =
    blit screen src_x src_y dst_x dst_y w h
apply_offline (cut_text text) screen = ok screen
apply_offline bell screen = ok screen
apply_offline drop screen = ok screen
apply_offline shutdown screen = ok screen

unfoldable pub server_cut_text : Text → List ℕ
server_cut_text text =
    let latin1 = to_latin1 text in
    ServerMsg.server_cut_text ∷ 0 ∷ 0 ∷ 0 ∷ (be32 (length latin1 % 2 ^ 32) ++ latin1)

-- The configuration that the answers depend on.
pub record Served : Type 0 where
  pub encoding : Encoding
  pub zrle_tiling : ZrleTiling

module _ (deflater : Deflater) where
  open deflater use {Stream}

  -- What is sent, with the deflater's stream behind it.
  unfoldable pub framebuffer_update :
      Screen → PixelFormat → Served → List ℕ → Stream → Result Error (Stream × List ℕ)
  framebuffer_update screen f cfg advertised z =
      let encoding = choose_encoding cfg.encoding advertised in
      let header = update_header 1 ++ rect_header 0 0 screen.width screen.height encoding in
      if encoding == enc_zrle
      then (do
        (z', payload) ← rect deflater cfg.zrle_tiling screen f 0 0 screen.width screen.height z
        ok (z', header ++ payload))
      else (do
        payload ← raw_rect screen f 0 0 screen.width screen.height
        ok (z, header ++ payload))

  -- The screen, the stream and the bytes that are written.
  unfoldable pub apply_online :
      Directive
      → Screen
      → PixelFormat
      → Served
      → List ℕ
      → Stream
      → Result Error (Screen × (Stream × List ℕ))
  unfolding framebuffer_update
  apply_online (set_screen new) screen f cfg advertised z = do
    sent ← framebuffer_update new f cfg advertised z
    ok (new, sent)
  apply_online (cut_text text) screen f cfg advertised z = ok (screen, (z, server_cut_text text))
  apply_online bell screen f cfg advertised z = ok (screen, (z, ServerMsg.bell ∷ []))
  apply_online (resize w h) screen f cfg advertised z =
      ok (solid w h black_pixel, (z, update_header 1 ++ rect_header 0 0 w h enc_desktop_size))
  apply_online (copy_rect src_x src_y dst_x dst_y w h) screen f cfg advertised z = do
    screen' ← blit screen src_x src_y dst_x dst_y w h
    ok (
      screen',
      (
        z,
        update_header 1
            ++ (rect_header dst_x dst_y w h enc_copy_rect ++ Encode.copy_rect src_x src_y),
      ),
    )
  apply_online drop screen f cfg advertised z = ok (screen, (z, []))
  apply_online shutdown screen f cfg advertised z = ok (screen, (z, []))
