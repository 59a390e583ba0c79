-- ===== src/Lib.antt =====
-- bolide: a remote desktop over RFB (VNC) for a computer-use agent. The server plans each action of
-- the agent as pointer and key events; a session sends them to the desktop and keeps a framebuffer that
-- its read loop paints from the server's updates. A fake server in the test kit stands for the desktop.
--
-- The parts and the files that model them:
--   crates/bolide-rfb/src/proto.rs: Proto (constants), Proto/Format (PixelFormat, its CPIXEL geometry
--   and the values of pixels), Proto/Messages (the client's messages, latin-1 text), Proto/Version
--   (parse_version), Proto/VncAuth (vnc_auth_response).
--   crates/bolide-rfb/src/ard.rs: Ard (client_response and what it calls, the server's side of it).
--   crates/bolide-rfb/src/lib.rs: Error, Framebuffer (Framebuffer), Client (Config).
--   crates/bolide-rfb/src/zrle.rs: Zrle/Cursor (Cursor, with a monad of decoders), Zrle/Pixels
--   (read_cpixel, read_palette, read_run_length), Zrle/Tile (decode_tile), Zrle/Tiles (decode_tiles),
--   Zrle/Inflate (decode_rect, inflate_slice).
--   crates/bolide-rfb/src/client.rs: Framebuffer (check_bounds, blit_raw, blit_rgba, copy_rect), Client
--   (the read head Conn and choose_security), Client/Handshake (handshake, ard_authenticate),
--   Client/ReadLoop (reader_task, read_message, read_framebuffer_update), Session (what the two tasks do
--   to the shared state).
--   crates/bolide-rfb/src/session.rs: Session (Inner and its operations, the handle's methods),
--   Session/Steps (the tasks and handles as steps, one for each access to what they share; a run is a
--   list of steps in any order).
--   crates/bolide-rfb/src/keysym.rs: Keysym (both tables, keysym_for, name_for_keysym, parse_chord).
--   crates/bolide-server/src/wire.rs and actions.rs: Wire (ComputerAction), Actions (plan and what it
--   calls), Actions/Run (execute).
--   crates/bolide-server/src/http.rs: Http (the token, errors, fresh_frame and the handlers of /computer
--   and /screenshot), over a session and a clock that are parameters (Http.Host).
--   crates/bolide-testkit/src/server.rs: FakeServer (read_message), FakeServer/Handshake (handshake,
--   server_init and the opening exchange of serve), FakeServer/Live (apply_offline, apply_online, blit,
--   framebuffer_update).
--   crates/bolide-testkit/src/encode.rs: Encode (encode_tile and what it calls, copy_rect),
--   Encode/Screen (Screen, raw_rect, tile_pixels; choose_encoding and the headers of server.rs),
--   Encode/Rect (the tiles of a rect and its payload).
--   Encode/Stream and its neighbours read what it writes with the decoders of Zrle.
--   crates/bolide-cli/src/update.rs: Update (compare_versions), Update/Release (tags, redirects, assets),
--   Update/Install (update and swap_in), over a network and a file system that are parameters.
--   crates/bolide-cli/src/record.rs: Record (Geometry and fit), Record/Loop (record, over a
--   session and a sink that are parameters).
-- Base holds what they share: tests and lists over native numbers, outcomes, bits, bytes, text and
-- signed numbers. Rows holds the loop that three of them use to copy the rows of a rectangle. Tests
-- holds concrete runs, and each theorem at a concrete input.
--
-- How they meet: plan takes keysyms from Keysym and gives operations that execute hands to a session;
-- the session's methods build bytes with Proto/Messages, which FakeServer reads; a ZRLE rect goes
-- through decode_tiles and then blit_rgba into the framebuffer. The two handshakes are run against each
-- other: Client/Talks says of a side what it hears, what it writes and how it ends, behind any input
-- that it takes up and any output that it adds to. The tiles of a rect are what Encode
-- writes. The handler of /computer runs Actions.plan and Actions.Run.execute.
--
-- Conventions. A byte, a word, a pixel coordinate is a natural number, and casts and shifts that can
-- lose digits are written out (% 2 ^ w). A Rust call gives a Result with four cases: a value, an error,
-- a panic, or stuck for a loop that does not end. A string is its list of code points. Where the source
-- formats a sentence into an error, the model keeps which sentence and the numbers in it.
--
-- Fuel: plain_rle and palette_rle get a round for each pixel of the tile and one more, since a round
-- adds a pixel at least; the loops over tiles get a round for each pixel of the side and one more. That
-- it is enough is part of decode_tile-IsTile and decode_tiles_total, which exclude stuck.
--
-- write_run_length gets as many rounds as the run has pixels, of which each takes 255 off, and
-- pack_chunks a round for each pixel; decode_tile-encode_tile says that both give bytes. skip gets a
-- round for each byte. inflate_slice gets 1033 for each byte of the payload and one for each byte that
-- the inflater owes, since deflate gives at most 1032 bytes for one; decode_rect-Returns says that this
-- is enough. The read loop gets a round for each byte that will come, and one more.
--
-- Parameters: the numbers of f64 (Actions.Float), the session and the clock that execute is given
-- (Actions.Run.Desk), and what the handlers are given besides: the clock's time, the session's frames,
-- PNG and base64 (Http.Host). That a pause lasts is a hypothesis (Http.Fresh.Pauses). An update is given
-- curl, tar and a file system (Update.Install.Machine); which files a call leaves alone is a hypothesis
-- (Update.Swap.Kept.Files). A recording is given a session and a sink (Record.Loop.Studio). Apple
-- authentication is given big numbers, MD5 and AES (Ard.Crates, whose documented behaviour is
-- Ard.Exchange.Laws), and a handshake these, DES and the system's randomness (Client.Handshake.Outside).
-- The inflater of the read loop is flate2's (Zrle.Inflate.Inflater, whose documented behaviour is
-- Zrle.Inflate.Ended.Steady), and the deflater of the test kit is Encode.Rect.Deflater.
--
-- Not modelled: the deadline of a read, the shutdown of the read loop between two messages, a write
-- of the handshake that fails (Client.write), a name that is not UTF-8 on the server's side of
-- Apple authentication (read_field keeps its bytes), routing, JSON and PNG, two handlers at once,
-- the tasks and channels of the fake server, and of the command line all but its update and its
-- recorder. The read loop runs by itself here; how its accesses to the shared state interleave with
-- those of the other tasks is what Session/Steps says.
pub mod Base
pub mod Error
pub mod Proto
pub mod Rows
pub mod Framebuffer
pub mod Zrle
pub mod Keysym
pub mod Wire
pub mod Actions
pub mod Session
pub mod FakeServer
pub mod Client
pub mod Encode
pub mod Http
pub mod Update
pub mod Record
pub mod Ard
mod Tests
