-- ===== src/Zrle.antt =====
-- crates/bolide-rfb/src/zrle.rs: the ZRLE decoder.
pub mod Cursor
pub mod Inflate
pub mod Outcome
pub mod Pixels
pub mod Tile
pub mod Tiles
