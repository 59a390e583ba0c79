-- ===== src/Tests.antt =====
-- Concrete runs of the definitions, and the theorems at concrete inputs.
mod Encode
mod Http
mod Update
mod Ard
mod Handshake
mod ReadLoop
mod Live
mod Record
mod Proto
mod Framebuffer
mod Zrle
mod Keysym
mod Client
mod Session
mod FakeServer
mod Actions
