-- ===== src/Stream.antt =====
-- crates/stream: replies sent in chunks, paced by the virtual clock.
pub mod Chunks
pub mod Pace
pub mod Words
pub mod Scripted
pub mod Chat
