-- ===== src/Ws.antt =====
-- The WebSocket surface, crates/ws: its hub.
pub mod Hub
pub mod Conn
