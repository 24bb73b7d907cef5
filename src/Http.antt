-- ===== src/Http.antt =====
-- The HTTP surface, crates/http: its fault injection layer, the requests for items over PostgreSQL, and the
-- JSON body.
pub mod Fault
pub mod Data
pub mod Items
pub mod Lenient
