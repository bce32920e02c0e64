-- ===== src/Dom.antt =====
-- The tree that the Zig side builds: the C types of src/rust/html5ever/types.rs and the tree sink
-- of src/rust/html5ever/sink.rs.
pub mod Types
pub mod Sink
pub mod Example
mod Tests
