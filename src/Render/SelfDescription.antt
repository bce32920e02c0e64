-- ===== src/Render/SelfDescription.antt =====
-- The part of src/rust/render/lib.rs that lets a caller check its mirror of the structs.
pub mod Structs
pub mod Names
pub mod Table
pub mod Laws
pub mod Mirror
mod Tests
