-- ===== src/Url.antt =====
-- src/rust/html5ever/url.rs: the URL functions that the browser calls over the C boundary.
pub mod Crate
pub mod DriveLetter
pub mod Hostname
pub mod Host
pub mod Handles
pub mod Query
pub mod Buffers
pub mod Resolve
pub mod Example
mod Tests
