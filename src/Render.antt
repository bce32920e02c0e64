-- ===== src/Render.antt =====
-- src/rust/render/lib.rs, the drawing of a page's text: the flow of blocks, the flat arrays that a
-- layout is exported as, and the picture as a PNG. Shaping and line breaking (`parley`) are
-- third-party code; what the code reads of a shaped text is in `Render/Text.antt`.
pub mod Float
pub mod Text
pub mod Abi
pub mod Export
pub mod Blocks
pub mod Flow
pub mod Handles
pub mod Raster
pub mod Draw
pub mod Png
pub mod Renderer
pub mod CLayout
pub mod SelfDescription
mod Example
mod Tests
