-- ===== src/Xml.antt =====
-- The XML side of src/rust/html5ever/lib.rs: the cut of a document type's internal subset, the sink
-- that reports elements which are still open at the end of the file, and the entry point.
pub mod Doctype
pub mod Unclosed
pub mod Document
mod Example
mod Tests
