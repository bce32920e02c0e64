-- ===== src/Lib.antt =====
-- The Rust crates of the Lightpanda browser. The browser itself is written in Zig; src/rust holds
-- what it takes from Rust libraries, behind a C boundary: HTML and XML parsing, URLs, text
-- encodings and the drawing of text. This library models the crates src/rust/html5ever and
-- src/rust/render, each function as the source has it, with the third-party code that it calls as
-- parameters.
--
-- The parts, and the files that model them:
--
-- The C boundary. `Ffi.antt`: slices by pointer and length (a null pointer is `none`), status
-- codes. `Heap.antt`: what `Box::into_raw` hands out and `Box::from_raw` takes back, as addresses
-- of a heap; using a dead address is undefined behaviour, the outcome `none`, and Heap/Laws.antt
-- has the laws.
--
-- src/rust/html5ever/prescan.rs. `Prescan.antt`: the preload scanner, a token sink with two cells;
-- its calls of the callback are the list that the sink carries. The tokenizer and the lossy
-- decoder are parameters of `html5ever_prescan` in Prescan/Document.antt. Prescan/Hints.antt
-- compares the calls with a description that looks at the history of the tokens alone,
-- Prescan/Template.antt is about templates, Prescan/Kind.antt about one script tag.
--
-- src/rust/html5ever/lib.rs. `Parse.antt`: the entry points that parse a document or a fragment,
-- with the HTML parser as the record `Html5ever`; Parse/Streaming.antt: the boxed parser that is
-- fed in chunks, with its life in Parse/Streaming/Life.antt; Parse/Fragment.antt: the element that
-- a fragment is parsed inside of. Xml/Doctype.antt: `strip_doctype_internal_subset`, byte by byte;
-- Xml/Unclosed.antt: `UnclosedTagSink`, between XML tokenizer and tree builder, with what the
-- builder sees in Xml/Unclosed/Laws.antt; Xml/Document.antt: the entry point
-- `xml5ever_parse_document` with `XmlDocumentParser`. Encoding.antt: the calls of `encoding_rs`,
-- as the record `EncodingRs`; Encoding/Api.antt: the encoding functions, and
-- Encoding/Api/Pieces.antt a text that is decoded in pieces. Dom/Types/Iterate.antt and
-- Dom/Types.antt: the iterator over attributes.
--
-- src/rust/html5ever/types.rs and sink.rs. Dom/Types.antt: names, attributes and slices as they
-- cross the boundary. Dom/Sink.antt: every method of `Sink`. The Zig side is a state `D` with a
-- step for each call (`Zig D`); Dom/Sink/Names.antt states what the sink relies on (`KeepsData`:
-- the pointer given with an element is given back).
--
-- src/rust/html5ever/url.rs. Url/Crate.antt: the calls of the `url` crate, as the record
-- `UrlCrate`. Url/Handles.antt: handles, getters and setters; Url/Host.antt and Url/Hostname.antt:
-- how the two host setters read their input; Url/DriveLetter.antt: the repair of a join;
-- Url/Resolve.antt: href from base and reference; Url/Query.antt: the encoding of a query with
-- numeric references; Url/Buffers.antt: the owned strings and their release.
--
-- src/rust/render/lib.rs. Render/Float.antt: the operations on `f32`; Render/Text.antt: a text as
-- `parley` shapes it; Render/Abi.antt: the types of the boundary. Render/Blocks.antt: spans and
-- blocks as they are handed over; Render/Flow.antt: `Renderer::layout`, with the styles and the
-- record `Parley` of what it asks `parley` for in Render/Flow/Styles.antt; Render/Export.antt:
-- `LayoutHandle::export`, the flat arrays that src/browser/pdf.zig reads, with what a reader looks
-- up in Render/Export/Reads.antt and the proof level by level in its other children;
-- Render/Handles.antt: `lp_layout_new` and `lp_layout_free`; Render/Raster.antt: the sizes of the
-- strip, the pixmap and the crop; Render/Draw.antt: the drawing, with, in
-- Render/Draw/Libraries.antt, `tiny_skia` as the record `Skia` and `skrifa` as the record `Skrifa`
-- (a glyph is the calls that it makes of `TinyPen`), and the glyph cache as an association list;
-- Render/Png.antt: `Renderer::render` and `lp_render_png` with `render_png`, with the encoder of
-- `png` as a tree of writes and the callback as a function of the calls before; a panic of the
-- layout, of a fill, of a glyph or of the encoder stops there and keeps the cache and the calls
-- before it. Render/Renderer.antt: `Renderer::new`, with `fontique` as the record `Fontique`, and
-- the handle of a renderer, with its calls. Render/SelfDescription.antt: `lp_render_abi`, on a
-- target of 32 and of 64 bits, with the boundary's structs as their layout sees them in
-- Render/SelfDescription/Structs.antt, and the layout that Rust documents for `#[repr(C)]` in
-- Render/CLayout.antt.
--
-- How they interact: an entry point of Parse.antt makes a sink of Dom/Sink.antt and gives it to
-- the parser; Url/Resolve.antt calls the drive letter repair and the query encoder, whose encoder
-- is that of Encoding.antt; `lp_layout_new` reads blocks, flows them and exports the result, and
-- `lp_render_png` draws it; the handles, the decoders, the streaming parsers and the layouts live
-- in heaps of Heap.antt.
--
-- Bytes and lengths are natural numbers. A `u32` counter wraps around at 2 ^ 32 as in a release
-- build (the template depth, the depth of unclosed elements, the indices of an exported layout), a
-- `usize` product at 2 ^ 64. `f32` is a type with operations, and the laws of IEEE 754 that a
-- theorem uses are the record `IsOrdered`. The loops that are not over a list, `encode_loop` of
-- Url/Query.antt and `feed_loop` of Xml/Document.antt, are on fuel: the number of the bytes and
-- one more, enough as a round that does not finish reads a byte or more. A panic is `none` where
-- it would cross the boundary, and a result where the source catches it.
--
-- Not modelled: src/rust/ffi, which only links the crates; and the Zig code.
pub mod Prelude
pub mod Markup
pub mod Ffi
pub mod Heap
pub mod Encoding
pub mod Prescan
pub mod Xml
pub mod Dom
pub mod Parse
pub mod Url
pub mod Render
