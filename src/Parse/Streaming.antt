-- ===== src/Parse/Streaming.antt =====
-- The streaming parser of src/rust/html5ever/lib.rs: a boxed parser behind a raw pointer.
pub mod Laws
pub mod Life
use lightpanda_browser.Prelude.{
  ℕ, Bool, true, false, ◌||◌, Option, none, some, Bytes, ◌==◌, if◌then◌else◌,
}
use lightpanda_browser.Prelude.Utf8.{from_utf8}
use lightpanda_browser.Ffi.{RawSlice, is_null, read, ℤ, pos, minus_one}
use lightpanda_browser.Heap.{Heap, null, into_raw, drop_raw, deref_mut}
use lightpanda_browser.Dom.Sink.{Ref, Zig}
use lightpanda_browser.Parse.{Html5ever, new_parse_sink}

module _ {D : Type 0} (zig : Zig D) (h5 : Html5ever D) where
  open h5 use {Parser}

  unfoldable pub html5ever_streaming_parser_create : Ref → Bool → D → Heap Parser → ℕ × Heap Parser
  unfolding new_parse_sink
  html5ever_streaming_parser_create document allow d =
      into_raw (h5.parse_document (new_parse_sink zig h5 d document allow) h5.default_opts)

  -- The closure under `catch_unwind`: the parser, with -1 if it panicked. Bytes that are not
  -- UTF-8 are left out.
  unfoldable pub feed_bytes : Bytes → Parser → Parser × ℤ
  unfolding from_utf8
  feed_bytes bytes parser = elim (from_utf8 bytes) [
    | none ↦ (parser, pos 0)
    | some s ↦ let (q, panicked) = h5.process parser s in (q, if panicked then minus_one else pos 0)
  ]

  -- The outer `none` is undefined behaviour: a dead pointer.
  unfoldable pub html5ever_streaming_parser_feed :
      ℕ → RawSlice → Heap Parser → Option (ℤ × Heap Parser)
  unfolding feed_bytes
  html5ever_streaming_parser_feed p html h =
      if p == null || is_null html.ptr || html.len == 0
      then some (pos 0, h)
      else deref_mut (feed_bytes (read html)) p h

  -- The box is taken back, and the Zig side is what `finish` leaves; `none` inside is a null
  -- pointer, with nothing finished. A panic of `finish` aborts (the outer `none`).
  unfoldable pub html5ever_streaming_parser_finish :
      ℕ → Heap Parser → Option (Option D × Heap Parser)
  html5ever_streaming_parser_finish p h = if p == null then some (none, h) else elim (h.cell p) [
    | none ↦ none
    | some parser ↦ elim (drop_raw p h) [
      | none ↦ none
      | some g ↦ elim (h5.finish parser) [ none ↦ none | some d ↦ some (some d, g) ]
    ]
  ]

  unfoldable pub html5ever_streaming_parser_destroy : ℕ → Heap Parser → Option (Heap Parser)
  html5ever_streaming_parser_destroy p h = if p == null then some h else drop_raw p h
