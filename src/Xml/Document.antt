-- ===== src/Xml/Document.antt =====
-- `xml5ever_parse_document` and `XmlDocumentParser` (src/rust/html5ever/lib.rs). The tokenizer and
-- the tree builder of `xml5ever` are third-party code: a record of what the code calls.
pub mod Laws
mod Tests
use lightpanda_browser.Prelude.{
  ℕ, zero, suc, ◌+◌, Bool, true, false, ◌||◌, List, [], ◌∷◌, ◌++◌, Option, none, some, Bytes, ◌==◌,
  if◌then◌else◌, length,
}
use lightpanda_browser.Ffi.{RawSlice, is_null, read}
use lightpanda_browser.Dom.Sink.{Ref, Sink, no_quirks}
use lightpanda_browser.Parse.{Piece, text, malformed}
use lightpanda_browser.Xml.Doctype.{strip_doctype_internal_subset}
use lightpanda_browser.Xml.Unclosed.{Token, UnclosedTagSink, process_token}

pub record Xml5ever (D : Type 0) : Type 1 where
  pub Builder : Type 0
  pub Result : Type 0
  pub Tokenizer : Type 0
  pub builder : Sink D → Builder
  -- `process_token` of the tree builder, and `parse_error` of the sink inside it.
  pub process : Builder → Token → Builder × Result
  pub parse_error : Builder → Bytes → Builder
  -- The tokenizer, by the token sink that it calls.
  pub tokenizer :
      (UnclosedTagSink Builder → Token → UnclosedTagSink Builder × Result)
      → UnclosedTagSink Builder
      → Tokenizer
  -- The tokenizer, what is left of the input, and whether it stopped at a script.
  pub feed : Tokenizer → Bytes → Tokenizer × Bytes × Bool
  -- `tokenizer.sink.tb.sink.parse_error(desc)`.
  pub error : Tokenizer → Bytes → Tokenizer
  -- The end of the input, and the Zig side behind it.
  pub finish : Tokenizer → D
  -- What `Utf8LossyDecoder` makes of the bytes of a document.
  pub lossy : Bytes → List Piece

module _ {D : Type 0} (x5 : Xml5ever D) where
  open x5 use {Builder, Tokenizer}

  pub record XmlDocumentParser : Type 0 where
    pub tokenizer : Tokenizer
    pub input_buffer : Bytes

  -- `while let Script(_) = feed(…) {}`; `none` is out of fuel.
  unfoldable pub feed_loop : ℕ → XmlDocumentParser → Option XmlDocumentParser
  feed_loop zero p = none
  feed_loop (suc fuel) p =
      let (t, rest, script) = x5.feed p.tokenizer p.input_buffer in
      let next : XmlDocumentParser = record { tokenizer = t; input_buffer = rest } in
      let more = feed_loop fuel next in if script then more else some next

  -- A round that stops at a script has read at least one byte.
  unfoldable pub xml_process : Bytes → XmlDocumentParser → Option XmlDocumentParser
  unfolding feed_loop
  xml_process t p =
      let buffer = p.input_buffer ++ t in
      feed_loop (length buffer + 1) (record p { input_buffer = buffer })

  unfoldable pub xml_pieces : List Piece → XmlDocumentParser → Option XmlDocumentParser
  unfolding xml_process
  xml_pieces [] p = some p
  xml_pieces (text t ∷ pieces) p = elim (xml_process t p) [
    | none ↦ none
    | some q ↦ xml_pieces pieces q
  ]
  xml_pieces (malformed desc ∷ pieces) p =
      xml_pieces pieces (record p { tokenizer = x5.error p.tokenizer desc })

  unfoldable pub new_document_parser : D → Ref → Bool → XmlDocumentParser
  unfolding process_token
  new_document_parser d document allow_declarative_shadow =
      let sink : Sink D = record {
        dom = d;
        document = document;
        arena = [];
        quirks_mode = no_quirks;
        allow_declarative_shadow = allow_declarative_shadow;
      } in
      record {
        tokenizer =
            x5.tokenizer (process_token x5.process x5.parse_error)
              (record { tb = x5.builder sink; depth = 0 });
        input_buffer = [];
      }

  -- The decoder, over the bytes that are left of the document.
  unfoldable pub parse_stripped : Bytes → Ref → Bool → D → Option D
  unfolding xml_pieces new_document_parser
  parse_stripped bytes document allow d =
      elim (xml_pieces (x5.lossy bytes) (new_document_parser d document allow)) [
        | none ↦ none
        | some p ↦ some (x5.finish p.tokenizer)
      ]

  unfoldable pub xml5ever_parse_document : (xml : RawSlice) → Ref → Bool → D → Option D
  unfolding parse_stripped strip_doctype_internal_subset
  xml5ever_parse_document xml document allow d =
      if is_null xml.ptr || xml.len == 0
      then some d
      else parse_stripped (strip_doctype_internal_subset (read xml)) document allow d
