-- ===== src/Parse.antt =====
-- The entry points of src/rust/html5ever/lib.rs that parse HTML. The parser of `html5ever` is
-- third-party code: a record of what the code calls. The Zig side's state is inside the parser's
-- sink; an entry point takes it and gives the new one, and `none` is a panic, which aborts.
pub mod Streaming
pub mod Agreement
pub mod Fragment
mod Tests
use lightpanda_browser.Prelude.{
  ℕ, Bool, true, false, ◌||◌, List, [], ◌∷◌, Option, none, some, Bytes, codes, ◌==◌, if◌then◌else◌,
}
use lightpanda_browser.Prelude.Utf8.{from_utf8}
use lightpanda_browser.Ffi.{RawSlice, is_null, read}
use lightpanda_browser.Encoding.{EncodingRs}
use lightpanda_browser.Markup.{QualName}
use lightpanda_browser.Dom.Types.{create_name}
use lightpanda_browser.Dom.Sink.{
  Ref, new_element_data, no_quirks, create_context_element, Zig, Sink, call,
}

-- `ParseOpts`: the one field that the code sets, `tokenizer.discard_bom`.
pub record ParseOpts : Type 0 where
  pub discard_bom : Bool

-- A call that `Utf8LossyDecoder` makes on the sink behind it.
pub data Piece : Type 0 where
  text malformed : Bytes → Piece

pub record Html5ever (D : Type 0) : Type 1 where
  pub Parser : Type 0
  pub default_opts : ParseOpts
  pub parse_document : Sink D → ParseOpts → Parser
  -- The context element, whether it allows scripting, and the form element.
  pub parse_fragment_for_element : Sink D → ParseOpts → Ref → Bool → Option Ref → Parser
  -- The parser, and whether the call panicked.
  pub process : Parser → Bytes → Parser × Bool
  pub error : Parser → Bytes → Parser
  -- The Zig side behind the end of the input.
  pub finish : Parser → Option D
  -- What `from_utf8()` makes of the bytes of a document.
  pub lossy : Bytes → List Piece

-- `LocalName::from`, and `ns!(html)`.
abbrev pub html_namespace : Bytes
html_namespace = codes "http://www.w3.org/1999/xhtml"

-- The name of the context element.
unfoldable pub context_local : RawSlice → Bytes
unfolding from_utf8 read
context_local context_name =
    if is_null context_name.ptr || context_name.len == 0
    then codes "body"
    else elim (from_utf8 (read context_name)) [ none ↦ codes "body" | some name ↦ name ]

unfoldable pub context_qname : RawSlice → QualName
unfolding context_local
context_qname context_name = record {
  prefix = none;
  ns = html_namespace;
  local = context_local context_name;
}

module _ {D : Type 0} (zig : Zig D) (h5 : Html5ever D) where
  open h5 use {Parser}

  -- The sink of a new parse.
  unfoldable pub new_parse_sink : D → Ref → Bool → Sink D
  new_parse_sink d document allow_declarative_shadow = record {
    dom = d;
    document = document;
    arena = [];
    quirks_mode = no_quirks;
    allow_declarative_shadow = allow_declarative_shadow;
  }

  -- `process` where a panic is not caught.
  unfoldable pub process_or_abort : Parser → Bytes → Option Parser
  process_or_abort p t = let (q, panicked) = h5.process p t in if panicked then none else some q

  unfoldable pub process_pieces : Parser → List Piece → Option Parser
  process_pieces p [] = some p
  process_pieces p (text t ∷ pieces) = elim (process_or_abort p t) [
    | none ↦ none
    | some q ↦ process_pieces q pieces
  ]
  process_pieces p (malformed t ∷ pieces) = process_pieces (h5.error p t) pieces

  abbrev finish_parsed : Option Parser → Option D
  finish_parsed none = none
  finish_parsed (some p) = h5.finish p

  -- `.from_utf8().one(bytes)`.
  unfoldable pub one_lossy : Parser → Bytes → Option D
  unfolding process_pieces process_or_abort
  one_lossy p bytes = finish_parsed (process_pieces p (h5.lossy bytes))

  -- `.one(StrTendril::from(text))`.
  unfoldable pub one_text : Parser → Bytes → Option D
  unfolding process_or_abort
  one_text p t = finish_parsed (process_or_abort p t)

  unfoldable pub html5ever_parse_document : (html : RawSlice) → Ref → Bool → D → Option D
  unfolding one_lossy new_parse_sink
  html5ever_parse_document html document allow d =
      if is_null html.ptr || html.len == 0
      then some d
      else one_lossy (h5.parse_document (new_parse_sink d document allow) h5.default_opts)
          (read html)

  unfoldable pub html5ever_parse_document_with_encoding :
      (e : EncodingRs) → (html charset : RawSlice) → Ref → Bool → D → Option D
  unfolding one_text new_parse_sink
  html5ever_parse_document_with_encoding e html charset document allow d =
      if is_null html.ptr || html.len == 0
      then some d
      else let parser = h5.parse_document (new_parse_sink d document allow) h5.default_opts in
        elim (e.for_label (read charset)) [
          | none ↦ one_text parser (e.decode e.utf_8 (read html))
          | some encoding ↦ one_text parser (e.decode encoding (read html))
        ]

  -- The sink of a fragment, and its context element, whose data is the first of the arena.
  unfoldable pub fragment_context : (context_name : RawSlice) → Ref → Bool → D → Sink D × Ref
  unfolding new_parse_sink context_qname
  fragment_context context_name document allow d =
      let name = context_qname context_name in
      call zig (create_context_element 0 (create_name name) (record { vec = []; pos = 0 }))
        (record (new_parse_sink d document allow) { arena = new_element_data name false ∷ [] })

  -- A leading U+FEFF is kept.
  unfoldable pub html5ever_parse_fragment :
      (html context_name : RawSlice) → Ref → Bool → D → Option D
  unfolding one_lossy fragment_context
  html5ever_parse_fragment html context_name document allow d =
      if is_null html.ptr || html.len == 0
      then some d
      else let (sink, context_elem) = fragment_context context_name document allow d in
        one_lossy
          (h5.parse_fragment_for_element sink (record h5.default_opts { discard_bom = false })
            context_elem false none)
          (read html)
