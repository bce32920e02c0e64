-- ===== src/Parse/Agreement.antt =====
-- The two entry points that parse a document (src/rust/html5ever/lib.rs) agree on UTF-8.
use lightpanda_browser.Prelude.{
  Bool, true, false, ◌&&◌, [], ◌∷◌, some, Bytes, ◌==◌, is_empty, length, take-length, ◌≡◌, arith,
  Option-cases, inl, inr,
}
use lightpanda_browser.Prelude.Utf8.{is_utf8}
use lightpanda_browser.Ffi.{RawSlice, slice_of, read}
use lightpanda_browser.Encoding.{EncodingRs}
use lightpanda_browser.Dom.Sink.{Ref, Zig}
use lightpanda_browser.Parse.{
  text, Html5ever, new_parse_sink, process_pieces, process_or_abort, one_lossy, one_text,
  html5ever_parse_document, html5ever_parse_document_with_encoding,
}

-- What `Utf8LossyDecoder` documents: a text in UTF-8 goes to the parser in one piece.
pub record PassesText {D : Type 0} (h5 : Html5ever D) : Type 0 where
  pub passes : (s : Bytes) → is_utf8 s ≡ true → is_empty s ≡ false → h5.lossy s ≡ text s ∷ []

unfoldable pub starts_with_bom : Bytes → Bool
starts_with_bom (a ∷ b ∷ c ∷ _) = a == 0xef && b == 0xbb && c == 0xbf
starts_with_bom _ = false

-- What `encoding_rs` documents: UTF-8 is decoded into itself, but for a leading mark.
pub record DecodesUtf8 (e : EncodingRs) : Type 0 where
  pub decodes : (s : Bytes) → is_utf8 s ≡ true → starts_with_bom s ≡ false → e.decode e.utf_8 s ≡ s

pub read-slice_of : (s : Bytes) → read (slice_of s) ≡ s
unfolding read
read-slice_of s = take-length s

pub length-ne-zero : (s : Bytes) → is_empty s ≡ false → (length s == 0) ≡ false
unfolding is_empty
length-ne-zero [] ne = cc
length-ne-zero (c ∷ s) ne = ground arith

module _ {D : Type 0} (zig : Zig D) (h5 : Html5ever D) (reads : PassesText h5) where
  pub one_lossy-one_text :
      (p : h5.Parser) (s : Bytes)
      → is_utf8 s ≡ true
      → is_empty s ≡ false
      → one_lossy zig h5 p s ≡ one_text zig h5 p s
  unfolding one_lossy one_text process_pieces
  one_lossy-one_text p s valid ne =
      rw (reads.passes s valid ne, one_lossy)
        (elim (Option-cases (process_or_abort zig h5 p s)) [
          | inl e ↦ rw (e, process_pieces)
          | inr (q, e) ↦ rw (e, process_pieces)
        ])

  -- A text in UTF-8 that is not empty is read to the end, in one piece.
  pub parse_document_text :
      (s : Bytes) (document : Ref) (allow : Bool) (d : D)
      → is_utf8 s ≡ true
      → is_empty s ≡ false
      → html5ever_parse_document zig h5 (slice_of s) document allow d
        ≡ one_text zig h5
            (h5.parse_document (new_parse_sink zig h5 d document allow) h5.default_opts)
            s
  unfolding html5ever_parse_document
  parse_document_text s document allow d valid ne =
      rw (length-ne-zero s ne, read-slice_of s, html5ever_parse_document)
        (one_lossy-one_text _ s valid ne)

  -- For a text in UTF-8 that starts with no byte order mark, and a label that names UTF-8 or no
  -- encoding, the entry point with an encoding does what the one without does, a panic included.
  pub parse_document-with_encoding :
      (e : EncodingRs) (charset : RawSlice) (s : Bytes) (document : Ref) (allow : Bool) (d : D)
      → DecodesUtf8 e
      → is_utf8 s ≡ true
      → is_empty s ≡ false
      → starts_with_bom s ≡ false
      → ((label : e.Encoding) → e.for_label (read charset) ≡ some label → label ≡ e.utf_8)
      → html5ever_parse_document_with_encoding zig h5 e (slice_of s) charset document allow d
        ≡ html5ever_parse_document zig h5 (slice_of s) document allow d
  unfolding html5ever_parse_document_with_encoding
  parse_document-with_encoding e charset s document allow d decodes valid ne plain utf8 =
      rw (parse_document_text s document allow d valid ne)
        (elim (Option-cases (e.for_label (read charset))) [
          | inl missing ↦ rw (
            length-ne-zero s ne,
            missing,
            read-slice_of s,
            decodes.decodes s valid plain,
            html5ever_parse_document_with_encoding,
          )
          | inr (label, named) ↦ rw (
            length-ne-zero s ne,
            named,
            read-slice_of s,
            utf8 label named,
            decodes.decodes s valid plain,
            html5ever_parse_document_with_encoding,
          )
        ])
