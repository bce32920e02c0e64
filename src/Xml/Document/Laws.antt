-- ===== src/Xml/Document/Laws.antt =====
-- Parsing an XML document ends, and an internal subset makes no difference.
use lightpanda_browser.Prelude.{
  ℕ, zero, suc, ◌+◌, ◌<◌, Bool, true, false, Bool-cases, inl, inr, List, [], ◌∷◌, ◌++◌, some, Bytes,
  codes, length, is_empty, ◌≡◌, refl, ap, ◌∙◌, arith, ◌||◌, ◌==◌,
}
use lightpanda_browser.Ffi.{RawSlice, is_null, read, slice_of}
use lightpanda_browser.Dom.Sink.{Ref}
use lightpanda_browser.Parse.{Piece, text, malformed}
use lightpanda_browser.Parse.Agreement.{read-slice_of, length-ne-zero}
use lightpanda_browser.Xml.Doctype.{position, strip_doctype_internal_subset}
use lightpanda_browser.Xml.Doctype.Subset.{IsHead, IsSubset, strip_subset, strip_without_subset}
use lightpanda_browser.Xml.Document.{
  Xml5ever, XmlDocumentParser, feed_loop, xml_process, xml_pieces, new_document_parser,
  parse_stripped, xml5ever_parse_document,
}

-- The tokenizer stops at a script behind the end tag of it, which it has read.
pub record Consumes {D : Type 0} (x5 : Xml5ever D) : Type 0 where
  pub consumes :
      (t : x5.Tokenizer) (buffer : Bytes)
      → (x5.feed t buffer).2 ≡ true
      → length (x5.feed t buffer).1 < length buffer

module _ {D : Type 0} (x5 : Xml5ever D) (reads : Consumes x5) where
  feed_loop_total :
      (fuel : ℕ) (p : XmlDocumentParser x5)
      → length p.input_buffer < fuel
      → (q : XmlDocumentParser x5) × (feed_loop x5 fuel p ≡ some q)
  unfolding feed_loop
  feed_loop_total zero p lt = absurd (omega (arith, lt))
  feed_loop_total (suc fuel) p lt = elim (Bool-cases (x5.feed p.tokenizer p.input_buffer).2) [
    | inl script ↦
        let less = reads.consumes p.tokenizer p.input_buffer script in
        rw (script, feed_loop) (feed_loop_total fuel _ (omega (arith, lt, less)))
    | inr done ↦ rw (done, feed_loop) (_, refl)
  ]

  xml_pieces_total :
      (pieces : List Piece) (p : XmlDocumentParser x5)
      → (q : XmlDocumentParser x5) × (xml_pieces x5 pieces p ≡ some q)
  unfolding xml_pieces xml_process
  xml_pieces_total [] p = (p, refl)
  xml_pieces_total (text t ∷ pieces) p =
      let buffer = p.input_buffer ++ t in
      let (q, fed) =
        feed_loop_total (length buffer + 1) (record p { input_buffer = buffer }) (omega arith) in
      rw (fed, xml_pieces, xml_process) (xml_pieces_total pieces q)
  xml_pieces_total (malformed desc ∷ pieces) p =
      xml_pieces_total pieces (record p { tokenizer = x5.error p.tokenizer desc })

  stripped_total :
      (bytes : Bytes) (document : Ref) (allow : Bool) (d : D)
      → (d' : D) × (parse_stripped x5 bytes document allow d ≡ some d')
  unfolding parse_stripped
  stripped_total bytes document allow d =
      let (q, parsed) =
        xml_pieces_total (x5.lossy bytes) (new_document_parser x5 d document allow) in
      rw (parsed, parse_stripped) (x5.finish q.tokenizer, refl)

  document_stripped :
      (s : Bytes) (document : Ref) (allow : Bool) (d : D)
      → is_empty s ≡ false
      → xml5ever_parse_document x5 (slice_of s) document allow d
        ≡ parse_stripped x5 (strip_doctype_internal_subset s) document allow d
  unfolding xml5ever_parse_document
  document_stripped s document allow d ne =
      rw (length-ne-zero s ne, read-slice_of s, xml5ever_parse_document) refl

  opening_there : (before rest : Bytes) → is_empty ((before ++ codes "<!DOCTYPE") ++ rest) ≡ false
  unfolding is_empty
  opening_there [] rest = refl
  opening_there (c ∷ before) rest = refl

  -- Parsing any bytes as a document, a null pointer or none at all included, ends with a result, if
  -- the tokenizer reads something in each round that stops at a script.
  pub xml5ever_parse_document-ends :
      (xml : RawSlice) (document : Ref) (allow : Bool) (d : D)
      → (d' : D) × (xml5ever_parse_document x5 xml document allow d ≡ some d')
  unfolding xml5ever_parse_document
  xml5ever_parse_document-ends xml document allow d =
      elim (Bool-cases (is_null xml.ptr || xml.len == 0)) [
        | inl nothing ↦ rw (nothing, xml5ever_parse_document) (d, refl)
        | inr there ↦
            rw (there, xml5ever_parse_document)
              (stripped_total (strip_doctype_internal_subset (read xml)) document allow d)
      ]

  -- If the first document type of a document has an internal subset, with the quotes before it and
  -- inside it in pairs, no `]` inside it but in quotes, and `]>` at its end, then parsing the
  -- document leaves what parsing it without the subset leaves. The condition on the tokenizer is
  -- that it reads something in each round that stops at a script.
  pub xml5ever_parse_document-subset :
      (before head subset after : Bytes) (document : Ref) (allow : Bool) (d : D)
      → IsHead head
      → IsSubset subset
      → position
          (codes "<!DOCTYPE")
          ((before ++ codes "<!DOCTYPE") ++ (head ++ (b'[' ∷ (subset ++ (b']' ∷ (b'>' ∷ after))))))
        ≡ some (length before)
      → position (codes "<!DOCTYPE") ((before ++ codes "<!DOCTYPE") ++ (head ++ (b'>' ∷ after)))
        ≡ some (length before)
      → (d' : D) × (xml5ever_parse_document x5
            (slice_of (
              (before ++ codes "<!DOCTYPE")
              ++ (head ++ (b'[' ∷ (subset ++ (b']' ∷ (b'>' ∷ after)))))))
            document
            allow
            d
          ≡ some d')
        × (xml5ever_parse_document x5
              (slice_of ((before ++ codes "<!DOCTYPE") ++ (head ++ (b'>' ∷ after))))
              document
              allow
              d
            ≡ some d')
  xml5ever_parse_document-subset before head subset after document allow d is_head is_subset e f =
      let plain = (before ++ codes "<!DOCTYPE") ++ (head ++ (b'>' ∷ after)) in
      let (d', parsed) = stripped_total plain document allow d in
      (
        d',
        document_stripped _ document allow d (opening_there before _)
            ∙ ap (λ s. parse_stripped x5 s document allow d)
                (strip_subset before head subset (b'>' ∷ after) is_head is_subset e)
            ∙ parsed,
        document_stripped plain document allow d (opening_there before _)
            ∙ ap (λ s. parse_stripped x5 s document allow d)
                (strip_without_subset before head after is_head f)
            ∙ parsed,
      )
