-- ===== src/Parse/Tests.antt =====
-- The entry points, at a parser whose document is the text that it has seen.
use lightpanda_browser.Prelude.{
  Bool, false, ◌==◌, ℕ, codes, true, false, [], ◌∷◌, ◌++◌, none, some, List, Bytes, ◌≡◌, refl,
  is_empty, arith,
}
use lightpanda_browser.Prelude.Utf8.{is_utf8}
use lightpanda_browser.Ffi.{minus_one, slice_of, read, pos, ℤ}
use lightpanda_browser.Heap.{Heap, update, into_raw, deref_mut}
use lightpanda_browser.Heap.Laws.{IsHeap}
use lightpanda_browser.Prelude.Slices.{get_elem?}
use lightpanda_browser.Dom.Sink.{
  Ref, Zig, Sink, elem_name, is_mathml_annotation_xml_integration_point,
}
use lightpanda_browser.Dom.Sink.Names.{comment, perform_all}
use lightpanda_browser.Dom.Example.{listing, listing-KeepsData}
use lightpanda_browser.Encoding.Example.{copying}
use lightpanda_browser.Parse.{
  new_parse_sink, Html5ever, text, html5ever_parse_document, html5ever_parse_document_with_encoding,
  html5ever_parse_fragment, one_lossy,
}
use lightpanda_browser.Parse.Fragment.{html_name, Asked, parse_fragment-context}
use lightpanda_browser.Parse.Agreement.{
  PassesText, DecodesUtf8, starts_with_bom, parse_document-with_encoding,
}
use lightpanda_browser.Parse.Streaming.{
  html5ever_streaming_parser_create, html5ever_streaming_parser_feed,
  html5ever_streaming_parser_finish, html5ever_streaming_parser_destroy,
}
use lightpanda_browser.Parse.Streaming.Life.{Fed, here, next, streaming_parser_ends}
use lightpanda_browser.Parse.Streaming.Laws.{stream, texts, fed, answers, stream-fed, finished}

abbrev quiet : Zig Bytes
quiet d c = (d, 0)

abbrev begins_tag : Bytes → Bool
begins_tag [] = false
begins_tag (c ∷ _) = c == 60

abbrev collecting : Html5ever Bytes
collecting = record {
  Parser = Bytes;
  default_opts = record { discard_bom = true };
  parse_document = λ sink opts. sink.dom;
  parse_fragment_for_element = λ sink opts element scripting form. sink.dom;
  process = λ p s. (p ++ s, false);
  error = λ p s. p;
  finish = λ p. some p;
  lossy = λ s. text s ∷ [];
}

collecting-PassesText : PassesText collecting
collecting-PassesText = record { passes = λ s valid ne. refl }

abbrev no_parsers : Heap Bytes
no_parsers = record { next = 8; cell = λ p. none }

no_parsers-IsHeap : IsHeap no_parsers
no_parsers-IsHeap = record { positive = omega arith; null_dead = refl; fresh_dead = λ p le. refl }

copying-DecodesUtf8 : DecodesUtf8 copying
copying-DecodesUtf8 = record { decodes = λ s valid plain. refl }

parse_document-with_encoding_test :
    html5ever_parse_document_with_encoding quiet collecting copying
      (slice_of (60 ∷ 97 ∷ []))
      (slice_of (117 ∷ []))
      1
      false
      []
    ≡ html5ever_parse_document quiet collecting (slice_of (60 ∷ 97 ∷ [])) 1 false []
unfolding is_utf8 is_empty starts_with_bom
parse_document-with_encoding_test =
    parse_document-with_encoding quiet collecting collecting-PassesText copying
      (slice_of (117 ∷ [])) (60 ∷ 97 ∷ []) 1 false [] copying-DecodesUtf8 refl refl refl
      (λ label e. refl)

-- A parser that panics on a `<`, and keeps it.
abbrev fragile : Html5ever Bytes
fragile = record collecting { process = λ p s. (p ++ s, begins_tag s) }

-- The second chunk makes it panic, the third one is empty, and the fourth one is half a character.
abbrev chunks : List Bytes
chunks = (0xc3 ∷ 0xa9 ∷ []) ∷ (60 ∷ 97 ∷ []) ∷ [] ∷ (0xc3 ∷ []) ∷ (98 ∷ []) ∷ []

stream-fed_example :
    stream quiet fragile chunks 1 false [] no_parsers
    ≡ some (
      pos 0 ∷ minus_one ∷ pos 0 ∷ pos 0 ∷ pos 0 ∷ [],
      some (0xc3 ∷ 0xa9 ∷ 60 ∷ 97 ∷ 98 ∷ []),
      record no_parsers { next = 9 },
    )
unfolding is_utf8 is_empty texts fed answers new_parse_sink
stream-fed_example = stream-fed quiet fragile chunks 1 false [] no_parsers no_parsers-IsHeap

abbrev fed_parser : Heap Bytes
fed_parser = record no_parsers {
  next = 9;
  cell = update (update (λ p. none) 8 (some [])) 8 (some (60 ∷ []));
}

begun_Fed :
    Fed quiet collecting 8
      (html5ever_streaming_parser_create quiet collecting 1 false [] no_parsers).1
      fed_parser
unfolding html5ever_streaming_parser_create html5ever_streaming_parser_feed is_utf8 deref_mut
    into_raw update read
begun_Fed = next (slice_of (60 ∷ [])) (pos 0) fed_parser here refl

-- Half a character follows.
streaming_parser_ends_example :
    (q : Bytes) × (code : ℤ) × (g' : Heap Bytes) × (fed_parser.cell 8 ≡ some q)
    × (html5ever_streaming_parser_feed quiet collecting 8 (slice_of (0xc3 ∷ [])) fed_parser
        ≡ some (code, g'))
    × (html5ever_streaming_parser_destroy quiet collecting 8 fed_parser
        ≡ some (record no_parsers { next = 9 }))
    × (html5ever_streaming_parser_finish quiet collecting 8 fed_parser
        ≡ finished quiet collecting (record no_parsers { next = 9 }) (some q))
unfolding html5ever_streaming_parser_create into_raw
streaming_parser_ends_example =
    streaming_parser_ends quiet collecting no_parsers no_parsers-IsHeap 1 false []
      (slice_of (0xc3 ∷ [])) begun_Fed

-- A parser that leaves the document alone.
abbrev idle : Html5ever (List ℕ)
idle = record {
  Parser = List ℕ;
  default_opts = record { discard_bom = true };
  parse_document = λ sink opts. sink.dom;
  parse_fragment_for_element = λ sink opts element scripting form. sink.dom;
  process = λ p s. (p, false);
  error = λ p s. p;
  finish = λ p. some p;
  lossy = λ s. text s ∷ [];
}

-- A fragment of a table row; a comment is made before the context is asked for again.
parse_fragment-context_example :
    (s : Sink (List ℕ)) × (r : Ref) × (local : Bytes) × (html5ever_parse_fragment listing idle
        (slice_of (60 ∷ []))
        (slice_of (codes "tr"))
        1
        false
        []
      ≡ one_lossy listing idle
          (idle.parse_fragment_for_element s
            (record idle.default_opts { discard_bom = false })
            r
            false
            none)
          (read (slice_of (60 ∷ []))))
    × (elem_name listing r (perform_all listing (comment [] ∷ []) s) ≡ some (html_name local))
    × (is_mathml_annotation_xml_integration_point listing r
          (perform_all listing (comment [] ∷ []) s)
        ≡ some false)
    × Asked (slice_of (codes "tr")) local
parse_fragment-context_example =
    parse_fragment-context listing idle get_elem? listing-KeepsData (slice_of (60 ∷ []))
      (slice_of (codes "tr")) 1 false [] (comment [] ∷ []) refl (omega arith)
