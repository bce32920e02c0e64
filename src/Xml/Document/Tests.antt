-- ===== src/Xml/Document/Tests.antt =====
-- A document with an internal subset, at a tokenizer that stops at each `s`.
use lightpanda_browser.Prelude.{
  [], ◌∷◌, ◌++◌, Bool, true, false, some, Bytes, codes, eq_bytes, ◌==◌, if◌then◌else◌, ◌≡◌, refl,
  arith, length, ◌<◌,
}
use lightpanda_browser.Ffi.{slice_of}
use lightpanda_browser.Parse.{text}
use lightpanda_browser.Xml.Example.{IsHead-x, quoted_bracket}
use lightpanda_browser.Xml.Doctype.{position}
use lightpanda_browser.Xml.Document.{Xml5ever, xml5ever_parse_document}
use lightpanda_browser.Xml.Document.Laws.{
  Consumes, xml5ever_parse_document-subset, xml5ever_parse_document-ends,
}

abbrev feed_byte : Bytes → Bytes → Bytes × Bytes × Bool
feed_byte t [] = (t, [], false)
feed_byte t (c ∷ cs) = if c == b's' then (t ++ c ∷ [], cs, true) else (t ++ c ∷ cs, [], false)

abbrev keeping : Xml5ever Bytes
keeping = record {
  Builder = Bytes;
  Result = Unit {0};
  Tokenizer = Bytes;
  builder = λ sink. sink.dom;
  process = λ b t. (b, tt);
  parse_error = λ b desc. b;
  tokenizer = λ process s. s.tb;
  feed = feed_byte;
  error = λ t desc. t;
  finish = λ t. t;
  lossy = λ bytes. text bytes ∷ [];
}

keeping-Consumes : Consumes keeping
keeping-Consumes = record { consumes = by_cases }
  where
    by_cases :
        (t buffer : Bytes)
        → (feed_byte t buffer).2 ≡ true
        → length (feed_byte t buffer).1 < length buffer
    by_cases t [] e = absurd (ground (arith, e))
    by_cases t (c ∷ cs) e = ground (arith, e)

xml5ever_parse_document-subset_example :
    (d' : Bytes) × (xml5ever_parse_document keeping
        (slice_of (codes "<?xml?><!DOCTYPE x [a\"]\"]><r/>"))
        1
        false
        []
      ≡ some d')
    × (xml5ever_parse_document keeping (slice_of (codes "<?xml?><!DOCTYPE x ><r/>")) 1 false []
        ≡ some d')
unfolding position eq_bytes
xml5ever_parse_document-subset_example =
    xml5ever_parse_document-subset keeping keeping-Consumes (codes "<?xml?>") (codes " x ")
      (codes "a\"]\"") (codes "<r/>") 1 false [] IsHead-x quoted_bracket refl refl

xml5ever_parse_document-ends_example :
    (d' : Bytes) × (xml5ever_parse_document keeping (slice_of (codes "<r>s</r>")) 1 false []
      ≡ some d')
xml5ever_parse_document-ends_example =
    xml5ever_parse_document-ends keeping keeping-Consumes (slice_of (codes "<r>s</r>")) 1 false []
