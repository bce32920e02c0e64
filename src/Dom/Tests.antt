-- ===== src/Dom/Tests.antt =====
-- The C types and the sink, at concrete names, attributes and nodes.
use lightpanda_browser.Prelude.{
  ℕ, eq_bytes, ◌+◌, true, false, List, [], ◌∷◌, ◌++◌, none, some, codes, ◌≡◌, ◌↔◌, refl,
}
use lightpanda_browser.Markup.{QualName, Attribute}
use lightpanda_browser.Prelude.Slices.{get_elem?}
use lightpanda_browser.Dom.Types.{create_name, attribute_iterator_count}
use lightpanda_browser.Dom.Types.Iterate.{
  read_name, read_name-create_name, drain, drain_all, next_stays,
}
use lightpanda_browser.Dom.Sink.{
  append_text, no_quirks, node_or_text, mode_is_open, Sink, elem_name,
  is_mathml_annotation_xml_integration_point, sink_create_element,
}
use lightpanda_browser.Dom.Sink.Calls.{
  read_child, read_child-node_or_text, mode_is_open_first, mode_is_open_missing,
}
use lightpanda_browser.Dom.Sink.Names.{comment, pop, perform_all, elem_name-create_element}
use lightpanda_browser.Dom.Example.{listing, listing-KeepsData}

abbrev svg_name : QualName
svg_name = record { prefix = some []; ns = codes "http://www.w3.org/2000/svg"; local = codes "g" }

abbrev mode : Attribute
mode = record {
  name = record { prefix = none; ns = []; local = codes "shadowrootmode" };
  value = codes "open";
}

abbrev id_attribute : Attribute
id_attribute = record { name = record { prefix = none; ns = []; local = codes "id" }; value = [] }

read_name-create_name_test : read_name (create_name svg_name) ≡ svg_name
read_name-create_name_test = read_name-create_name svg_name

drain_all_example :
    drain
      (attribute_iterator_count (record { vec = id_attribute ∷ mode ∷ []; pos = 0 }) + 1)
      (record { vec = id_attribute ∷ mode ∷ []; pos = 0 })
    ≡ some (id_attribute ∷ mode ∷ [], record { vec = id_attribute ∷ mode ∷ []; pos = 2 })
drain_all_example = drain_all (id_attribute ∷ mode ∷ [])

next_stays_test :
    drain 2 (record { vec = mode ∷ []; pos = 1 }) ≡ some ([], record { vec = mode ∷ []; pos = 1 })
next_stays_test = next_stays (mode ∷ []) 2

read_child-node_or_text_test : read_child (node_or_text (append_text [])) ≡ append_text []
read_child-node_or_text_test = read_child-node_or_text (append_text [])

mode_is_open_first_test :
    (mode_is_open ((id_attribute ∷ []) ++ (mode ∷ [])) ≡ true) ↔ (mode.value ≡ codes "open")
unfolding eq_bytes
mode_is_open_first_test = mode_is_open_first (id_attribute ∷ []) mode [] (refl, tt) refl

mode_is_open_missing_test : mode_is_open (id_attribute ∷ []) ≡ true
unfolding eq_bytes
mode_is_open_missing_test = mode_is_open_missing (id_attribute ∷ []) (refl, tt)

abbrev no_elements : Sink (List ℕ)
no_elements = record {
  dom = [];
  document = 0;
  arena = [];
  quirks_mode = no_quirks;
  allow_declarative_shadow = false;
}

elem_name-create_element_example :
    let made = sink_create_element listing svg_name (id_attribute ∷ []) false no_elements in
    (elem_name listing made.1 (perform_all listing (pop 0 ∷ comment [] ∷ []) made.0)
      ≡ some svg_name)
    × (is_mathml_annotation_xml_integration_point listing made.1
          (perform_all listing (pop 0 ∷ comment [] ∷ []) made.0)
        ≡ some false)
elem_name-create_element_example =
    elem_name-create_element listing get_elem? listing-KeepsData svg_name (id_attribute ∷ []) false
      no_elements (pop 0 ∷ comment [] ∷ [])
