-- ===== src/Dom/Sink/Names.antt =====
-- The names of elements outlive everything that the tree builder does
-- (src/rust/html5ever/sink.rs).
use lightpanda_browser.Prelude.{
  ℕ, Bool, List, [], ◌∷◌, ◌++◌, Option, some, Bytes, length, ◌≡◌, refl, suc, zero,
}
use lightpanda_browser.Markup.{QualName, Attribute}
use lightpanda_browser.Prelude.Slices.{get_elem?}
use lightpanda_browser.Dom.Types.{CQualName, CAttributeIterator}
use lightpanda_browser.Dom.Sink.{
  Ref, ElementData, NodeOrText, QuirksMode, Call, get_data, create_element, create_context_element,
  Zig, Sink, call, sink_parse_error, set_quirks_mode, data_at, elem_name,
  is_mathml_annotation_xml_integration_point, sink_get_template_contents, sink_pop,
  sink_create_element, sink_create_comment, sink_create_pi, sink_append, sink_append_before_sibling,
  sink_append_based_on_parent_node, sink_append_doctype_to_document, sink_add_attrs_if_missing,
  sink_remove_from_parent, sink_reparent_children, sink_attach_declarative_shadow,
}

-- What the sink relies on: a node keeps the data pointer that it was created with.
pub record KeepsData {D : Type 0} (zig : Zig D) (data_of : D → Ref → Option ℕ) : Type 0 where
  pub answers : (d : D) (r : Ref) (p : ℕ) → data_of d r ≡ some p → (zig d (get_data r)).1 ≡ p
  pub created :
      (d : D) (p : ℕ) (n : CQualName) (a : CAttributeIterator)
      → data_of (zig d (create_element p n a)).0 (zig d (create_element p n a)).1 ≡ some p
  pub created_context :
      (d : D) (p : ℕ) (n : CQualName) (a : CAttributeIterator)
      → data_of (zig d (create_context_element p n a)).0 (zig d (create_context_element p n a)).1
        ≡ some p
  pub kept :
      (d : D) (c : Call) (r : Ref) (p : ℕ) → data_of d r ≡ some p → data_of (zig d c).0 r ≡ some p

-- What the tree builder does to the sink.
pub data Method : Type 0 where
  parse_error : Bytes → Method
  set_quirks : QuirksMode → Method
  template_contents pop remove_from_parent : Ref → Method
  element : QualName → List Attribute → Bool → Method
  comment : Bytes → Method
  pi : (target text : Bytes) → Method
  append append_before : Ref → NodeOrText → Method
  append_based : Ref → Ref → NodeOrText → Method
  doctype : (name public_id system_id : Bytes) → Method
  add_attrs : Ref → List Attribute → Method
  reparent : Ref → Ref → Method
  attach_shadow : Ref → Ref → List Attribute → Method

module _ {D : Type 0} (zig : Zig D) where
  unfoldable pub perform : Method → Sink D → Sink D
  perform (parse_error m) s = sink_parse_error zig m s
  perform (set_quirks m) s = set_quirks_mode zig m s
  perform (template_contents r) s = (sink_get_template_contents zig r s).0
  perform (pop r) s = sink_pop zig r s
  perform (remove_from_parent r) s = sink_remove_from_parent zig r s
  perform (element n a f) s = (sink_create_element zig n a f s).0
  perform (comment t) s = (sink_create_comment zig t s).0
  perform (pi t d) s = (sink_create_pi zig t d s).0
  perform (append r c) s = sink_append zig r c s
  perform (append_before r c) s = sink_append_before_sibling zig r c s
  perform (append_based r q c) s = sink_append_based_on_parent_node zig r q c s
  perform (doctype n p i) s = sink_append_doctype_to_document zig n p i s
  perform (add_attrs r a) s = sink_add_attrs_if_missing zig r a s
  perform (reparent r q) s = sink_reparent_children zig r q s
  perform (attach_shadow r q a) s = (sink_attach_declarative_shadow zig r q a s).0

  unfoldable pub perform_all : List Method → Sink D → Sink D
  perform_all [] s = s
  perform_all (m ∷ ms) s = perform_all ms (perform m s)

pub get_elem?-snoc :
    {A : Type 0} (xs : List A) (y : A) (i : ℕ) {a : A}
    → get_elem? xs i ≡ some a
    → get_elem? (xs ++ y ∷ []) i ≡ some a
unfolding get_elem?
get_elem?-snoc [] y i e = cc
get_elem?-snoc (x ∷ xs) y zero e = e
get_elem?-snoc (x ∷ xs) y (suc i) e = get_elem?-snoc xs y i e

pub get_elem?_last :
    {A : Type 0} (xs : List A) (a : A) → get_elem? (xs ++ a ∷ []) (length xs) ≡ some a
unfolding get_elem?
get_elem?_last [] a = refl
get_elem?_last (x ∷ xs) a = get_elem?_last xs a

module _ {D : Type 0} (zig : Zig D) (data_of : D → Ref → Option ℕ) (k : KeepsData zig data_of) where
  -- The node `r` has the data `e`, at place `p` of the arena.
  pub record Holds (r : Ref) (p : ℕ) (e : ElementData) (s : Sink D) : Type 0 where
    pub place : data_of s.dom r ≡ some p
    pub stored : get_elem? s.arena p ≡ some e

  call-Holds :
      {r : Ref} {p : ℕ} {e : ElementData} (c : Call) (s : Sink D)
      → Holds r p e s
      → Holds r p e (call zig c s).0
  unfolding call
  call-Holds {r} {p} c s h = record { place = k.kept s.dom c r p h.place; stored = h.stored }

  perform-Holds :
      {r : Ref} {p : ℕ} {e : ElementData} (m : Method) (s : Sink D)
      → Holds r p e s
      → Holds r p e (perform zig m s)
  unfolding perform sink_parse_error set_quirks_mode sink_get_template_contents sink_pop
      sink_create_element sink_create_comment sink_create_pi sink_append sink_append_before_sibling
      sink_append_based_on_parent_node sink_append_doctype_to_document sink_add_attrs_if_missing
      sink_remove_from_parent sink_reparent_children sink_attach_declarative_shadow
  perform-Holds (set_quirks m) s h = record { place = h.place; stored = h.stored }
  perform-Holds (element n a f) s h =
      call-Holds _
        (record s {
          arena = s.arena ++ record { qname = n; mathml_annotation_xml_integration_point = f } ∷ [];
        })
        (record { place = h.place; stored = get_elem?-snoc s.arena _ _ h.stored })
  perform-Holds (parse_error _) s h = call-Holds _ s h
  perform-Holds _ s h = call-Holds _ s h

  perform_all-Holds :
      {r : Ref} {p : ℕ} {e : ElementData} (ms : List Method) (s : Sink D)
      → Holds r p e s
      → Holds r p e (perform_all zig ms s)
  unfolding perform_all
  perform_all-Holds [] s h = h
  perform_all-Holds (m ∷ ms) s h = perform_all-Holds ms (perform zig m s) (perform-Holds m s h)

  data_at-Holds :
      {r : Ref} {p : ℕ} {e : ElementData} (s : Sink D) → Holds r p e s → data_at zig r s ≡ some e
  unfolding data_at call
  data_at-Holds {r} {p} s h = rw (k.answers s.dom r p h.place) h.stored

  create-Holds :
      (name : QualName) (attrs : List Attribute) (mathml : Bool) (s : Sink D)
      → Holds
          (sink_create_element zig name attrs mathml s).1
          (length s.arena)
          (record { qname = name; mathml_annotation_xml_integration_point = mathml })
          (sink_create_element zig name attrs mathml s).0
  unfolding sink_create_element call
  create-Holds name attrs mathml s = record {
    place = k.created s.dom (length s.arena) _ _;
    stored = get_elem?_last s.arena _;
  }

  -- What a node that has its data answers, whatever the tree builder has done since.
  pub named_after :
      {r : Ref} {p : ℕ} {e : ElementData} (ms : List Method) (s : Sink D)
      → Holds r p e s
      → (elem_name zig r (perform_all zig ms s) ≡ some e.qname)
        × (is_mathml_annotation_xml_integration_point zig r (perform_all zig ms s)
            ≡ some e.mathml_annotation_xml_integration_point)
  unfolding elem_name is_mathml_annotation_xml_integration_point
  named_after ms s h =
      let found = data_at-Holds (perform_all zig ms s) (perform_all-Holds ms s h) in
      (rw (found, elem_name), rw (found, is_mathml_annotation_xml_integration_point))

  -- An element has the name and the flag that it was created with, whatever the tree builder does
  -- afterwards, if the Zig side answers with the data pointer that a node was made with.
  pub elem_name-create_element :
      (name : QualName) (attrs : List Attribute) (mathml : Bool) (s : Sink D) (ms : List Method)
      → let made = sink_create_element zig name attrs mathml s in
        (elem_name zig made.1 (perform_all zig ms made.0) ≡ some name)
        × (is_mathml_annotation_xml_integration_point zig made.1 (perform_all zig ms made.0)
            ≡ some mathml)
  elem_name-create_element name attrs mathml s ms =
      named_after ms (sink_create_element zig name attrs mathml s).0
        (create-Holds name attrs mathml s)
