-- ===== src/Dom/Sink.antt =====
-- src/rust/html5ever/sink.rs: the tree sink. Every method calls back into the Zig side, whose
-- state and answers are a parameter; what a call hands over is a value of `Call`.
pub mod Names
pub mod Calls
use lightpanda_browser.Prelude.{
  ℕ, ◌+◌, Bool, true, false, not, List, [], ◌∷◌, ◌++◌, Option, none, some, Bytes, codes, eq_bytes,
  ◌==◌, if◌then◌else◌, length,
}
use lightpanda_browser.Ffi.{RawSlice, slice_of}
use lightpanda_browser.Markup.{QualName, Attribute, find_attribute}
use lightpanda_browser.Prelude.Slices.{get_elem?}
use lightpanda_browser.Dom.Types.{CQualName, create_name, CAttributeIterator, default_slice}

-- A `Ref` is an address.
abbrev pub Ref : Type 0
Ref = ℕ

pub record ElementData : Type 0 where
  pub qname : QualName
  pub mathml_annotation_xml_integration_point : Bool

-- `ElementData::new`, of the flags the one that is kept.
abbrev pub new_element_data : QualName → Bool → ElementData
new_element_data qname mathml = record {
  qname = qname;
  mathml_annotation_xml_integration_point = mathml;
}

-- `NodeOrText<Ref>`.
pub data NodeOrText : Type 0 where
  append_node : Ref → NodeOrText
  append_text : Bytes → NodeOrText

-- Tag 0 is a node, 1 a text.
pub record CNodeOrText : Type 0 where
  pub tag : ℕ
  pub node : Ref
  pub text : RawSlice

unfoldable pub node_or_text : NodeOrText → CNodeOrText
unfolding default_slice
node_or_text (append_text t) = record { tag = 1; node = 0; text = slice_of t }
node_or_text (append_node n) = record { tag = 0; node = n; text = default_slice }

pub data QuirksMode : Type 0 where
  quirks limited_quirks no_quirks : QuirksMode

-- The callbacks. An element's data is handed over as its place in the arena.
pub data Call : Type 0 where
  parse_error : RawSlice → Call
  get_template_contents get_data pop remove_from_parent : Ref → Call
  create_element create_context_element : ℕ → CQualName → CAttributeIterator → Call
  create_comment : RawSlice → Call
  create_processing_instruction : (target text : RawSlice) → Call
  append : Ref → CNodeOrText → Call
  append_before_sibling : Ref → CNodeOrText → Call
  append_based_on_parent_node : (element prev_element : Ref) → CNodeOrText → Call
  append_doctype_to_document : (name public_id system_id : RawSlice) → Call
  add_attrs_if_missing : Ref → CAttributeIterator → Call
  reparent_children : (node new_parent : Ref) → Call
  attach_declarative_shadow : (host template : Ref) → ℕ → Call

-- The Zig side: its new state and its answer, a reference or a number, 0 where there is none.
abbrev pub Zig : Type 0 → Type 0
Zig D = D → Call → D × ℕ

pub record Sink (D : Type 0) : Type 0 where
  pub dom : D
  pub document : Ref
  pub arena : List ElementData
  pub quirks_mode : QuirksMode
  pub allow_declarative_shadow : Bool

-- The mode of a declarative shadow root: that of the first `shadowrootmode`, or open.
unfoldable pub mode_is_open : List Attribute → Bool
unfolding find_attribute
mode_is_open attrs =
    elim (find_attribute (λ a. eq_bytes a.name.local (codes "shadowrootmode")) attrs) [
      | none ↦ true
      | some a ↦ eq_bytes a.value (codes "open")
    ]

module _ {D : Type 0} (zig : Zig D) where
  -- One callback.
  unfoldable pub call : Call → Sink D → Sink D × ℕ
  call c s = let (d, answer) = zig s.dom c in (record s { dom = d }, answer)

  -- A callback with no answer.
  abbrev pub tell : Call → Sink D → Sink D
  tell c s = (call c s).0

  abbrev iterator : List Attribute → CAttributeIterator
  iterator attrs = record { vec = attrs; pos = 0 }

  unfoldable pub sink_parse_error : Bytes → Sink D → Sink D
  sink_parse_error message = tell (parse_error (slice_of message))

  unfoldable pub get_document : Sink D → Ref
  get_document s = s.document

  unfoldable pub set_quirks_mode : QuirksMode → Sink D → Sink D
  set_quirks_mode mode s = record s { quirks_mode = mode }

  unfoldable pub same_node : Ref → Ref → Bool
  same_node x y = x == y

  -- The data behind the pointer that the Zig side answers; `none` is a pointer astray.
  unfoldable pub data_at : Ref → Sink D → Option ElementData
  data_at target s = get_elem? s.arena (call (get_data target) s).1

  unfoldable pub elem_name : Ref → Sink D → Option QualName
  elem_name target s = elim (data_at target s) [ none ↦ none | some e ↦ some e.qname ]

  unfoldable pub is_mathml_annotation_xml_integration_point : Ref → Sink D → Option Bool
  is_mathml_annotation_xml_integration_point target s = elim (data_at target s) [
    | none ↦ none
    | some e ↦ some e.mathml_annotation_xml_integration_point
  ]

  unfoldable pub sink_get_template_contents : Ref → Sink D → Sink D × Ref
  sink_get_template_contents target = call (get_template_contents target)

  unfoldable pub sink_pop : Ref → Sink D → Sink D
  sink_pop node = tell (pop node)

  -- The data goes to the arena first; the callback gets its address.
  unfoldable pub sink_create_element : QualName → List Attribute → Bool → Sink D → Sink D × Ref
  sink_create_element name attrs mathml s =
      call (create_element (length s.arena) (create_name name) (iterator attrs))
        (record s { arena = s.arena ++ new_element_data name mathml ∷ [] })

  unfoldable pub sink_create_comment : Bytes → Sink D → Sink D × Ref
  sink_create_comment txt = call (create_comment (slice_of txt))

  unfoldable pub sink_create_pi : (target text : Bytes) → Sink D → Sink D × Ref
  sink_create_pi target text =
      call (create_processing_instruction (slice_of target) (slice_of text))

  unfoldable pub sink_append : Ref → NodeOrText → Sink D → Sink D
  sink_append parent child = tell (append parent (node_or_text child))

  unfoldable pub sink_append_before_sibling : Ref → NodeOrText → Sink D → Sink D
  sink_append_before_sibling sibling child =
      tell (append_before_sibling sibling (node_or_text child))

  unfoldable pub sink_append_based_on_parent_node : Ref → Ref → NodeOrText → Sink D → Sink D
  sink_append_based_on_parent_node element prev_element child =
      tell (append_based_on_parent_node element prev_element (node_or_text child))

  unfoldable pub sink_append_doctype_to_document :
      (name public_id system_id : Bytes) → Sink D → Sink D
  sink_append_doctype_to_document name public_id system_id =
      tell (append_doctype_to_document (slice_of name) (slice_of public_id) (slice_of system_id))

  unfoldable pub sink_add_attrs_if_missing : Ref → List Attribute → Sink D → Sink D
  sink_add_attrs_if_missing target attrs = tell (add_attrs_if_missing target (iterator attrs))

  unfoldable pub sink_remove_from_parent : Ref → Sink D → Sink D
  sink_remove_from_parent target = tell (remove_from_parent target)

  unfoldable pub sink_reparent_children : Ref → Ref → Sink D → Sink D
  sink_reparent_children node new_parent = tell (reparent_children node new_parent)

  unfoldable pub allow_declarative_shadow_roots : Ref → Sink D → Bool
  allow_declarative_shadow_roots intended_parent s = s.allow_declarative_shadow

  unfoldable pub sink_attach_declarative_shadow :
      Ref → Ref → List Attribute → Sink D → Sink D × Bool
  sink_attach_declarative_shadow location template attrs s =
      let (s', answer) =
        call (attach_declarative_shadow location template (if mode_is_open attrs then 1 else 0))
          s in
      (s', not (answer == 0))
