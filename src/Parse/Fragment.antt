-- ===== src/Parse/Fragment.antt =====
-- `html5ever_parse_fragment` of src/rust/html5ever/lib.rs: the element that a fragment is parsed
-- inside of.
use lightpanda_browser.Prelude.{
  ℕ, ◌≤◌, Bool, true, false, ◌||◌, List, [], ◌∷◌, Option, none, some, Bytes, codes, ◌==◌, length,
  take, ◌≡◌, ◌≢◌, ◌⊎◌, inl, inr, refl, arith, Bool-cases, zero, suc,
}
use lightpanda_browser.Prelude.Utf8.{is_utf8, from_utf8}
use lightpanda_browser.Prelude.Slices.{get_elem?}
use lightpanda_browser.Ffi.{RawSlice, is_null, read, IsReadable}
use lightpanda_browser.Markup.{QualName}
use lightpanda_browser.Dom.Sink.{
  Ref, Zig, Sink, new_element_data, call, elem_name, is_mathml_annotation_xml_integration_point,
}
use lightpanda_browser.Dom.Sink.Names.{KeepsData, Method, perform_all, Holds, named_after}
use lightpanda_browser.Parse.{
  Html5ever, html_namespace, context_local, context_qname, fragment_context, one_lossy,
  html5ever_parse_fragment,
}

abbrev pub html_name : Bytes → QualName
html_name local = record { prefix = none; ns = html_namespace; local = local }

-- The name that is asked for, if there is one in UTF-8, and else body.
abbrev pub Asked : RawSlice → Bytes → Type 0
Asked context_name local =
    ((read context_name ≢ []) × (is_utf8 (read context_name) ≡ true) × (local ≡ read context_name))
    ⊎ (((read context_name ≡ []) ⊎ (is_utf8 (read context_name) ≡ false)) × (local ≡ codes "body"))

take-ne-empty : (n : ℕ) (m : Bytes) → n ≢ 0 → n ≤ length m → take n m ≢ []
take-ne-empty zero m pos le e = pos refl
take-ne-empty (suc n) [] pos le e = omega (arith, le)
take-ne-empty (suc n) (x ∷ m) pos le e = cc

read-empty :
    (ptr : Option Bytes) (len : ℕ)
    → (is_null ptr || len == 0) ≡ true
    → read (record { ptr = ptr; len = len }) ≡ []
unfolding read
read-empty none len h = refl
read-empty (some m) zero h = refl
read-empty (some m) (suc n) h = absurd (ground (arith, h))

read-ne-empty :
    (ptr : Option Bytes) (len : ℕ)
    → IsReadable (record { ptr = ptr; len = len })
    → (is_null ptr || len == 0) ≡ false
    → read (record { ptr = ptr; len = len }) ≢ []
unfolding read
read-ne-empty none len within h = cc
read-ne-empty (some m) len within h = take-ne-empty len m (ground (arith, h)) within

context_local-Asked :
    (context_name : RawSlice)
    → IsReadable context_name
    → Asked context_name (context_local context_name)
unfolding context_local from_utf8
context_local-Asked s readable = elim (Bool-cases (is_null s.ptr || s.len == 0)) [
  | inl nothing ↦ inr (inl (read-empty s.ptr s.len nothing), rw (nothing, context_local) refl)
  | inr given ↦ elim (Bool-cases (is_utf8 (read s))) [
    | inl valid ↦ inl (
      read-ne-empty s.ptr s.len readable given,
      valid,
      rw (given, valid, context_local, from_utf8) refl,
    )
    | inr bad ↦ inr (inr bad, rw (given, bad, context_local, from_utf8) refl)
  ]
]

module _ {D : Type 0} (zig : Zig D) (h5 : Html5ever D) (data_of : D → Ref → Option ℕ)
    (k : KeepsData zig data_of) where
  context-Holds :
      (context_name : RawSlice) (document : Ref) (allow : Bool) (d : D)
      → let made = fragment_context zig h5 context_name document allow d in
        Holds zig data_of k made.1 0 (new_element_data (context_qname context_name) false) made.0
  unfolding fragment_context call get_elem?
  context-Holds context_name document allow d = record {
    place = k.created_context d 0 _ _;
    stored = refl;
  }

  -- A fragment with bytes is parsed inside an element, with no form around it and its leading
  -- U+FEFF kept, and whatever the tree builder does, that element is an HTML element of the name
  -- that the caller asked for, if that is UTF-8 and not empty, and else a body; it is no
  -- integration point. The condition is that the Zig side answers with the data pointer that a
  -- node was made with.
  pub parse_fragment-context :
      (html context_name : RawSlice) (document : Ref) (allow : Bool) (d : D) (ms : List Method)
      → (is_null html.ptr || html.len == 0) ≡ false
      → IsReadable context_name
      → (s : Sink D) × (r : Ref) × (local : Bytes) × (html5ever_parse_fragment zig h5 html
            context_name document allow d
          ≡ one_lossy zig h5
              (h5.parse_fragment_for_element s
                (record h5.default_opts { discard_bom = false })
                r
                false
                none)
              (read html))
        × (elem_name zig r (perform_all zig ms s) ≡ some (html_name local))
        × (is_mathml_annotation_xml_integration_point zig r (perform_all zig ms s) ≡ some false)
        × Asked context_name local
  unfolding html5ever_parse_fragment context_qname
  parse_fragment-context html context_name document allow d ms given readable =
      let (s, r) = fragment_context zig h5 context_name document allow d in
      let named = named_after zig data_of k ms s (context-Holds context_name document allow d) in
      (
        s,
        r,
        context_local context_name,
        rw (given, html5ever_parse_fragment) refl,
        named.0,
        named.1,
        context_local-Asked context_name readable,
      )
