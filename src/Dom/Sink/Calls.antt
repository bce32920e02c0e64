-- ===== src/Dom/Sink/Calls.antt =====
-- What the Zig side is told (src/rust/html5ever/sink.rs).
use lightpanda_browser.Prelude.{
  take-length, Bool, true, false, List, [], ◌∷◌, ◌++◌, codes, ◌==◌, if◌then◌else◌, ◌≡◌, ◌↔◌, refl,
  ap, eq_bytes, eq_bytes_iff, All,
}
use lightpanda_browser.Ffi.{read}
use lightpanda_browser.Markup.{Attribute, find_attribute}
use lightpanda_browser.Dom.Sink.{
  NodeOrText, append_node, append_text, CNodeOrText, node_or_text, mode_is_open,
}

-- How the Zig side reads a child.
unfoldable pub read_child : CNodeOrText → NodeOrText
unfolding read
read_child c = if c.tag == 0 then append_node c.node else append_text (read c.text)

-- A child that is handed over is read back as it was, an empty text too.
pub read_child-node_or_text : (child : NodeOrText) → read_child (node_or_text child) ≡ child
unfolding read_child node_or_text
read_child-node_or_text (append_node n) = refl
read_child-node_or_text (append_text t) = ap append_text (take-length t)

abbrev is_mode : Attribute → Bool
is_mode a = eq_bytes a.name.local (codes "shadowrootmode")

-- Attributes in front of the first `shadowrootmode` do not matter, nor do those behind it: the
-- root is open exactly when that one's value is `open`.
pub mode_is_open_first :
    (before : List Attribute) (a : Attribute) (after : List Attribute)
    → All (λ b. is_mode b ≡ false) before
    → is_mode a ≡ true
    → (mode_is_open (before ++ (a ∷ after)) ≡ true) ↔ (a.value ≡ codes "open")
unfolding mode_is_open find_attribute
mode_is_open_first [] a after h m =
    rw (m, mode_is_open, find_attribute) (eq_bytes_iff a.value (codes "open"))
mode_is_open_first (b ∷ before) a after h m =
    rw (h.0, mode_is_open, find_attribute) (mode_is_open_first before a after h.1 m)

-- With no `shadowrootmode` at all the root is open.
pub mode_is_open_missing :
    (attrs : List Attribute) → All (λ b. is_mode b ≡ false) attrs → mode_is_open attrs ≡ true
unfolding mode_is_open find_attribute
mode_is_open_missing [] h = refl
mode_is_open_missing (b ∷ attrs) h =
    rw (h.0, mode_is_open, find_attribute) (mode_is_open_missing attrs h.1)
