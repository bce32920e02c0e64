-- ===== src/Prescan.antt =====
-- src/rust/html5ever/prescan.rs: the preload scanner, a token sink that reports the scripts which
-- a page will fetch. The pair `ctx`, `callback` is the list of the calls made so far, and the two
-- `Cell`s are fields. The tokenizer itself is third-party code: see `Prescan/Document.antt`.
pub mod Kind
pub mod Hints
pub mod Template
pub mod Document
mod Tests
use lightpanda_browser.Prelude.{
  ℕ, ◌+◌, ◌-◌, ◌%◌, ◌^◌, Bool, true, false, ◌||◌, ◌&&◌, List, [], ◌∷◌, ◌++◌, Option, none, some,
  Bytes, codes, eq_bytes, is_empty, ◌==◌, if◌then◌else◌, is_some, not,
}
use lightpanda_browser.Markup.{Attribute, eq_ignore_ascii_case, find_attribute}

pub data TagKind : Type 0 where
  start_tag end_tag : TagKind

pub record Tag : Type 0 where
  pub kind : TagKind
  pub name : Bytes
  pub self_closing : Bool
  pub attrs : List Attribute

-- `html5ever::tokenizer::Token`; the sink looks into tags alone.
pub data Token : Type 0 where
  tag_token : Tag → Token
  doctype_token null_character_token eof_token : Token
  comment_token character_tokens parse_error : Bytes → Token

pub data RawKind : Type 0 where
  rcdata rawtext script_data : RawKind

pub data TokenSinkResult : Type 0 where
  continue script plaintext : TokenSinkResult
  raw_data : RawKind → TokenSinkResult

abbrev pub kind_script : ℕ
kind_script = 0

abbrev pub kind_module : ℕ
kind_module = 1

abbrev pub kind_base : ℕ
kind_base = 2

-- A call of the callback: its kind and its url.
abbrev pub Hint : Type 0
Hint = ℕ × Bytes

pub record PrescanSink : Type 0 where
  pub base_seen : Bool
  pub template_depth : ℕ
  pub calls : List Hint

-- `ns!()`, the empty namespace.
unfoldable pub attr : Tag → Bytes → Option Attribute
unfolding find_attribute eq_bytes
attr tag name = find_attribute (λ a. eq_bytes a.name.ns [] && eq_bytes a.name.local name) tag.attrs

unfoldable pub emit : PrescanSink → ℕ → Bytes → PrescanSink
emit s kind url = record s { calls = s.calls ++ (kind, url) ∷ [] }

-- The `match` on the `type` attribute; `none` is the early return.
unfoldable pub script_kind : Option Attribute → Option ℕ
unfolding is_empty eq_ignore_ascii_case
script_kind none = some kind_script
script_kind (some a) =
    if is_empty a.value
      || eq_ignore_ascii_case a.value (codes "application/javascript")
      || eq_ignore_ascii_case a.value (codes "text/javascript")
    then some kind_script
    else if eq_ignore_ascii_case a.value (codes "module")
    then some kind_module
    else none

unfoldable pub scan_script : PrescanSink → Tag → PrescanSink
unfolding attr script_kind emit is_empty
scan_script s tag =
    if is_some (attr tag (codes "nomodule")) then s else elim (attr tag (codes "src")) [
      | none ↦ s
      | some src ↦ if is_empty src.value then s else elim (script_kind (attr tag (codes "type"))) [
        | none ↦ s
        | some kind ↦ emit s kind src.value
      ]
    ]

-- `tag.name == local_name!(…)`, for one name or several.
unfoldable pub is_named : Tag → List Bytes → Bool
unfolding eq_bytes
is_named tag [] = false
is_named tag (n ∷ names) = eq_bytes tag.name n || is_named tag names

abbrev pub rawtext_names : List Bytes
rawtext_names =
    codes "style"
    ∷ codes "noscript"
    ∷ codes "iframe"
    ∷ codes "xmp"
    ∷ codes "noembed"
    ∷ codes "noframes"
    ∷ []

abbrev pub rcdata_names : List Bytes
rcdata_names = codes "title" ∷ codes "textarea" ∷ []

-- `process_token` at an end tag.
unfoldable pub process_end_tag : PrescanSink → Tag → PrescanSink × TokenSinkResult
process_end_tag s tag =
    if is_named tag (codes "template" ∷ [])
    then (record s { template_depth = s.template_depth - 1 }, continue)
    else (s, continue)

unfoldable pub scan_base : PrescanSink → Tag → PrescanSink
unfolding attr emit
scan_base s tag = if s.base_seen then s else elim (attr tag (codes "href")) [
  | none ↦ s
  | some href ↦ emit (record s { base_seen = true }) kind_base href.value
]

-- `process_token` at a start tag. The depth is a `u32`, and its `+` wraps around in a release
-- build.
unfoldable pub process_start_tag : PrescanSink → Tag → PrescanSink × TokenSinkResult
process_start_tag s tag =
    if is_named tag (codes "script" ∷ [])
    then (if s.template_depth == 0 then scan_script s tag else s, raw_data script_data)
    else if is_named tag (codes "base" ∷ [])
    then (scan_base s tag, continue)
    else if is_named tag (codes "template" ∷ [])
    then (record s { template_depth = (s.template_depth + 1) % 2 ^ 32 }, continue)
    else if is_named tag rawtext_names
    then (s, raw_data rawtext)
    else if is_named tag rcdata_names
    then (s, raw_data rcdata)
    else if is_named tag (codes "plaintext" ∷ [])
    then (s, plaintext)
    else (s, continue)

process_tag : TagKind → PrescanSink → Tag → PrescanSink × TokenSinkResult
unfolding process_end_tag process_start_tag
process_tag end_tag = process_end_tag
process_tag start_tag = process_start_tag

unfoldable pub process_token : PrescanSink → Token → PrescanSink × TokenSinkResult
unfolding process_tag
process_token s (tag_token tag) = process_tag tag.kind s tag
process_token s _ = (s, continue)

-- The sink after a run of tokens.
unfoldable pub process_tokens : PrescanSink → List Token → PrescanSink
process_tokens s [] = s
process_tokens s (t ∷ ts) = process_tokens (process_token s t).0 ts

abbrev pub new_sink : PrescanSink
new_sink = record { base_seen = false; template_depth = 0; calls = [] }
