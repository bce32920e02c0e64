-- ===== src/Prescan/Hints.antt =====
-- What the scanner of src/rust/html5ever/prescan.rs reports, against the history of the tokens:
-- the two cells of the sink are functions of the tokens before the current one.
use lightpanda_browser.Prelude.{
  ℕ, ◌+◌, ◌-◌, ◌%◌, ◌^◌, Bool, true, false, ◌||◌, ◌&&◌, List, [], ◌∷◌, ◌++◌, Option, none, some,
  Bytes, codes, eq_bytes, eq_bytes_iff, ◌==◌, if◌then◌else◌, is_some, ◌≡◌, refl, sym, ◌∙◌, arith,
  append-nil, append_assoc,
}
use lightpanda_browser.Prescan.{
  TagKind, start_tag, end_tag, Tag, Token, tag_token, Hint, PrescanSink, kind_base, attr, emit,
  scan_script, is_named, scan_base, process_token, process_tokens, new_sink,
}

abbrev pub same_kind : TagKind → TagKind → Bool
same_kind start_tag start_tag = true
same_kind end_tag end_tag = true
same_kind _ _ = false

-- The tag of a token, if it starts (or ends) an element of the given name.
unfoldable pub tag_of : TagKind → Bytes → Token → Option Tag
tag_of kind name (tag_token tag) =
    if same_kind tag.kind kind && is_named tag (name ∷ []) then some tag else none
tag_of kind name _ = none

-- The depth of open templates after the tokens `before`, the last of them first.
unfoldable pub open_templates : List Token → ℕ
unfolding tag_of
open_templates [] = 0
open_templates (t ∷ before) =
    if is_some (tag_of start_tag (codes "template") t)
    then (open_templates before + 1) % 2 ^ 32
    else open_templates before - (if is_some (tag_of end_tag (codes "template") t) then 1 else 0)

-- The `href` of a token, if it starts a `<base>` that has one.
unfoldable pub base_href : Token → Option Bytes
unfolding tag_of
base_href t = elim (tag_of start_tag (codes "base") t) [
  | none ↦ none
  | some tag ↦ elim (attr tag (codes "href")) [ none ↦ none | some a ↦ some a.value ]
]

unfoldable pub has_base : List Token → Bool
unfolding base_href
has_base [] = false
has_base (t ∷ before) = is_some (base_href t) || has_base before

-- What a tag asks the scanner to fetch.
unfoldable pub script_hints : Tag → List Hint
unfolding scan_script
script_hints tag = (scan_script new_sink tag).calls

-- What is reported at a token, in front of which the tokens `before` stand, the last first.
unfoldable pub hints_at : List Token → Token → List Hint
unfolding script_hints open_templates has_base tag_of base_href
hints_at before t =
    elim (tag_of start_tag (codes "script") t) [
      | none ↦ []
      | some tag ↦ if open_templates before == 0 then script_hints tag else []
    ]
    ++ elim (base_href t) [
      | none ↦ []
      | some href ↦ if has_base before then [] else (kind_base, href) ∷ []
    ]

unfoldable pub hints : List Token → List Token → List Hint
unfolding hints_at
hints before [] = []
hints before (t ∷ ts) = hints_at before t ++ hints (t ∷ before) ts

-- The cells of the sink are what the history says.
record Agrees (before : List Token) (s : PrescanSink) : Type 0 where
  depth : s.template_depth ≡ open_templates before
  seen : s.base_seen ≡ has_base before

pub is_named_one :
    (tag : Tag) (m n : Bytes)
    → is_named tag (m ∷ []) ≡ true
    → eq_bytes m n ≡ false
    → is_named tag (n ∷ []) ≡ false
unfolding is_named
is_named_one tag m n h ne =
    ground (arith, eq_bytes_iff tag.name m, eq_bytes_iff tag.name n, eq_bytes_iff m n)

scan_script-calls :
    (s : PrescanSink) (tag : Tag)
    → scan_script s tag ≡ record s { calls = s.calls ++ script_hints tag }
unfolding script_hints scan_script emit
scan_script-calls s tag = ground (arith, append-nil s.calls)

step-Agrees :
    (before : List Token) (s : PrescanSink) (t : Token)
    → Agrees before s
    → Agrees (t ∷ before) (process_token s t).0
unfolding process_token open_templates has_base tag_of base_href scan_base emit
step-Agrees before s (tag_token tag) a = ground (
  arith,
  is_named_one tag (codes "script") (codes "base"),
  is_named_one tag (codes "script") (codes "template"),
  is_named_one tag (codes "base") (codes "template"),
  scan_script-calls s tag,
)
step-Agrees before s _ a = ground arith

step-calls :
    (before : List Token) (s : PrescanSink) (t : Token)
    → Agrees before s
    → (process_token s t).0.calls ≡ s.calls ++ hints_at before t
unfolding process_token hints_at emit scan_base eq_bytes
step-calls before s (tag_token tag) a = ground (
  arith,
  is_named_one tag (codes "script") (codes "base"),
  scan_script-calls s tag,
  append-nil s.calls,
  append-nil (script_hints tag),
)
step-calls before s _ a = ground (arith, append-nil s.calls)

process_tokens-hints :
    (before : List Token) (s : PrescanSink) (ts : List Token)
    → Agrees before s
    → (process_tokens s ts).calls ≡ s.calls ++ hints before ts
unfolding process_tokens hints
process_tokens-hints before s [] a = sym (append-nil s.calls)
process_tokens-hints before s (t ∷ ts) a =
    process_tokens-hints (t ∷ before) (process_token s t).0 ts (step-Agrees before s t a)
    ∙ rw (step-calls before s t a)
        (append_assoc s.calls (hints_at before t) (hints (t ∷ before) ts))

-- From an empty sink, the calls of the callback are, in order and with nothing left out, those
-- that the tokens ask for one by one: at each script outside every open template its url if it is
-- to be fetched, and at a `<base>` with an `href` that `href`, unless an earlier one had it.
pub prescan-hints : (ts : List Token) → (process_tokens new_sink ts).calls ≡ hints [] ts
unfolding open_templates has_base
prescan-hints ts = process_tokens-hints [] new_sink ts (record { depth = refl; seen = refl })
