-- ===== src/Prescan/Document.antt =====
-- `html5ever_prescan` (src/rust/html5ever/prescan.rs), the entry point. The tokenizer and the
-- decoder are third-party code and come as parameters.
use lightpanda_browser.Prelude.{
  ℕ, ◌+◌, ◌-◌, ◌%◌, ◌^◌, ◌≤◌, subst, true, false, ◌||◌, List, [], ◌∷◌, ◌++◌, Option, none, some,
  Bytes, codes, ◌==◌, if◌then◌else◌, ◌≡◌, ◌≢◌, ◌⊎◌, inl, inr, refl, sym, arith, All, Option-cases,
  Bool-cases, is_empty, is_some,
}
use lightpanda_browser.Ffi.{RawSlice, is_null, read}
use lightpanda_browser.Markup.{Attribute}
use lightpanda_browser.Encoding.{EncodingRs}
use lightpanda_browser.Prescan.{
  start_tag, end_tag, TagKind, Tag, Token, tag_token, TokenSinkResult, Hint, PrescanSink, kind_base,
  kind_module, attr, emit, script_kind, scan_script, scan_base, process_tag, is_named,
  process_token, process_tokens, new_sink,
}

-- `Tokenizer::new`, `feed` and `end`: hands the tokens of a text to the sink's function, and
-- leaves the sink as it is when it stops, by a panic too.
abbrev pub Tokenizer : Type 0
Tokenizer =
    (PrescanSink → Token → PrescanSink × TokenSinkResult) → Bytes → PrescanSink → PrescanSink

-- What the code relies on: the sink is touched by its own function alone, one token at a time.
abbrev pub TouchesByTokens : Tokenizer → Type 0
TouchesByTokens tokenize =
    (text : Bytes) (s : PrescanSink)
    → (ts : List Token) × (tokenize process_token text s ≡ process_tokens s ts)

-- The calls of the callback, in order.
unfoldable pub html5ever_prescan : (e : EncodingRs) → Tokenizer → RawSlice → RawSlice → List Hint
html5ever_prescan e tokenize html charset =
    if is_null html.ptr || html.len == 0 then [] else elim (e.for_label (read charset)) [
      | none ↦ (tokenize process_token (e.decode e.utf_8 (read html)) new_sink).calls
      | some encoding ↦ (tokenize process_token (e.decode encoding (read html)) new_sink).calls
    ]

-- A base, or a script with a url.
abbrev pub IsFetchable : Hint → Type 0
IsFetchable h = (h.0 ≡ kind_base) ⊎ ((h.0 ≤ kind_module) × (h.1 ≢ []))

unfoldable pub bases : List Hint → ℕ
bases [] = 0
bases (h ∷ hs) = (if h.0 == kind_base then 1 else 0) + bases hs

record IsSound (s : PrescanSink) : Type 0 where
  fetchable : All IsFetchable s.calls
  one_base : bases s.calls ≤ 1
  fresh : s.base_seen ≡ false → bases s.calls ≡ 0

All-snoc :
    (hs : List Hint) (h : Hint)
    → All IsFetchable hs
    → IsFetchable h
    → All IsFetchable (hs ++ h ∷ [])
All-snoc [] h a b = (b, tt)
All-snoc (x ∷ hs) h a b = (a.0, All-snoc hs h a.1 b)

bases-snoc :
    (hs : List Hint) (h : Hint)
    → bases (hs ++ h ∷ []) ≡ bases hs + (if h.0 == kind_base then 1 else 0)
unfolding bases
bases-snoc [] h = ground arith
bases-snoc (x ∷ hs) h = omega (arith, bases-snoc hs h)

emit-script :
    (s : PrescanSink) (kind : ℕ) (url : Bytes)
    → kind ≤ kind_module
    → url ≢ []
    → IsSound s
    → IsSound (emit s kind url)
unfolding emit
emit-script s kind url k ne i = record {
  fetchable = All-snoc s.calls (kind, url) i.fetchable (inr (k, ne));
  one_base = ground (arith, bases-snoc s.calls (kind, url), i.one_base);
  fresh = λ f. ground (arith, bases-snoc s.calls (kind, url), i.fresh f);
}

script_kind-le : (t : Option Attribute) (k : ℕ) → script_kind t ≡ some k → k ≤ kind_module
unfolding script_kind
script_kind-le none k h = ground arith
script_kind-le (some a) k h = ground arith

-- Either nothing is reported, or one script with a url.
scan_script-cases :
    (s : PrescanSink) (tag : Tag)
    → (scan_script s tag ≡ s)
      ⊎ ((kind : ℕ) × (url : Bytes) × (scan_script s tag ≡ emit s kind url)
          × (kind ≤ kind_module)
          × (url ≢ []))
unfolding scan_script is_empty
scan_script-cases s tag = elim (Option-cases (attr tag (codes "src"))) [
  | inl missing ↦ inl (ground arith)
  | inr (a, found) ↦ elim (Option-cases (script_kind (attr tag (codes "type")))) [
    | inl other ↦ inl (ground arith)
    | inr (k, known) ↦
        elim (Bool-cases (is_some (attr tag (codes "nomodule")) || is_empty a.value)) [
          | inl skip ↦ inl (ground arith)
          | inr go ↦ inr (
            k,
            a.value,
            ground arith,
            script_kind-le (attr tag (codes "type")) k known,
            ground arith,
          )
        ]
  ]
]

scan_script-IsSound : (s : PrescanSink) (tag : Tag) → IsSound s → IsSound (scan_script s tag)
scan_script-IsSound s tag i = elim (scan_script-cases s tag) [
  | inl e ↦ rw e i
  | inr (k, url, e, le, ne) ↦ rw e (emit-script s k url le ne i)
]

scan_base-cases :
    (s : PrescanSink) (tag : Tag)
    → (scan_base s tag ≡ s)
      ⊎ ((url : Bytes) × (s.base_seen ≡ false)
          × (scan_base s tag ≡ emit (record s { base_seen = true }) kind_base url))
unfolding scan_base
scan_base-cases s tag = elim (Option-cases (attr tag (codes "href"))) [
  | inl missing ↦ inl (ground arith)
  | inr (a, found) ↦ elim (Bool-cases s.base_seen) [
    | inl seen ↦ inl (ground arith)
    | inr fresh ↦ inr (a.value, fresh, ground arith)
  ]
]

emit-base :
    (s : PrescanSink) (url : Bytes)
    → s.base_seen ≡ false
    → IsSound s
    → IsSound (emit (record s { base_seen = true }) kind_base url)
unfolding emit
emit-base s url fresh i = record {
  fetchable = All-snoc s.calls (kind_base, url) i.fetchable (inl refl);
  one_base = omega (arith, bases-snoc s.calls (kind_base, url), i.fresh fresh);
  fresh = λ f. cc;
}

scan_base-IsSound : (s : PrescanSink) (tag : Tag) → IsSound s → IsSound (scan_base s tag)
scan_base-IsSound s tag i = elim (scan_base-cases s tag) [
  | inl e ↦ subst IsSound (sym e) i
  | inr (url, fresh, e) ↦ subst IsSound (sym e) (emit-base s url fresh i)
]

-- A change of the depth alone.
depth-IsSound : (s : PrescanSink) (n : ℕ) → IsSound s → IsSound (record s { template_depth = n })
depth-IsSound s n i = record { fetchable = i.fetchable; one_base = i.one_base; fresh = i.fresh }

-- What a tag can do to the sink.
tag-cases :
    (k : TagKind) (s : PrescanSink) (tag : Tag)
    → ((process_tag k s tag).0 ≡ scan_script s tag)
      ⊎ ((process_tag k s tag).0 ≡ scan_base s tag)
      ⊎ ((n : ℕ) × ((process_tag k s tag).0 ≡ record s { template_depth = n }))
unfolding process_tag
tag-cases end_tag s tag = elim (Bool-cases (is_named tag (codes "template" ∷ []))) [
  | inl e ↦ inr (inr (s.template_depth - 1, rw e))
  | inr e ↦ inr (inr (s.template_depth, rw e))
]
tag-cases start_tag s tag = elim (Bool-cases (is_named tag (codes "script" ∷ []))) [
  | inl e ↦ elim (Bool-cases (s.template_depth == 0)) [
    | inl out ↦ inl (ground arith)
    | inr inside ↦ inr (inr (s.template_depth, ground arith))
  ]
  | inr e ↦ elim (Bool-cases (is_named tag (codes "base" ∷ []))) [
    | inl b ↦ inr (inl (ground arith))
    | inr b ↦ elim (Bool-cases (is_named tag (codes "template" ∷ []))) [
      | inl t ↦ inr (inr ((s.template_depth + 1) % 2 ^ 32, ground arith))
      | inr t ↦ inr (inr (s.template_depth, ground arith))
    ]
  ]
]

token-IsSound : (s : PrescanSink) (t : Token) → IsSound s → IsSound (process_token s t).0
unfolding process_token
token-IsSound s (tag_token tag) i = elim (tag-cases tag.kind s tag) [
  | inl e ↦ subst IsSound (sym e) (scan_script-IsSound s tag i)
  | inr (inl e) ↦ subst IsSound (sym e) (scan_base-IsSound s tag i)
  | inr (inr (n, e)) ↦ subst IsSound (sym e) (depth-IsSound s n i)
]
token-IsSound s _ i = i

tokens-IsSound : (s : PrescanSink) (ts : List Token) → IsSound s → IsSound (process_tokens s ts)
unfolding process_tokens
tokens-IsSound s [] i = i
tokens-IsSound s (t ∷ ts) i = tokens-IsSound (process_token s t).0 ts (token-IsSound s t i)

tokenize-IsSound :
    (tokenize : Tokenizer) (text : Bytes)
    → TouchesByTokens tokenize
    → IsSound (tokenize process_token text new_sink)
unfolding bases
tokenize-IsSound tokenize text touches =
    let (ts, e) = touches text new_sink in
    subst IsSound (sym e) (
      tokens-IsSound new_sink ts
        (record { fetchable = tt; one_base = omega arith; fresh = λ f. refl }))

-- Whatever the bytes and the label, and with any tokenizer that works on its sink by tokens alone,
-- every call of the callback is for a base, or for a script of one of the two kinds with a url
-- that is not empty, and at most one is for a base.
pub prescan-IsFetchable :
    (e : EncodingRs) (tokenize : Tokenizer) (html charset : RawSlice)
    → TouchesByTokens tokenize
    → All IsFetchable (html5ever_prescan e tokenize html charset)
      × (bases (html5ever_prescan e tokenize html charset) ≤ 1)
unfolding html5ever_prescan bases
prescan-IsFetchable e tokenize html charset touches =
    elim (Bool-cases (is_null html.ptr || html.len == 0)) [
      | inl h ↦ rw h (tt, omega arith)
      | inr h ↦ elim (Option-cases (e.for_label (read charset))) [
        | inl n ↦
            let i = tokenize-IsSound tokenize (e.decode e.utf_8 (read html)) touches in
            rw (h, n) (i.fetchable, i.one_base)
        | inr (c, n) ↦
            let i = tokenize-IsSound tokenize (e.decode c (read html)) touches in
            rw (h, n) (i.fetchable, i.one_base)
      ]
    ]
