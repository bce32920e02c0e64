-- ===== src/Prescan/Kind.antt =====
-- Which scripts the scanner of src/rust/html5ever/prescan.rs reports, and what it asks of the
-- tokenizer.
use lightpanda_browser.Prelude.{
  ℕ, [], ◌∷◌, Option, none, some, Bytes, codes, is_empty, Option-cases, ◌≡◌, ◌≢◌, ◌⊎◌, ◌↔◌, inl,
  inr, arith,
}
use lightpanda_browser.Markup.{Attribute}
use lightpanda_browser.Markup.Case.{lowercase, eq_ignore_ascii_case_iff}
use lightpanda_browser.Prescan.{
  Tag, Token, tag_token, script, PrescanSink, kind_script, kind_module, attr, emit, script_kind,
  scan_script, process_token,
}
use lightpanda_browser.Prescan.Hints.{script_hints}

-- A `type` attribute that means a classic script: none, an empty one, or one of the two names
-- in any mix of cases.
abbrev pub IsClassic : Option Attribute → Type 0
IsClassic none = Unit
IsClassic (some a) =
    (a.value ≡ [])
    ⊎ (lowercase a.value ≡ codes "application/javascript")
    ⊎ (lowercase a.value ≡ codes "text/javascript")

abbrev pub IsModule : Option Attribute → Type 0
IsModule none = ⊥
IsModule (some a) = lowercase a.value ≡ codes "module"

-- The element of `tag` is a script that the page will fetch from `url`.
pub record Fetches (tag : Tag) (kind : ℕ) (url : Bytes) : Type 0 where
  pub not_nomodule : attr tag (codes "nomodule") ≡ none
  pub has_src : (a : Attribute) × (attr tag (codes "src") ≡ some a) × (a.value ≡ url)
  pub url_ne_nil : url ≢ []
  pub has_kind :
      (IsClassic (attr tag (codes "type")) × (kind ≡ kind_script))
      ⊎ (IsModule (attr tag (codes "type")) × (kind ≡ kind_module))

script_kind_iff :
    (t : Option Attribute) (kind : ℕ)
    → (script_kind t ≡ some kind)
      ↔ ((IsClassic t × (kind ≡ kind_script)) ⊎ (IsModule t × (kind ≡ kind_module)))
unfolding script_kind is_empty lowercase
script_kind_iff none kind = ground arith
script_kind_iff (some a) kind = ground (
  arith,
  eq_ignore_ascii_case_iff a.value (codes "application/javascript"),
  eq_ignore_ascii_case_iff a.value (codes "text/javascript"),
  eq_ignore_ascii_case_iff a.value (codes "module"),
)

module _ (tag : Tag) (kind : ℕ) (url : Bytes) where
  hints-Fetches : script_hints tag ≡ (kind, url) ∷ [] → Fetches tag kind url
  unfolding script_hints scan_script emit is_empty
  hints-Fetches e = elim (Option-cases (attr tag (codes "src"))) [
    | inl missing ↦ absurd (ground arith)
    | inr (a, found) ↦ record {
      not_nomodule = ground arith;
      has_src = (a, found, ground arith);
      url_ne_nil = ground arith;
      has_kind = (script_kind_iff (attr tag (codes "type")) kind).0 (ground arith);
    }
  ]

  Fetches-hints : Fetches tag kind url → script_hints tag ≡ (kind, url) ∷ []
  unfolding script_hints scan_script emit is_empty
  Fetches-hints f = ground (
    arith,
    f.not_nomodule,
    f.has_src.1,
    f.has_src.2,
    (script_kind_iff (attr tag (codes "type")) kind).1 f.has_kind,
  )

  -- A script tag is reported with a kind and a url exactly when it has no `nomodule` attribute,
  -- the url is its `src` and not empty, and its `type`, in any mix of cases, names that kind.
  pub script_hints_iff : (script_hints tag ≡ (kind, url) ∷ []) ↔ Fetches tag kind url
  script_hints_iff = (hints-Fetches, Fetches-hints)

-- The scanner never asks the tokenizer to stop for a script.
pub process_token-ne-script : (s : PrescanSink) (t : Token) → (process_token s t).1 ≢ script
unfolding process_token
process_token-ne-script s (tag_token tag) = ground arith
process_token-ne-script s _ = ground arith
