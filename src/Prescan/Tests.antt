-- ===== src/Prescan/Tests.antt =====
-- The preload scanner at concrete tags.
use lightpanda_browser.Prelude.{
  ◌≤◌, false, List, [], ◌∷◌, ◌++◌, none, codes, ◌≡◌, ◌≢◌, ◌↔◌, refl, All, arith,
}
use lightpanda_browser.Ffi.{slice_of}
use lightpanda_browser.Encoding.Example.{copying}
use lightpanda_browser.Markup.{Attribute}
use lightpanda_browser.Prescan.{
  start_tag, end_tag, Tag, Token, tag_token, script, new_sink, process_tokens, process_token,
  is_named, scan_script, scan_base,
}
use lightpanda_browser.Prescan.Hints.{tag_of, script_hints, hints, prescan-hints}
use lightpanda_browser.Prescan.Kind.{Fetches, script_hints_iff, process_token-ne-script}
use lightpanda_browser.Prescan.Template.{
  Opens, Closes, Balanced, plain, nil, IsInert, template-IsInert,
}
use lightpanda_browser.Prescan.Document.{
  Tokenizer, TouchesByTokens, html5ever_prescan, IsFetchable, bases, prescan-IsFetchable,
}
use Prim.Native.String.{String}

abbrev attribute : String → String → Attribute
attribute n v = record {
  name = record { prefix = none; ns = []; local = codes n };
  value = codes v;
}

abbrev start : String → List Attribute → Token
start n attrs =
    tag_token (record { kind = start_tag; name = codes n; self_closing = false; attrs = attrs })

abbrev close : String → Token
close n = tag_token (record { kind = end_tag; name = codes n; self_closing = false; attrs = [] })

abbrev page : List Token
page =
    start "base" (attribute "href" "/a/" ∷ [])
    ∷ start "base" (attribute "href" "/b/" ∷ [])
    ∷ start "script" (attribute "src" "x.js" ∷ [])
    ∷ close "script"
    ∷ start "template" []
    ∷ start "script" (attribute "src" "inert.js" ∷ [])
    ∷ close "script"
    ∷ close "template"
    ∷ start "script" (attribute "type" "MODULE" ∷ attribute "src" "y.mjs" ∷ [])
    ∷ start "script" (attribute "nomodule" "" ∷ attribute "src" "old.js" ∷ [])
    ∷ []

page_calls :
    (process_tokens new_sink page).calls
    ≡ (2, codes "/a/") ∷ (0, codes "x.js") ∷ (1, codes "y.mjs") ∷ []
unfolding process_tokens process_token is_named scan_script scan_base
page_calls = refl

prescan-hints_example : (process_tokens new_sink page).calls ≡ hints [] page
prescan-hints_example = prescan-hints page

abbrev script_tag : Tag
script_tag = record {
  kind = start_tag;
  name = codes "script";
  self_closing = false;
  attrs = attribute "src" "x.js" ∷ [];
}

opens : Opens (start "template" [])
unfolding tag_of is_named
opens = refl

closes : Closes (close "template")
unfolding tag_of is_named
closes = refl

inert_script : Balanced (tag_token script_tag ∷ close "script" ∷ [])
unfolding tag_of is_named
inert_script = plain (tag_token script_tag) refl refl (plain (close "script") refl refl nil)

template-IsInert_example : IsInert new_sink (
    process_tokens new_sink (
      start "template" []
      ∷ ((tag_token script_tag ∷ close "script" ∷ []) ++ (close "template" ∷ []))))
template-IsInert_example =
    template-IsInert new_sink (start "template" []) (close "template") opens closes inert_script
      (omega arith)

script_hints_iff_example :
    (script_hints script_tag ≡ (0, codes "x.js") ∷ []) ↔ Fetches script_tag 0 (codes "x.js")
script_hints_iff_example = script_hints_iff script_tag 0 (codes "x.js")

process_token-ne-script_test : (process_token new_sink (tag_token script_tag)).1 ≢ script
process_token-ne-script_test = process_token-ne-script new_sink (tag_token script_tag)

-- A tokenizer that finds two tokens in every text.
abbrev two_tokens : Tokenizer
two_tokens process text s =
    (process (process s (start "base" (attribute "href" "/a/" ∷ []))).0 (tag_token script_tag)).0

two_tokens-TouchesByTokens : TouchesByTokens two_tokens
unfolding process_tokens
two_tokens-TouchesByTokens text s =
    (start "base" (attribute "href" "/a/" ∷ []) ∷ tag_token script_tag ∷ [], refl)

prescan-IsFetchable_example :
    All IsFetchable
      (html5ever_prescan copying two_tokens (slice_of (codes "<p>")) (slice_of (codes "utf-8")))
    × (bases
          (html5ever_prescan copying two_tokens (slice_of (codes "<p>")) (slice_of (codes "utf-8")))
        ≤ 1)
prescan-IsFetchable_example =
    prescan-IsFetchable copying two_tokens (slice_of (codes "<p>")) (slice_of (codes "utf-8"))
      two_tokens-TouchesByTokens
