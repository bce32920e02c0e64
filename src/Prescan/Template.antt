-- ===== src/Prescan/Template.antt =====
-- Scripts inside `<template>` are inert (src/rust/html5ever/prescan.rs).
use lightpanda_browser.Prelude.{
  ◌+◌, ◌-◌, ◌^◌, ◌<◌, true, false, ◌&&◌, List, [], ◌∷◌, ◌++◌, codes, is_some, Option-cases,
  Bool-cases, inl, inr, subst, ◌≡◌, refl, sym, ◌∙◌, arith, append-nil, append_assoc, All, length,
  length-append, eq_bytes, ◌==◌,
}
use lightpanda_browser.Prescan.{
  TagKind, start_tag, end_tag, Tag, Token, tag_token, Hint, PrescanSink, kind_base, attr, emit,
  scan_base, process_token, process_tokens, is_named, process_start_tag, process_tag,
}
use lightpanda_browser.Prescan.Hints.{same_kind, tag_of, is_named_one}

abbrev pub Opens : Token → Type 0
Opens t = is_some (tag_of start_tag (codes "template") t) ≡ true

abbrev pub Closes : Token → Type 0
Closes t = is_some (tag_of end_tag (codes "template") t) ≡ true

-- Tokens in which every template that is opened is closed, and the other way round.
pub data Balanced : List Token → Type 0 where
  nil : Balanced []
  plain :
      (t : Token) {ts : List Token}
      → is_some (tag_of start_tag (codes "template") t) ≡ false
      → is_some (tag_of end_tag (codes "template") t) ≡ false
      → Balanced ts
      → Balanced (t ∷ ts)
  nested :
      (t u : Token) {inner ts : List Token}
      → Opens t
      → Closes u
      → Balanced inner
      → Balanced ts
      → Balanced (t ∷ (inner ++ (u ∷ ts)))

-- From `s` to `s'` the depth is kept, and only bases are reported.
pub record IsInert (s s' : PrescanSink) : Type 0 where
  pub depth : s'.template_depth ≡ s.template_depth
  pub added : List Hint
  pub calls : s'.calls ≡ s.calls ++ added
  pub bases : All (λ h. h.0 ≡ kind_base) added

All-append : (P : Hint → Type 0) (xs ys : List Hint) → All P xs → All P ys → All P (xs ++ ys)
All-append P [] ys p q = q
All-append P (x ∷ xs) ys p q = (p.0, All-append P xs ys p.1 q)

IsInert-trans : {s t u : PrescanSink} → IsInert s t → IsInert t u → IsInert s u
IsInert-trans {s} p q = record {
  depth = q.depth ∙ p.depth;
  added = p.added ++ q.added;
  calls = q.calls ∙ rw p.calls (append_assoc s.calls p.added q.added);
  bases = All-append _ p.added q.added p.bases q.bases;
}

scan_base-IsInert : (s : PrescanSink) (tag : Tag) → IsInert s (scan_base s tag)
unfolding scan_base emit
scan_base-IsInert s tag = elim (Option-cases (attr tag (codes "href"))) [
  | inl missing ↦ record {
    depth = ground arith;
    added = [];
    calls = ground (arith, append-nil s.calls);
    bases = tt;
  }
  | inr (a, found) ↦ elim (Bool-cases s.base_seen) [
    | inl seen ↦
        rw seen (record { depth = refl; added = []; calls = sym (append-nil s.calls); bases = tt })
    | inr fresh ↦
        rw (fresh, found)
          (record {
            depth = refl;
            added = (kind_base, a.value) ∷ [];
            calls = refl;
            bases = (refl, tt);
          })
  ]
]

IsInert-refl : (s : PrescanSink) → IsInert s s
IsInert-refl s = record { depth = refl; added = []; calls = sym (append-nil s.calls); bases = tt }

start_tag-IsInert :
    (s : PrescanSink) (tag : Tag)
    → 0 < s.template_depth
    → is_named tag (codes "template" ∷ []) ≡ false
    → IsInert s (process_start_tag s tag).0
unfolding process_start_tag
start_tag-IsInert s tag deep other = elim (Bool-cases (is_named tag (codes "script" ∷ []))) [
  | inl yes_script ↦
      let outside : (s.template_depth == 0) ≡ false = ground arith in
      rw (yes_script, outside) (IsInert-refl s)
  | inr no_script ↦ elim (Bool-cases (is_named tag (codes "base" ∷ []))) [
    | inl yes_base ↦ rw (no_script, yes_base) (scan_base-IsInert s tag)
    | inr no_base ↦ subst (IsInert s) (ground arith) (IsInert-refl s)
  ]
]

tag-IsInert :
    (k : TagKind) (s : PrescanSink) (tag : Tag)
    → 0 < s.template_depth
    → (same_kind k start_tag && is_named tag (codes "template" ∷ [])) ≡ false
    → (same_kind k end_tag && is_named tag (codes "template" ∷ [])) ≡ false
    → IsInert s (process_tag k s tag).0
unfolding process_tag
tag-IsInert start_tag s tag deep a b = start_tag-IsInert s tag deep a
tag-IsInert end_tag s tag deep a b = rw b (IsInert-refl s)

step-IsInert :
    (s : PrescanSink) (t : Token)
    → 0 < s.template_depth
    → is_some (tag_of start_tag (codes "template") t) ≡ false
    → is_some (tag_of end_tag (codes "template") t) ≡ false
    → IsInert s (process_token s t).0
unfolding process_token tag_of
step-IsInert s (tag_token tag) deep a b =
    tag-IsInert tag.kind s tag deep (ground arith) (ground arith)
step-IsInert s _ deep a b = IsInert-refl s

open-depth :
    (s : PrescanSink) (t : Token)
    → Opens t
    → s.template_depth + 1 < 2 ^ 32
    → (process_token s t).0 ≡ record s { template_depth = s.template_depth + 1 }
unfolding process_token tag_of eq_bytes
open-depth s (tag_token tag) h fits = ground (
  arith,
  is_named_one tag (codes "template") (codes "script"),
  is_named_one tag (codes "template") (codes "base"),
)
open-depth s _ h fits = ground arith

close-depth :
    (s : PrescanSink) (t : Token)
    → Closes t
    → (process_token s t).0 ≡ record s { template_depth = s.template_depth - 1 }
unfolding process_token tag_of
close-depth s (tag_token tag) h = ground arith
close-depth s _ h = ground arith

process_tokens-cons :
    (s : PrescanSink) (t : Token) (ts : List Token)
    → process_tokens s (t ∷ ts) ≡ process_tokens (process_token s t).0 ts
unfolding process_tokens
process_tokens-cons s t ts = refl

process_tokens-append :
    (s : PrescanSink) (ts us : List Token)
    → process_tokens s (ts ++ us) ≡ process_tokens (process_tokens s ts) us
unfolding process_tokens
process_tokens-append s [] us = refl
process_tokens-append s (t ∷ ts) us = process_tokens-append (process_token s t).0 ts us

-- The calls and cells of `s'` are those after the template that `t` opens and `u` closes.
close-IsInert :
    (s s' : PrescanSink) (u : Token)
    → IsInert (record s { template_depth = s.template_depth + 1 }) s'
    → Closes u
    → IsInert s (process_token s' u).0
close-IsInert s s' u i c =
    rw (close-depth s' u c)
      (record { depth = omega (arith, i.depth); added = i.added; calls = i.calls; bases = i.bases })

Balanced-IsInert :
    {ts : List Token} (s : PrescanSink)
    → Balanced ts
    → 0 < s.template_depth
    → s.template_depth + length ts < 2 ^ 32
    → IsInert s (process_tokens s ts)
unfolding process_tokens
Balanced-IsInert s nil deep fits = IsInert-refl s
Balanced-IsInert s (plain t {ts} a b rest) deep fits =
    let i = step-IsInert s t deep a b in
    IsInert-trans i (
      Balanced-IsInert (process_token s t).0 rest (omega (arith, i.depth)) (omega (arith, i.depth)))
Balanced-IsInert s (nested t u {inner} {ts} o c b rest) deep fits =
    let deeper = record s { template_depth = s.template_depth + 1 } in
    let size = length-append inner (u ∷ ts) in
    let inside = Balanced-IsInert deeper b (omega arith) (omega (arith, size)) in
    let i = close-IsInert s (process_tokens deeper inner) u inside c in
    rw
      (
        process_tokens-cons s t,
        open-depth s t o (omega (arith, size)),
        process_tokens-append deeper inner (u ∷ ts),
        process_tokens-cons _ u,
      )
      (IsInert-trans i
        (Balanced-IsInert _ rest (omega (arith, i.depth)) (omega (arith, i.depth, size))))

-- Below 2^32 open templates, a template with balanced contents, from its start tag to its end
-- tag, reports no script: it adds calls for bases alone, and restores the depth.
pub template-IsInert :
    (s : PrescanSink) (t u : Token) {inner : List Token}
    → Opens t
    → Closes u
    → Balanced inner
    → s.template_depth + 1 + length inner < 2 ^ 32
    → IsInert s (process_tokens s (t ∷ (inner ++ (u ∷ []))))
unfolding process_tokens
template-IsInert s t u {inner} o c b fits =
    let deeper = record s { template_depth = s.template_depth + 1 } in
    let inside = Balanced-IsInert deeper b (omega arith) (omega arith) in
    rw
      (
        process_tokens-cons s t,
        open-depth s t o (omega arith),
        process_tokens-append deeper inner (u ∷ []),
      )
      (close-IsInert s (process_tokens deeper inner) u inside c)
