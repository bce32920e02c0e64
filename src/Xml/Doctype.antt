-- ===== src/Xml/Doctype.antt =====
-- `strip_doctype_internal_subset` (src/rust/html5ever/lib.rs).
pub mod Position
pub mod Shape
pub mod Subset
use lightpanda_browser.Prelude.{
  ℕ, ◌+◌, Bool, true, false, ◌||◌, ◌&&◌, List, [], ◌∷◌, ◌++◌, Option, none, some, Bytes, codes,
  eq_bytes, ◌==◌, if◌then◌else◌, is_some, not, take, drop, length,
}

-- `bytes.windows(needle.len()).position(|w| w == needle)`, for a needle that is not empty.
unfoldable pub position : Bytes → Bytes → Option ℕ
position needle [] = none
position needle (c ∷ cs) =
    if eq_bytes (take (length needle) (c ∷ cs)) needle
    then some 0
    else elim (position needle cs) [ none ↦ none | some i ↦ some (i + 1) ]

-- One round of the loop: it returns a text, or goes on with `quote` and `bracket`.
pub data Round : Type 0 where
  done : Bytes → Round
  go : (quote bracket : Option ℕ) → Round

-- The `match` on the byte outside quotes, `i` the index of that byte.
unfoldable pub plain_round : Bytes → ℕ → Option ℕ → ℕ → Round
plain_round bytes i bracket c =
    if c == b'"' || c == b'\''
    then go (some c) bracket
    else if c == b'>' && not (is_some bracket)
    then done bytes
    else if c == b'[' && not (is_some bracket)
    then go none (some i)
    else if c == b']'
    then elim bracket [ none ↦ go none none | some o ↦ done (take o bytes ++ drop (i + 1) bytes) ]
    else go none bracket

unfoldable pub round : Bytes → ℕ → (quote bracket : Option ℕ) → ℕ → Round
unfolding plain_round
round bytes i none bracket c = plain_round bytes i bracket c
round bytes i (some q) bracket c = go (if c == q then none else some q) bracket

-- The loop, over what is left from index `i` on.
unfoldable pub scan : Bytes → ℕ → (quote bracket : Option ℕ) → Bytes → Bytes
scan bytes i quote bracket [] = bytes
scan bytes i quote bracket (c ∷ cs) = elim (round bytes i quote bracket c) [
  | done out ↦ out
  | go quote' bracket' ↦ scan bytes (i + 1) quote' bracket' cs
]

unfoldable pub strip_doctype_internal_subset : Bytes → Bytes
strip_doctype_internal_subset bytes = elim (position (codes "<!DOCTYPE") bytes) [
  | none ↦ bytes
  | some doctype ↦ scan bytes (doctype + 9) none none (drop (doctype + 9) bytes)
]
