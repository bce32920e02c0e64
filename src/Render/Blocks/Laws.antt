-- ===== src/Render/Blocks/Laws.antt =====
-- Which blocks the renderer accepts, and what it reads from them.
use lightpanda_browser.Prelude.{
  true, Bool-cases, List, [], ◌∷◌, some, inl, inr, ◌≡◌, refl, All, if◌then◌else◌,
}
use lightpanda_browser.Prelude.Utf8.{is_utf8, from_utf8}
use lightpanda_browser.Prelude.Slices.{All2}
use lightpanda_browser.Ffi.{RawSlice, read}
use lightpanda_browser.Render.Blocks.{
  LpSpan, LpBlock, Span, Block, span_from_ffi, spans_from_ffi, marker_from_ffi, block_from_ffi,
  blocks_from_ffi,
}

abbrev pub IsText : LpBlock → Type 0
IsText b = All (λ s. is_utf8 (read s.text) ≡ true) b.spans

-- A span as it was handed over; `href` is left out.
pub record SameSpan (s : LpSpan) (span : Span) : Type 0 where
  pub text : span.text ≡ read s.text
  pub flags : span.flags ≡ s.flags
  pub color : span.color ≡ s.color

pub record SameBlock (b : LpBlock) (block : Block) : Type 0 where
  pub kind : block.kind ≡ b.kind
  pub level : block.level ≡ b.level
  pub list_depth : block.list_depth ≡ b.list_depth
  pub quote_depth : block.quote_depth ≡ b.quote_depth
  pub flags : block.flags ≡ b.flags
  -- A marker that is not UTF-8 is dropped.
  pub marker : block.marker ≡ (if is_utf8 (read b.marker) then read b.marker else [])
  pub spans : All2 SameSpan b.spans block.spans

span_from_ffi-text :
    (s : LpSpan)
    → is_utf8 (read s.text) ≡ true
    → (span : Span) × (span_from_ffi s ≡ some span) × SameSpan s span
unfolding span_from_ffi from_utf8
span_from_ffi-text s valid = (
  _,
  rw (valid, span_from_ffi, from_utf8) refl,
  record { text = refl; flags = refl; color = refl },
)

spans_from_ffi-text :
    (spans : List LpSpan)
    → All (λ s. is_utf8 (read s.text) ≡ true) spans
    → (out : List Span) × (spans_from_ffi spans ≡ some out) × All2 SameSpan spans out
unfolding spans_from_ffi
spans_from_ffi-text [] valid = ([], refl, tt)
spans_from_ffi-text (s ∷ rest) valid =
    let (span, one, same) = span_from_ffi-text s valid.0 in
    let (out, more, all) = spans_from_ffi-text rest valid.1 in
    (span ∷ out, rw (one, more, spans_from_ffi) refl, (same, all))

marker_from_ffi-text :
    (marker : RawSlice)
    → marker_from_ffi marker ≡ (if is_utf8 (read marker) then read marker else [])
unfolding marker_from_ffi from_utf8
marker_from_ffi-text marker = elim (Bool-cases (is_utf8 (read marker))) [
  | inl valid ↦ rw (valid, marker_from_ffi, from_utf8) refl
  | inr bad ↦ rw (bad, marker_from_ffi, from_utf8) refl
]

block_from_ffi-text :
    (b : LpBlock) → IsText b → (block : Block) × (block_from_ffi b ≡ some block) × SameBlock b block
unfolding block_from_ffi
block_from_ffi-text b valid =
    let (spans, read_spans, all) = spans_from_ffi-text b.spans valid in
    (
      _,
      rw (read_spans, block_from_ffi) refl,
      record {
        kind = refl;
        level = refl;
        list_depth = refl;
        quote_depth = refl;
        flags = refl;
        marker = marker_from_ffi-text b.marker;
        spans = all;
      },
    )

-- Blocks whose spans are all UTF-8 are accepted, in their order and with all their fields; the
-- one text that may be dropped is a marker that is not UTF-8.
pub blocks_from_ffi-SameBlock :
    (blocks : List LpBlock)
    → All IsText blocks
    → (doc : List Block) × (blocks_from_ffi blocks ≡ some doc) × All2 SameBlock blocks doc
unfolding blocks_from_ffi
blocks_from_ffi-SameBlock [] valid = ([], refl, tt)
blocks_from_ffi-SameBlock (b ∷ rest) valid =
    let (block, one, same) = block_from_ffi-text b valid.0 in
    let (doc, more, all) = blocks_from_ffi-SameBlock rest valid.1 in
    (block ∷ doc, rw (one, more, blocks_from_ffi) refl, (same, all))
