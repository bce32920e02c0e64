-- ===== src/Render/Blocks.antt =====
-- What the Zig side hands over to src/rust/render/lib.rs: spans and blocks.
pub mod Laws
use lightpanda_browser.Prelude.{ℕ, List, [], ◌∷◌, Option, none, some, Bytes}
use lightpanda_browser.Prelude.Utf8.{from_utf8}
use lightpanda_browser.Ffi.{RawSlice, read}

pub record LpSpan : Type 0 where
  pub text : RawSlice
  pub flags : ℕ
  pub color : ℕ
  pub href : RawSlice

-- `spans` and `spans_len` are the list.
pub record LpBlock : Type 0 where
  pub spans : List LpSpan
  pub marker : RawSlice
  pub kind : ℕ
  pub level : ℕ
  pub list_depth : ℕ
  pub quote_depth : ℕ
  pub flags : ℕ

pub record Span : Type 0 where
  pub text : Bytes
  pub flags : ℕ
  pub color : ℕ

pub record Block : Type 0 where
  pub kind : ℕ
  pub level : ℕ
  pub list_depth : ℕ
  pub quote_depth : ℕ
  pub flags : ℕ
  pub marker : Bytes
  pub spans : List Span

unfoldable pub span_from_ffi : LpSpan → Option Span
unfolding from_utf8 read
span_from_ffi s = elim (from_utf8 (read s.text)) [
  | none ↦ none
  | some text ↦ some (record { text = text; flags = s.flags; color = s.color })
]

-- The loop over spans; `?` leaves the whole function.
unfoldable pub spans_from_ffi : List LpSpan → Option (List Span)
unfolding span_from_ffi
spans_from_ffi [] = some []
spans_from_ffi (s ∷ rest) = elim (span_from_ffi s) [
  | none ↦ none
  | some span ↦ elim (spans_from_ffi rest) [ none ↦ none | some spans ↦ some (span ∷ spans) ]
]

-- `unwrap_or("")`.
unfoldable pub marker_from_ffi : RawSlice → Bytes
unfolding from_utf8 read
marker_from_ffi marker = elim (from_utf8 (read marker)) [ none ↦ [] | some m ↦ m ]

unfoldable pub block_from_ffi : LpBlock → Option Block
unfolding spans_from_ffi marker_from_ffi
block_from_ffi b = elim (spans_from_ffi b.spans) [
  | none ↦ none
  | some spans ↦ some (record {
    kind = b.kind;
    level = b.level;
    list_depth = b.list_depth;
    quote_depth = b.quote_depth;
    flags = b.flags;
    marker = marker_from_ffi b.marker;
    spans = spans;
  })
]

unfoldable pub blocks_from_ffi : List LpBlock → Option (List Block)
unfolding block_from_ffi
blocks_from_ffi [] = some []
blocks_from_ffi (b ∷ rest) = elim (block_from_ffi b) [
  | none ↦ none
  | some block ↦ elim (blocks_from_ffi rest) [ none ↦ none | some blocks ↦ some (block ∷ blocks) ]
]
