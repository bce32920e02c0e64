-- ===== src/Render/Flow.antt =====
-- `Renderer::layout` of src/rust/render/lib.rs: blocks are flowed into a column. Shaping and line
-- breaking are `parley`'s, the record `Parley`; `none` is a panic there.
pub mod Styles
pub mod Laws
use lightpanda_browser.Prelude.{
  ℕ, ◌/◌, ◌%◌, Bool, true, false, not, ◌&&◌, ◌||◌, List, [], ◌∷◌, ◌++◌, Option, none, some, Bytes,
  ◌==◌, if◌then◌else◌, is_empty, ltb,
}
use lightpanda_browser.Render.Float.{Float}
use lightpanda_browser.Render.Text.{Rgb, Layout}
use lightpanda_browser.Render.Abi.{block_heading, block_pre, block_rule}
use lightpanda_browser.Render.Blocks.{Span, Block}
use lightpanda_browser.Render.Export.{Marker, Placed}
pub use lightpanda_browser.Render.Flow.Styles.{
  has_flag, span_bold, span_italic, span_underline, span_mono, span_strike, span_has_color,
  block_tight, text_color, Property, RootStyle, Parley, Metrics, base_size, list_indent,
  quote_indent, pre_pad, marker_properties, bold, italic, underline, strikethrough, monospace,
  font_size, brush, underline_brush, strikethrough_brush,
}
unfoldable pub use lightpanda_browser.Render.Flow.Styles.{
  heading_scale, block_metrics, span_color, span_properties, styled_spans, pad_of, root_style,
  line_width,
}

module _ (fl : Float) where
  open fl use {F, lit, add, sub, mul, div, max_of, from}

  module _ (parley : Parley F) where
    open parley use {build, build_line, empty}

    -- The marker, right-aligned in front of `left`.
    unfoldable pub layout_marker : Bytes → (left scale : F) → Option (Option (Marker F))
    layout_marker text left scale =
        if is_empty text then some none else elim (build_line scale (marker_properties fl) text) [
          | none ↦ none
          | some ml ↦ some (
              some (record {
                layout = ml;
                x = sub (sub (mul left scale) ml.width) (mul (lit 6 1) scale);
              }))
        ]

    -- A block that is not a rule: what is placed, and its height.
    unfoldable pub layout_text :
        Block → Metrics F → (content_w margin scale y indent quote_x : F) → Option (Placed F × F)
    unfolding layout_marker styled_spans root_style line_width pad_of
    layout_text block m content_w margin scale y indent quote_x =
        elim (build (root_style fl block m) scale
          (styled_spans fl (block.kind == block_pre) m.size block.spans)
          (line_width fl block content_w indent scale)) [
            | none ↦ none
            | some shaped ↦ elim (layout_marker block.marker (add margin indent) scale) [
              | none ↦ none
              | some marker ↦ some (
                record {
                  layout = shaped;
                  x = add (add margin indent) (pad_of fl block);
                  y = add y (pad_of fl block);
                  kind = block.kind;
                  marker = marker;
                  quote_bars = block.quote_depth;
                  quote_x = quote_x;
                },
                add (div shaped.height scale) (mul (lit 2 1) (pad_of fl block)),
              )
            ]
          ]

    -- The space above a block.
    unfoldable pub gap_above : Option F → F → F
    gap_above none before = lit 0 1
    gap_above (some after) before = max_of after before

    -- One round of the loop, behind the gap above the block: what is placed, and the new `y`.
    unfoldable pub place_block :
        (content_w margin scale top : F) → Metrics F → Block → Option (Placed F × F)
    unfolding layout_text
    place_block content_w margin scale top m block =
        let indent =
          add (mul (from block.list_depth) (list_indent fl))
            (mul (from block.quote_depth) (quote_indent fl)) in
        let quote_x = add margin (mul (from block.list_depth) (list_indent fl)) in
        if block.kind == block_rule
        then some (
          record {
            layout = empty;
            x = add margin indent;
            y = top;
            kind = block_rule;
            marker = none;
            quote_bars = 0;
            quote_x = quote_x;
          },
          add top (lit 1 1),
        )
        else elim (layout_text block m content_w margin scale top indent quote_x) [
          | none ↦ none
          | some (p, height) ↦ some (p, add top height)
        ]

    unfoldable pub layout_block :
        (content_w margin scale y : F) → Option F → Block → Option (Placed F × F)
    unfolding block_metrics gap_above place_block
    layout_block content_w margin scale y prev_after block =
        let m = block_metrics fl block in
        place_block content_w margin scale (add y (gap_above prev_after m.before)) m block

    unfoldable pub layout_blocks :
        (content_w margin scale y : F) → Option F → List Block → Option (List (Placed F) × F)
    unfolding layout_block
    layout_blocks content_w margin scale y prev_after [] = some ([], y)
    layout_blocks content_w margin scale y prev_after (b ∷ rest) =
        elim (layout_block content_w margin scale y prev_after b) [
          | none ↦ none
          | some (p, y') ↦
              elim (layout_blocks content_w margin scale y' (some (block_metrics fl b).after)
                rest) [ none ↦ none | some (ps, bottom) ↦ some (p ∷ ps, bottom) ]
        ]

    -- The placed blocks, and the height of the column.
    unfoldable pub layout : List Block → (width margin scale : F) → Option (List (Placed F) × F)
    layout blocks width margin scale =
        let content_w = max_of (sub width (mul (lit 2 1) margin)) (lit 1 1) in
        elim (layout_blocks content_w margin scale margin none blocks) [
          | none ↦ none
          | some (placed, y) ↦ some (placed, add y margin)
        ]
