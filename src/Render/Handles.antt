-- ===== src/Render/Handles.antt =====
-- `lp_layout_new` and `lp_layout_free` of src/rust/render/lib.rs: an exported layout behind a raw
-- pointer, and the view of it that is written to `out`.
pub mod Laws
use lightpanda_browser.Prelude.{
  ℕ, Bool, true, false, not, ◌||◌, List, Option, none, some, if◌then◌else◌,
}
use lightpanda_browser.Heap.{Heap, null, into_raw, drop_raw}
use lightpanda_browser.Render.Float.{Float}
use lightpanda_browser.Render.Text.{Rgb, packed}
use lightpanda_browser.Render.Abi.{LpLayout}
use lightpanda_browser.Render.Blocks.{LpBlock, blocks_from_ffi}
use lightpanda_browser.Render.Export.{Face, LayoutHandle, export_placed}
use lightpanda_browser.Render.Flow.{Parley, layout, pre_pad, quote_indent}

abbrev pub rule_color : Rgb
rule_color = record { red = 0xcc; green = 0xcc; blue = 0xcc }

abbrev pub pre_bg : Rgb
pre_bg = record { red = 0xf4; green = 0xf4; blue = 0xf4 }

module _ (fl : Float) where
  open fl use {F, lit, ge, is_finite}

  unfoldable pub view : LayoutHandle F → LpLayout F
  unfolding packed
  view h = record {
    height = h.height;
    pre_pad = pre_pad fl;
    quote_indent = quote_indent fl;
    rule_color = packed rule_color;
    pre_bg = packed pre_bg;
    blocks = h.blocks;
    lines = h.lines;
    runs = h.runs;
    glyphs = h.glyphs;
    clusters = h.clusters;
    fonts = h.fonts;
  }

  -- The test at the start, as it is refused.
  unfoldable pub bad_column : (width margin : F) → Bool
  bad_column width margin =
      not (ge width (lit 1 1))
      || not (is_finite width)
      || not (ge margin (lit 0 1))
      || not (is_finite margin)

  module _ (parley : Parley F) (faces : List Face) where
    -- The closure under `catch_unwind`: the handle; `none` is a null pointer, for a refused input
    -- or for a panic.
    unfoldable pub new_handle : List LpBlock → (width margin : F) → Option (LayoutHandle F)
    unfolding bad_column
    new_handle blocks width margin =
        if bad_column width margin then none else elim (blocks_from_ffi blocks) [
          | none ↦ none
          | some doc ↦ elim (layout fl parley doc width margin (lit 1 1)) [
            | none ↦ none
            | some (placed, height) ↦ some (export_placed fl faces placed height)
          ]
        ]

    -- The pointer, what is written to `*out`, and the handles.
    unfoldable pub lp_layout_new :
        List LpBlock
        → (width margin : F) → Heap (LayoutHandle F)
        → ℕ × Option (LpLayout F) × Heap (LayoutHandle F)
    unfolding new_handle
    lp_layout_new blocks width margin h = elim (new_handle blocks width margin) [
      | none ↦ (null, none, h)
      | some handle ↦ let (p, g) = into_raw handle h in (p, some (view handle), g)
    ]

  unfoldable pub lp_layout_free : ℕ → Heap (LayoutHandle F) → Option (Heap (LayoutHandle F))
  lp_layout_free p h = drop_raw p h
