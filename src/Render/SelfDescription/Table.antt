-- ===== src/Render/SelfDescription/Table.antt =====
-- `lp_render_abi` of src/rust/render/lib.rs: what it writes to `*out`, by the name of the field.
use Prim.Native.String.{String}
use text.Mathlib.Text.{◌==◌}
use lightpanda_browser.Prelude.{ℕ, List, [], ◌∷◌, ◌++◌, Option, none, some, if◌then◌else◌}
use lightpanda_browser.Render.Abi.{
  as_u32, layout_none, block_heading, block_pre, block_rule, cluster_ligature_start,
  cluster_ligature_cont,
}
use lightpanda_browser.Render.Flow.{
  span_bold, span_italic, span_underline, span_mono, span_strike, span_has_color, block_tight,
}
use lightpanda_browser.Render.Png.{
  render_measure_only, rc_ok, rc_write_refused, rc_invalid, rc_no_raster, rc_encode_failed,
  rc_panic,
}
use lightpanda_browser.Render.CLayout.{Struct, size_of, align_of, offset_of}
use lightpanda_browser.Render.SelfDescription.Structs.{
  Target, lp_span_type, lp_block_type, lp_render_opts_type, lp_decoration_type, lp_glyph_type,
  lp_cluster_type, lp_run_type, lp_line_type, lp_layout_block_type, lp_font_type, lp_layout_type,
}
use lightpanda_browser.Render.SelfDescription.Names.{lp_abi_type}

-- `none` is a value that does not compile.
abbrev pub Table : Type 0
Table = List (String × Option ℕ)

-- `offset_of!(s, field) as u32`.
unfoldable pub offset_u32 : Struct → String → Option ℕ
unfolding offset_of
offset_u32 s field = elim (offset_of s field) [ none ↦ none | some at ↦ some (as_u32 at) ]

unfoldable pub span_entries : Target → Table
unfolding size_of align_of offset_u32 lp_span_type
span_entries t =
    ("span_size", some (as_u32 (size_of (lp_span_type t))))
    ∷ ("span_align", some (as_u32 (align_of (lp_span_type t))))
    ∷ ("span_text", offset_u32 (lp_span_type t) "text")
    ∷ ("span_len", offset_u32 (lp_span_type t) "len")
    ∷ ("span_flags", offset_u32 (lp_span_type t) "flags")
    ∷ ("span_color", offset_u32 (lp_span_type t) "color")
    ∷ ("span_href", offset_u32 (lp_span_type t) "href")
    ∷ ("span_href_len", offset_u32 (lp_span_type t) "href_len")
    ∷ []

unfoldable pub block_entries : Target → Table
unfolding size_of align_of offset_u32 lp_block_type
block_entries t =
    ("block_size", some (as_u32 (size_of (lp_block_type t))))
    ∷ ("block_align", some (as_u32 (align_of (lp_block_type t))))
    ∷ ("block_spans", offset_u32 (lp_block_type t) "spans")
    ∷ ("block_spans_len", offset_u32 (lp_block_type t) "spans_len")
    ∷ ("block_marker", offset_u32 (lp_block_type t) "marker")
    ∷ ("block_marker_len", offset_u32 (lp_block_type t) "marker_len")
    ∷ ("block_kind", offset_u32 (lp_block_type t) "kind")
    ∷ ("block_level", offset_u32 (lp_block_type t) "level")
    ∷ ("block_list_depth", offset_u32 (lp_block_type t) "list_depth")
    ∷ ("block_quote_depth", offset_u32 (lp_block_type t) "quote_depth")
    ∷ ("block_flags", offset_u32 (lp_block_type t) "flags")
    ∷ []

unfoldable pub opts_entries : Table
unfolding size_of align_of offset_u32 lp_render_opts_type
opts_entries =
    ("opts_size", some (as_u32 (size_of lp_render_opts_type)))
    ∷ ("opts_align", some (as_u32 (align_of lp_render_opts_type)))
    ∷ ("opts_width", offset_u32 lp_render_opts_type "width")
    ∷ ("opts_height", offset_u32 lp_render_opts_type "height")
    ∷ ("opts_clip_x", offset_u32 lp_render_opts_type "clip_x")
    ∷ ("opts_clip_y", offset_u32 lp_render_opts_type "clip_y")
    ∷ ("opts_clip_w", offset_u32 lp_render_opts_type "clip_w")
    ∷ ("opts_clip_h", offset_u32 lp_render_opts_type "clip_h")
    ∷ ("opts_scale", offset_u32 lp_render_opts_type "scale")
    ∷ ("opts_flags", offset_u32 lp_render_opts_type "flags")
    ∷ []

unfoldable pub layout_entries : Target → Table
unfolding size_of align_of offset_u32 lp_layout_type
layout_entries t =
    ("layout_sizeof", some (as_u32 (size_of (lp_layout_type t))))
    ∷ ("layout_alignof", some (as_u32 (align_of (lp_layout_type t))))
    ∷ ("layout_height", offset_u32 (lp_layout_type t) "height")
    ∷ ("layout_pre_pad", offset_u32 (lp_layout_type t) "pre_pad")
    ∷ ("layout_quote_indent", offset_u32 (lp_layout_type t) "quote_indent")
    ∷ ("layout_rule_color", offset_u32 (lp_layout_type t) "rule_color")
    ∷ ("layout_pre_bg", offset_u32 (lp_layout_type t) "pre_bg")
    ∷ ("layout_blocks", offset_u32 (lp_layout_type t) "blocks")
    ∷ ("layout_blocks_len", offset_u32 (lp_layout_type t) "blocks_len")
    ∷ ("layout_lines", offset_u32 (lp_layout_type t) "lines")
    ∷ ("layout_lines_len", offset_u32 (lp_layout_type t) "lines_len")
    ∷ ("layout_runs", offset_u32 (lp_layout_type t) "runs")
    ∷ ("layout_runs_len", offset_u32 (lp_layout_type t) "runs_len")
    ∷ ("layout_glyphs", offset_u32 (lp_layout_type t) "glyphs")
    ∷ ("layout_glyphs_len", offset_u32 (lp_layout_type t) "glyphs_len")
    ∷ ("layout_clusters", offset_u32 (lp_layout_type t) "clusters")
    ∷ ("layout_clusters_len", offset_u32 (lp_layout_type t) "clusters_len")
    ∷ ("layout_fonts", offset_u32 (lp_layout_type t) "fonts")
    ∷ ("layout_fonts_len", offset_u32 (lp_layout_type t) "fonts_len")
    ∷ []

unfoldable pub lblock_entries : Table
unfolding size_of align_of offset_u32 lp_layout_block_type
lblock_entries =
    ("lblock_sizeof", some (as_u32 (size_of lp_layout_block_type)))
    ∷ ("lblock_alignof", some (as_u32 (align_of lp_layout_block_type)))
    ∷ ("lblock_x", offset_u32 lp_layout_block_type "x")
    ∷ ("lblock_y", offset_u32 lp_layout_block_type "y")
    ∷ ("lblock_quote_x", offset_u32 lp_layout_block_type "quote_x")
    ∷ ("lblock_lines", offset_u32 lp_layout_block_type "lines")
    ∷ ("lblock_lines_len", offset_u32 lp_layout_block_type "lines_len")
    ∷ ("lblock_marker_line", offset_u32 lp_layout_block_type "marker_line")
    ∷ ("lblock_kind", offset_u32 lp_layout_block_type "kind")
    ∷ ("lblock_quote_bars", offset_u32 lp_layout_block_type "quote_bars")
    ∷ []

unfoldable pub line_entries : Table
unfolding size_of align_of offset_u32 lp_line_type
line_entries =
    ("line_sizeof", some (as_u32 (size_of lp_line_type)))
    ∷ ("line_alignof", some (as_u32 (align_of lp_line_type)))
    ∷ ("line_x", offset_u32 lp_line_type "x")
    ∷ ("line_top", offset_u32 lp_line_type "top")
    ∷ ("line_bottom", offset_u32 lp_line_type "bottom")
    ∷ ("line_runs", offset_u32 lp_line_type "runs")
    ∷ ("line_runs_len", offset_u32 lp_line_type "runs_len")
    ∷ ("line_clusters", offset_u32 lp_line_type "clusters")
    ∷ ("line_clusters_len", offset_u32 lp_line_type "clusters_len")
    ∷ []

unfoldable pub run_entries : Table
unfolding size_of align_of offset_u32 lp_run_type
run_entries =
    ("run_sizeof", some (as_u32 (size_of lp_run_type)))
    ∷ ("run_alignof", some (as_u32 (align_of lp_run_type)))
    ∷ ("run_font", offset_u32 lp_run_type "font")
    ∷ ("run_size", offset_u32 lp_run_type "size")
    ∷ ("run_skew", offset_u32 lp_run_type "skew")
    ∷ ("run_color", offset_u32 lp_run_type "color")
    ∷ ("run_offset", offset_u32 lp_run_type "offset")
    ∷ ("run_baseline", offset_u32 lp_run_type "baseline")
    ∷ ("run_advance", offset_u32 lp_run_type "advance")
    ∷ ("run_glyphs", offset_u32 lp_run_type "glyphs")
    ∷ ("run_glyphs_len", offset_u32 lp_run_type "glyphs_len")
    ∷ ("run_underline", offset_u32 lp_run_type "underline")
    ∷ ("run_strike", offset_u32 lp_run_type "strike")
    ∷ []

unfoldable pub deco_entries : Table
unfolding size_of align_of offset_u32 lp_decoration_type
deco_entries =
    ("deco_sizeof", some (as_u32 (size_of lp_decoration_type)))
    ∷ ("deco_alignof", some (as_u32 (align_of lp_decoration_type)))
    ∷ ("deco_enabled", offset_u32 lp_decoration_type "enabled")
    ∷ ("deco_offset", offset_u32 lp_decoration_type "offset")
    ∷ ("deco_size", offset_u32 lp_decoration_type "size")
    ∷ ("deco_color", offset_u32 lp_decoration_type "color")
    ∷ []

unfoldable pub glyph_entries : Table
unfolding size_of align_of offset_u32 lp_glyph_type
glyph_entries =
    ("glyph_sizeof", some (as_u32 (size_of lp_glyph_type)))
    ∷ ("glyph_alignof", some (as_u32 (align_of lp_glyph_type)))
    ∷ ("glyph_id", offset_u32 lp_glyph_type "id")
    ∷ ("glyph_x", offset_u32 lp_glyph_type "x")
    ∷ ("glyph_y", offset_u32 lp_glyph_type "y")
    ∷ ("glyph_advance", offset_u32 lp_glyph_type "advance")
    ∷ []

unfoldable pub cluster_entries : Table
unfolding size_of align_of offset_u32 lp_cluster_type
cluster_entries =
    ("cluster_sizeof", some (as_u32 (size_of lp_cluster_type)))
    ∷ ("cluster_alignof", some (as_u32 (align_of lp_cluster_type)))
    ∷ ("cluster_font", offset_u32 lp_cluster_type "font")
    ∷ ("cluster_glyph", offset_u32 lp_cluster_type "glyph")
    ∷ ("cluster_text_start", offset_u32 lp_cluster_type "text_start")
    ∷ ("cluster_text_len", offset_u32 lp_cluster_type "text_len")
    ∷ ("cluster_x", offset_u32 lp_cluster_type "x")
    ∷ ("cluster_advance", offset_u32 lp_cluster_type "advance")
    ∷ ("cluster_flags", offset_u32 lp_cluster_type "flags")
    ∷ []

unfoldable pub font_entries : Target → Table
unfolding size_of align_of offset_u32 lp_font_type
font_entries t =
    ("font_sizeof", some (as_u32 (size_of (lp_font_type t))))
    ∷ ("font_alignof", some (as_u32 (align_of (lp_font_type t))))
    ∷ ("font_data", offset_u32 (lp_font_type t) "data")
    ∷ ("font_data_len", offset_u32 (lp_font_type t) "data_len")
    ∷ ("font_index", offset_u32 (lp_font_type t) "index")
    ∷ ("font_name", offset_u32 (lp_font_type t) "name")
    ∷ ("font_name_len", offset_u32 (lp_font_type t) "name_len")
    ∷ ("font_mono", offset_u32 (lp_font_type t) "mono")
    ∷ []

unfoldable pub constant_entries : Table
constant_entries =
    ("layout_none", some layout_none)
    ∷ ("cluster_ligature_start", some cluster_ligature_start)
    ∷ ("cluster_ligature_cont", some cluster_ligature_cont)
    ∷ ("span_bold", some span_bold)
    ∷ ("span_italic", some span_italic)
    ∷ ("span_underline", some span_underline)
    ∷ ("span_mono", some span_mono)
    ∷ ("span_strike", some span_strike)
    ∷ ("span_has_color", some span_has_color)
    ∷ ("block_heading", some block_heading)
    ∷ ("block_pre", some block_pre)
    ∷ ("block_rule", some block_rule)
    ∷ ("block_tight", some block_tight)
    ∷ ("render_measure_only", some render_measure_only)
    ∷ ("rc_ok", some rc_ok)
    ∷ ("rc_write_refused", some rc_write_refused)
    ∷ ("rc_invalid", some rc_invalid)
    ∷ ("rc_no_raster", some rc_no_raster)
    ∷ ("rc_encode_failed", some rc_encode_failed)
    ∷ ("rc_panic", some rc_panic)
    ∷ []

unfoldable pub lp_render_abi : Target → Table
unfolding size_of lp_abi_type span_entries block_entries opts_entries layout_entries lblock_entries
    line_entries run_entries deco_entries glyph_entries cluster_entries font_entries
    constant_entries
lp_render_abi t =
    ("size", some (as_u32 (size_of lp_abi_type))) ∷ span_entries t
    ++ (block_entries t
        ++ (opts_entries
            ++ (layout_entries t
                ++ (lblock_entries
                    ++ (line_entries
                        ++ (run_entries
                            ++ (deco_entries
                                ++ (glyph_entries
                                    ++ (cluster_entries
                                        ++ (font_entries t ++ constant_entries))))))))))

-- What a reader finds in the field `name`.
unfoldable pub entry : String → Table → Option ℕ
entry name [] = none
entry name ((field, value) ∷ table) = if field == name then value else entry name table
