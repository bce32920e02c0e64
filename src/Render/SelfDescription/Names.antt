-- ===== src/Render/SelfDescription/Names.antt =====
-- `struct LpAbi` of src/rust/render/lib.rs: its fields by name, in order. Each is a `u32`.
use Prim.Native.String.{String}
use lightpanda_browser.Prelude.{List, [], ◌∷◌, ◌++◌, map}
use lightpanda_browser.Render.CLayout.{Struct}
use lightpanda_browser.Render.SelfDescription.Structs.{u32}

unfoldable pub span_names : List String
span_names =
    "span_size" ∷ "span_align" ∷ "span_text" ∷ "span_len" ∷ "span_flags" ∷ "span_color"
    ∷ "span_href" ∷ "span_href_len" ∷ []

unfoldable pub block_names : List String
block_names =
    "block_size" ∷ "block_align" ∷ "block_spans" ∷ "block_spans_len" ∷ "block_marker"
    ∷ "block_marker_len" ∷ "block_kind" ∷ "block_level" ∷ "block_list_depth" ∷ "block_quote_depth"
    ∷ "block_flags" ∷ []

unfoldable pub opts_names : List String
opts_names =
    "opts_size" ∷ "opts_align" ∷ "opts_width" ∷ "opts_height" ∷ "opts_clip_x" ∷ "opts_clip_y"
    ∷ "opts_clip_w" ∷ "opts_clip_h" ∷ "opts_scale" ∷ "opts_flags" ∷ []

unfoldable pub layout_names : List String
layout_names =
    "layout_sizeof" ∷ "layout_alignof" ∷ "layout_height" ∷ "layout_pre_pad" ∷ "layout_quote_indent"
    ∷ "layout_rule_color" ∷ "layout_pre_bg" ∷ "layout_blocks" ∷ "layout_blocks_len" ∷ "layout_lines"
    ∷ "layout_lines_len" ∷ "layout_runs" ∷ "layout_runs_len" ∷ "layout_glyphs" ∷ "layout_glyphs_len"
    ∷ "layout_clusters" ∷ "layout_clusters_len" ∷ "layout_fonts" ∷ "layout_fonts_len" ∷ []

unfoldable pub lblock_names : List String
lblock_names =
    "lblock_sizeof" ∷ "lblock_alignof" ∷ "lblock_x" ∷ "lblock_y" ∷ "lblock_quote_x" ∷ "lblock_lines"
    ∷ "lblock_lines_len" ∷ "lblock_marker_line" ∷ "lblock_kind" ∷ "lblock_quote_bars" ∷ []

unfoldable pub line_names : List String
line_names =
    "line_sizeof" ∷ "line_alignof" ∷ "line_x" ∷ "line_top" ∷ "line_bottom" ∷ "line_runs"
    ∷ "line_runs_len" ∷ "line_clusters" ∷ "line_clusters_len" ∷ []

unfoldable pub run_names : List String
run_names =
    "run_sizeof" ∷ "run_alignof" ∷ "run_font" ∷ "run_size" ∷ "run_skew" ∷ "run_color" ∷ "run_offset"
    ∷ "run_baseline" ∷ "run_advance" ∷ "run_glyphs" ∷ "run_glyphs_len" ∷ "run_underline"
    ∷ "run_strike" ∷ []

unfoldable pub deco_names : List String
deco_names =
    "deco_sizeof" ∷ "deco_alignof" ∷ "deco_enabled" ∷ "deco_offset" ∷ "deco_size" ∷ "deco_color"
    ∷ []

unfoldable pub glyph_names : List String
glyph_names =
    "glyph_sizeof" ∷ "glyph_alignof" ∷ "glyph_id" ∷ "glyph_x" ∷ "glyph_y" ∷ "glyph_advance" ∷ []

unfoldable pub cluster_names : List String
cluster_names =
    "cluster_sizeof" ∷ "cluster_alignof" ∷ "cluster_font" ∷ "cluster_glyph" ∷ "cluster_text_start"
    ∷ "cluster_text_len" ∷ "cluster_x" ∷ "cluster_advance" ∷ "cluster_flags" ∷ []

unfoldable pub font_names : List String
font_names =
    "font_sizeof" ∷ "font_alignof" ∷ "font_data" ∷ "font_data_len" ∷ "font_index" ∷ "font_name"
    ∷ "font_name_len" ∷ "font_mono" ∷ []

unfoldable pub constant_names : List String
constant_names =
    "layout_none" ∷ "cluster_ligature_start" ∷ "cluster_ligature_cont" ∷ "span_bold" ∷ "span_italic"
    ∷ "span_underline" ∷ "span_mono" ∷ "span_strike" ∷ "span_has_color" ∷ "block_heading"
    ∷ "block_pre" ∷ "block_rule" ∷ "block_tight" ∷ "render_measure_only" ∷ "rc_ok"
    ∷ "rc_write_refused" ∷ "rc_invalid" ∷ "rc_no_raster" ∷ "rc_encode_failed" ∷ "rc_panic" ∷ []

unfoldable pub lp_abi_names : List String
unfolding span_names block_names opts_names layout_names lblock_names line_names run_names
    deco_names glyph_names cluster_names font_names constant_names
lp_abi_names =
    "size" ∷ span_names
    ++ (block_names
        ++ (opts_names
            ++ (layout_names
                ++ (lblock_names
                    ++ (line_names
                        ++ (run_names
                            ++ (deco_names
                                ++ (glyph_names
                                    ++ (cluster_names ++ (font_names ++ constant_names))))))))))

-- A struct of `u32` fields with these names.
unfoldable pub all_u32 : List String → Struct
all_u32 names = map (λ name. (name, u32)) names

unfoldable pub lp_abi_type : Struct
unfolding lp_abi_names all_u32
lp_abi_type = all_u32 lp_abi_names
