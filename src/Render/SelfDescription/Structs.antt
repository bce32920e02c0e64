-- ===== src/Render/SelfDescription/Structs.antt =====
-- The `#[repr(C)]` structs of src/rust/render/lib.rs, as their layout sees them.
use lightpanda_browser.Prelude.{ℕ, [], ◌∷◌}
use lightpanda_browser.Render.CLayout.{Repr, Struct, repr_of}

-- The pointers of the machine that the library is built for.
pub data Target : Type 0 where
  bits32 bits64 : Target

abbrev pub word : Target → ℕ
word bits32 = 4
word bits64 = 8

abbrev pub u8 : Repr
u8 = record { size = 1; align = 1 }

abbrev pub u32 : Repr
u32 = record { size = 4; align = 4 }

abbrev pub f32 : Repr
f32 = record { size = 4; align = 4 }

abbrev pub usize : Target → Repr
usize t = record { size = word t; align = word t }

abbrev pub pointer : Target → Repr
pointer t = usize t

unfoldable pub lp_span_type : Target → Struct
lp_span_type t =
    ("text", pointer t)
    ∷ ("len", usize t)
    ∷ ("flags", u32)
    ∷ ("color", u32)
    ∷ ("href", pointer t)
    ∷ ("href_len", usize t)
    ∷ []

unfoldable pub lp_block_type : Target → Struct
lp_block_type t =
    ("spans", pointer t)
    ∷ ("spans_len", usize t)
    ∷ ("marker", pointer t)
    ∷ ("marker_len", usize t)
    ∷ ("kind", u8)
    ∷ ("level", u8)
    ∷ ("list_depth", u8)
    ∷ ("quote_depth", u8)
    ∷ ("flags", u8)
    ∷ []

unfoldable pub lp_render_opts_type : Struct
lp_render_opts_type =
    ("width", u32)
    ∷ ("height", u32)
    ∷ ("clip_x", f32)
    ∷ ("clip_y", f32)
    ∷ ("clip_w", f32)
    ∷ ("clip_h", f32)
    ∷ ("scale", f32)
    ∷ ("flags", u32)
    ∷ []

unfoldable pub lp_decoration_type : Struct
lp_decoration_type = ("enabled", u32) ∷ ("offset", f32) ∷ ("size", f32) ∷ ("color", u32) ∷ []

unfoldable pub lp_glyph_type : Struct
lp_glyph_type = ("id", u32) ∷ ("x", f32) ∷ ("y", f32) ∷ ("advance", f32) ∷ []

unfoldable pub lp_cluster_type : Struct
lp_cluster_type =
    ("font", u32)
    ∷ ("glyph", u32)
    ∷ ("text_start", u32)
    ∷ ("text_len", u32)
    ∷ ("x", f32)
    ∷ ("advance", f32)
    ∷ ("flags", u32)
    ∷ []

unfoldable pub lp_run_type : Struct
unfolding repr_of lp_decoration_type
lp_run_type =
    ("font", u32)
    ∷ ("size", f32)
    ∷ ("skew", f32)
    ∷ ("color", u32)
    ∷ ("offset", f32)
    ∷ ("baseline", f32)
    ∷ ("advance", f32)
    ∷ ("glyphs", u32)
    ∷ ("glyphs_len", u32)
    ∷ ("underline", repr_of lp_decoration_type)
    ∷ ("strike", repr_of lp_decoration_type)
    ∷ []

unfoldable pub lp_line_type : Struct
lp_line_type =
    ("x", f32)
    ∷ ("top", f32)
    ∷ ("bottom", f32)
    ∷ ("runs", u32)
    ∷ ("runs_len", u32)
    ∷ ("clusters", u32)
    ∷ ("clusters_len", u32)
    ∷ []

unfoldable pub lp_layout_block_type : Struct
lp_layout_block_type =
    ("x", f32)
    ∷ ("y", f32)
    ∷ ("quote_x", f32)
    ∷ ("lines", u32)
    ∷ ("lines_len", u32)
    ∷ ("marker_line", u32)
    ∷ ("kind", u8)
    ∷ ("quote_bars", u8)
    ∷ []

unfoldable pub lp_font_type : Target → Struct
lp_font_type t =
    ("data", pointer t)
    ∷ ("data_len", usize t)
    ∷ ("index", u32)
    ∷ ("name", pointer t)
    ∷ ("name_len", usize t)
    ∷ ("mono", u8)
    ∷ []

unfoldable pub lp_layout_type : Target → Struct
lp_layout_type t =
    ("height", f32)
    ∷ ("pre_pad", f32)
    ∷ ("quote_indent", f32)
    ∷ ("rule_color", u32)
    ∷ ("pre_bg", u32)
    ∷ ("blocks", pointer t)
    ∷ ("blocks_len", usize t)
    ∷ ("lines", pointer t)
    ∷ ("lines_len", usize t)
    ∷ ("runs", pointer t)
    ∷ ("runs_len", usize t)
    ∷ ("glyphs", pointer t)
    ∷ ("glyphs_len", usize t)
    ∷ ("clusters", pointer t)
    ∷ ("clusters_len", usize t)
    ∷ ("fonts", pointer t)
    ∷ ("fonts_len", usize t)
    ∷ []

-- The structs, by the prefix that the table has for their entries.
pub data Described : Type 0 where
  span block opts layout lblock line run deco glyph cluster font : Described

unfoldable pub struct_of : Target → Described → Struct
unfolding lp_span_type lp_block_type lp_render_opts_type lp_decoration_type lp_glyph_type
    lp_cluster_type lp_run_type lp_line_type lp_layout_block_type lp_font_type lp_layout_type
struct_of t span = lp_span_type t
struct_of t block = lp_block_type t
struct_of t opts = lp_render_opts_type
struct_of t layout = lp_layout_type t
struct_of t lblock = lp_layout_block_type
struct_of t line = lp_line_type
struct_of t run = lp_run_type
struct_of t deco = lp_decoration_type
struct_of t glyph = lp_glyph_type
struct_of t cluster = lp_cluster_type
struct_of t font = lp_font_type t
