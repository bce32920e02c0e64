-- ===== src/Render/Flow/Styles.antt =====
-- The styles of a block and of its spans, in src/rust/render/lib.rs: what `Renderer::layout` asks
-- `parley` for. `parley` is the record `Parley`; `none` is a panic there.
use lightpanda_browser.Prelude.{
  ℕ, ◌/◌, ◌%◌, Bool, true, false, not, ◌&&◌, ◌||◌, List, [], ◌∷◌, ◌++◌, Option, Bytes, ◌==◌,
  if◌then◌else◌, ltb,
}
use lightpanda_browser.Render.Float.{Float}
use lightpanda_browser.Render.Text.{Rgb, Layout}
use lightpanda_browser.Render.Abi.{block_heading, block_pre, block_rule}
use lightpanda_browser.Render.Blocks.{Span, Block}

-- The flags are single bits: `flags & FLAG != 0`, with the bit's value.
abbrev pub has_flag : ℕ → ℕ → Bool
has_flag flags value = flags / value % 2 == 1

abbrev pub span_bold : ℕ
span_bold = 1

abbrev pub span_italic : ℕ
span_italic = 2

abbrev pub span_underline : ℕ
span_underline = 4

abbrev pub span_mono : ℕ
span_mono = 8

abbrev pub span_strike : ℕ
span_strike = 16

abbrev pub span_has_color : ℕ
span_has_color = 32

abbrev pub block_tight : ℕ
block_tight = 1

abbrev pub text_color : Rgb
text_color = record { red = 0x1f; green = 0x1f; blue = 0x1f }

-- `StyleProperty`, in the cases that are pushed.
pub data Property (F : Type 0) : Type 0 where
  bold italic underline strikethrough monospace : Property F
  font_size : F → Property F
  brush underline_brush strikethrough_brush : Rgb → Property F

-- `TextStyle`, in the fields that are set.
pub record RootStyle (F : Type 0) : Type 0 where
  pub monospace : Bool
  pub font_size : F
  pub bold : Bool
  pub brush : Rgb
  pub line_height : F

pub record Parley (F : Type 0) : Type 0 where
  -- The tree builder at a scale: the root style, and each span's properties and text; then the
  -- lines broken at a width, and aligned at the start.
  pub build :
      RootStyle F → (scale : F) → List (List (Property F) × Bytes) → (width : F) → Option (Layout F)
  -- The ranged builder, with defaults, and no limit to the width.
  pub build_line : (scale : F) → List (Property F) → Bytes → Option (Layout F)
  -- `Layout::new`.
  pub empty : Layout F

pub record Metrics (F : Type 0) : Type 0 where
  pub size : F
  pub bold : Bool
  pub before : F
  pub after : F
  pub line_height : F

module _ (fl : Float) where
  open fl use {F, lit, add, sub, mul, div, max_of, from}

  abbrev pub base_size : F
  base_size = lit 16 1

  abbrev pub list_indent : F
  list_indent = lit 24 1

  abbrev pub quote_indent : F
  quote_indent = lit 20 1

  abbrev pub pre_pad : F
  pre_pad = lit 8 1

  unfoldable pub heading_scale : ℕ → F
  heading_scale level =
      if level == 1
      then lit 2 1
      else if level == 2
      then lit 3 2
      else if level == 3
      then lit 5 4
      else if level == 4
      then lit 11 10
      else lit 1 1

  unfoldable pub block_metrics : Block → Metrics F
  unfolding heading_scale
  block_metrics b =
      if b.kind == block_heading
      then record {
        size = mul base_size (heading_scale b.level);
        bold = true;
        before = lit 20 1;
        after = lit 10 1;
        line_height = lit 5 4;
      }
      else if b.kind == block_pre
      then record {
        size = mul base_size (lit 7 8);
        bold = false;
        before = lit 12 1;
        after = lit 12 1;
        line_height = lit 7 5;
      }
      else if b.kind == block_rule
      then record {
        size = lit 0 1;
        bold = false;
        before = lit 12 1;
        after = lit 12 1;
        line_height = lit 1 1;
      }
      else let gap =
          if ltb 0 b.list_depth || has_flag b.flags block_tight then lit 4 1 else lit 12 1 in
        record { size = base_size; bold = false; before = gap; after = gap; line_height = lit 7 5 }

  abbrev when : Bool → List (Property F) → List (Property F)
  when true props = props
  when false props = []

  -- 0xRRGGBB; the casts to `u8` drop what is above.
  unfoldable pub span_color : ℕ → Rgb
  span_color color = record {
    red = color / 65536 % 256;
    green = color / 256 % 256;
    blue = color % 256;
  }

  unfoldable pub span_properties : Bool → F → Span → List (Property F)
  unfolding span_color
  span_properties is_pre size span =
      let c = span_color span.color in
      when (has_flag span.flags span_bold) (bold ∷ [])
      ++ (when (has_flag span.flags span_italic) (italic ∷ [])
          ++ (when (has_flag span.flags span_underline) (underline ∷ [])
              ++ (when (has_flag span.flags span_strike) (strikethrough ∷ [])
                  ++ (when (has_flag span.flags span_mono && not is_pre)
                        (monospace ∷ font_size (mul size (lit 9 10)) ∷ [])
                      ++ when (has_flag span.flags span_has_color)
                          (brush c ∷ underline_brush c ∷ strikethrough_brush c ∷ [])))))

  unfoldable pub styled_spans : Bool → F → List Span → List (List (Property F) × Bytes)
  unfolding span_properties
  styled_spans is_pre size [] = []
  styled_spans is_pre size (s ∷ rest) =
      (span_properties is_pre size s, s.text) ∷ styled_spans is_pre size rest

  abbrev pub marker_properties : List (Property F)
  marker_properties = font_size base_size ∷ brush text_color ∷ []

  -- The padding inside a block.
  unfoldable pub pad_of : Block → F
  pad_of block = if block.kind == block_pre then pre_pad else lit 0 1

  unfoldable pub root_style : Block → Metrics F → RootStyle F
  root_style block m = record {
    monospace = block.kind == block_pre;
    font_size = m.size;
    bold = m.bold;
    brush = text_color;
    line_height = m.line_height;
  }

  -- The width at which the lines are broken.
  unfoldable pub line_width : Block → (content_w indent scale : F) → F
  unfolding pad_of
  line_width block content_w indent scale =
      max_of (mul (sub (sub content_w indent) (mul (lit 2 1) (pad_of block))) scale) (lit 1 1)
