-- ===== src/Render/Text.antt =====
-- A text as `parley` shapes it, in the parts that src/rust/render/lib.rs reads.
use lightpanda_browser.Prelude.{ℕ, Bool, List, Option, ◌+◌, ◌*◌}

-- A color, red, green and blue.
pub record Rgb : Type 0 where
  pub red : ℕ
  pub green : ℕ
  pub blue : ℕ

-- `Rgb::packed`, each part a `u8`.
unfoldable pub packed : Rgb → ℕ
packed c = c.red * 65536 + c.green * 256 + c.blue

-- A font file, by the address of its bytes.
pub record FontData : Type 0 where
  pub data_ptr : ℕ
  pub data_len : ℕ
  pub index : ℕ

pub record Glyph (F : Type 0) : Type 0 where
  pub id : ℕ
  pub x : F
  pub y : F
  pub advance : F

pub record Cluster (F : Type 0) : Type 0 where
  pub text_start : ℕ
  pub text_end : ℕ
  pub is_ligature_start : Bool
  pub is_ligature_continuation : Bool
  pub glyphs : List (Glyph F)
  pub advance : F

pub record RunMetrics (F : Type 0) : Type 0 where
  pub underline_offset : F
  pub underline_size : F
  pub strikethrough_offset : F
  pub strikethrough_size : F

pub record Run (F : Type 0) : Type 0 where
  pub font : FontData
  pub font_size : F
  -- The synthetic italic angle, in degrees.
  pub skew : Option F
  pub metrics : RunMetrics F
  pub visual_clusters : List (Cluster F)

pub record Decoration (F : Type 0) : Type 0 where
  pub offset : Option F
  pub size : Option F
  pub brush : Rgb

pub record Style (F : Type 0) : Type 0 where
  pub brush : Rgb
  pub underline : Option (Decoration F)
  pub strikethrough : Option (Decoration F)

pub record GlyphRun (F : Type 0) : Type 0 where
  pub run : Run F
  pub style : Style F
  pub glyphs : List (Glyph F)
  pub offset : F
  pub baseline : F
  pub advance : F

-- `PositionedLayoutItem`.
pub data Item (F : Type 0) : Type 0 where
  glyph_run : GlyphRun F → Item F
  inline_box : Item F

pub record LineMetrics (F : Type 0) : Type 0 where
  pub offset : F
  pub block_min_coord : F
  pub block_max_coord : F

pub record Line (F : Type 0) : Type 0 where
  pub metrics : LineMetrics F
  pub items : List (Item F)
  pub runs : List (Run F)

pub record Layout (F : Type 0) : Type 0 where
  pub lines : List (Line F)
  pub height : F
  pub width : F
