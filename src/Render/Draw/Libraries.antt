-- ===== src/Render/Draw/Libraries.antt =====
-- The pictures and paths of `tiny_skia` and the outlines of `skrifa`, as src/rust/render/lib.rs
-- calls them.

use lightpanda_browser.Prelude.{ℕ, Bool, List, Option, Bytes}
use lightpanda_browser.Render.Text.{Rgb, FontData}
use lightpanda_browser.Render.Raster.{CropRect}

-- `Transform::from_row`.
pub record Transform (F : Type 0) : Type 0 where
  pub sx : F
  pub ky : F
  pub kx : F
  pub sy : F
  pub tx : F
  pub ty : F

pub record Skia (F : Type 0) : Type 1 where
  pub Pixmap : Type 0
  pub Rect : Type 0
  -- `Path`.
  pub Outline : Type 0
  -- `Pixmap::new`, then filled with white.
  pub new_white : (width height : ℕ) → Option Pixmap
  pub from_xywh : (x y w h : F) → Option Rect
  -- `none` is a panic.
  pub fill_rect : Rect → Rgb → Pixmap → Option Pixmap
  pub fill_path : Outline → Rgb → Transform F → Pixmap → Option Pixmap
  pub PathBuilder : Type 0
  pub new_builder : PathBuilder
  pub move_to : (x y : F) → PathBuilder → PathBuilder
  pub line_to : (x y : F) → PathBuilder → PathBuilder
  pub quad_to : (cx0 cy0 x y : F) → PathBuilder → PathBuilder
  pub cubic_to : (cx0 cy0 cx1 cy1 x y : F) → PathBuilder → PathBuilder
  pub close : PathBuilder → PathBuilder
  -- `PathBuilder::finish`: an empty path is none.
  pub finish : PathBuilder → Option Outline
  -- `IntRect::from_xywh` and `clone_rect`.
  pub cropped : CropRect → Pixmap → Option Pixmap
  pub width : Pixmap → ℕ
  pub height : Pixmap → ℕ
  pub data_bytes : Pixmap → Bytes

-- A call of a method of `OutlinePen`.
pub data PenCall (F : Type 0) : Type 0 where
  move_to : (x y : F) → PenCall F
  line_to : (x y : F) → PenCall F
  quad_to : (cx0 cy0 x y : F) → PenCall F
  curve_to : (cx0 cy0 cx1 cy1 x y : F) → PenCall F
  close : PenCall F

-- What `outline_glyphs().get(…)` and `draw` in font units do: panic, find no glyph, or call the pen
-- and succeed or not.
pub data GlyphDrawing (F : Type 0) : Type 0 where
  breaks_off missing : GlyphDrawing F
  calls : List (PenCall F) → Bool → GlyphDrawing F

pub record Skrifa (F : Type 0) : Type 0 where
  -- `FontRef::from_index`, with the units per em of its metrics; the outer `none` is a panic, the
  -- inner one an error.
  pub face : FontData → Option (Option F)
  pub glyph : FontData → ℕ → GlyphDrawing F
