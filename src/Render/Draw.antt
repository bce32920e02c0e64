-- ===== src/Render/Draw.antt =====
-- The drawing of a layout in src/rust/render/lib.rs. Pictures and paths are `tiny_skia`'s, the
-- record `Skia`, and outlines are `skrifa`'s, the record `Skrifa`. Outlines are kept in a cache
-- that lives as long as the renderer.
pub mod Libraries
pub mod Cache
use Prim.Native.Nat.{bit_xor}
use lightpanda_browser.Prelude.{
  ℕ, zero, suc, ◌+◌, Bool, true, false, ◌&&◌, List, [], ◌∷◌, Option, none, some, ◌==◌,
  if◌then◌else◌, not, Bytes,
}
use lightpanda_browser.Render.Float.{Float}
use lightpanda_browser.Render.Text.{
  Rgb, FontData, Glyph, Decoration, GlyphRun, Item, glyph_run, inline_box, Line, Layout,
}
use lightpanda_browser.Render.Abi.{block_pre, block_rule}
use lightpanda_browser.Render.Export.{Marker, Placed, unwrap_or, skew_of}
use lightpanda_browser.Render.Flow.{pre_pad, quote_indent}
use lightpanda_browser.Render.Handles.{rule_color, pre_bg}
use lightpanda_browser.Render.Raster.{LpRenderOpts, CropRect}
pub use lightpanda_browser.Render.Draw.Libraries.{
  Transform, Skia, PenCall, move_to, line_to, quad_to, curve_to, close, GlyphDrawing, breaks_off,
  missing, calls, Skrifa,
}

-- (font key, glyph id), and the outline, if there is one.
pub record CacheEntry (Outline : Type 0) : Type 0 where
  pub font_key : ℕ
  pub glyph_id : ℕ
  pub path : Option Outline

unfoldable pub lookup :
    {Outline : Type 0} → List (CacheEntry Outline) → ℕ → ℕ → Option (Option Outline)
lookup [] key id = none
lookup (e ∷ es) key id =
    if e.font_key == key && e.glyph_id == id then some e.path else lookup es key id

-- `font.data.as_ref().as_ptr() as usize ^ (font.index as usize)`.
unfoldable pub key_of : FontData → ℕ
key_of font = bit_xor font.data_ptr font.index

module _ (fl : Float) (skia : Skia fl.F) (skrifa : Skrifa fl.F) where
  open fl use {F, lit, add, sub, mul, div, max_of, round, neg, gt, from}
  open skia use {Pixmap, Outline}

  -- The picture is `none` behind a panic: nothing is painted or cached any more.
  abbrev pub Picture : Type 0
  Picture = Option Pixmap

  pub record Canvas : Type 0 where
    pub glyph_cache : List (CacheEntry Outline)
    pub pixmap : Picture

  -- `impl OutlinePen for TinyPen`.
  unfoldable pub tiny_pen : PenCall F → skia.PathBuilder → skia.PathBuilder
  tiny_pen (move_to x y) pen = skia.move_to x y pen
  tiny_pen (line_to x y) pen = skia.line_to x y pen
  tiny_pen (quad_to cx0 cy0 x y) pen = skia.quad_to cx0 cy0 x y pen
  tiny_pen (curve_to cx0 cy0 cx1 cy1 x y) pen = skia.cubic_to cx0 cy0 cx1 cy1 x y pen
  tiny_pen close pen = skia.close pen

  -- The pen after the calls in their order.
  unfoldable pub drawn : List (PenCall F) → skia.PathBuilder → skia.PathBuilder
  unfolding tiny_pen
  drawn [] pen = pen
  drawn (call ∷ rest) pen = drawn rest (tiny_pen call pen)

  -- The closure of `or_insert_with`: the outline of a glyph, if the font has it and it is drawn.
  -- The outer `none` is a panic.
  unfoldable pub outline_of : FontData → ℕ → Option (Option Outline)
  unfolding drawn
  outline_of font id = elim (skrifa.glyph font id) [
    | breaks_off ↦ none
    | missing ↦ some none
    | calls pen_calls ok ↦
        some (if ok then skia.finish (drawn pen_calls skia.new_builder) else none)
  ]

  -- `entry(key).or_insert_with(…)`; a panic of the closure inserts nothing.
  unfoldable pub cached_outline :
      FontData → ℕ → List (CacheEntry Outline) → Option (Option Outline) × List (CacheEntry Outline)
  unfolding lookup key_of outline_of
  cached_outline font id cache = elim (lookup cache (key_of font) id) [
    | some path ↦ (some path, cache)
    | none ↦ elim (outline_of font id) [
      | none ↦ (none, cache)
      | some path ↦
          (some path, record { font_key = key_of font; glyph_id = id; path = path } ∷ cache)
    ]
  ]

  unfoldable pub paint_path : Option (Option Outline) → Rgb → Transform F → Pixmap → Picture
  paint_path none color t pixmap = none
  paint_path (some none) color t pixmap = some pixmap
  paint_path (some (some path)) color t pixmap = skia.fill_path path color t pixmap

  -- One glyph, unless a call before it has panicked.
  unfoldable pub draw_glyph :
      FontData → ℕ → Rgb → Transform F → Picture → List (CacheEntry Outline) → Canvas
  unfolding cached_outline paint_path
  draw_glyph font id color t none cache = record { glyph_cache = cache; pixmap = none }
  draw_glyph font id color t (some pixmap) cache =
      let (path, cache') = cached_outline font id cache in
      record { glyph_cache = cache'; pixmap = paint_path path color t pixmap }

  -- The loop over the glyphs of a run.
  unfoldable pub draw_glyphs :
      FontData → Rgb → (scale skew baseline x : F) → List (Glyph F) → Canvas → Canvas
  unfolding draw_glyph
  draw_glyphs font color scale skew baseline x [] c = c
  draw_glyphs font color scale skew baseline x (g ∷ gs) c =
      let t : Transform F = record {
        sx = scale;
        ky = lit 0 1;
        kx = mul skew scale;
        sy = neg scale;
        tx = add x g.x;
        ty = sub baseline g.y;
      } in
      draw_glyphs font color scale skew baseline (add x g.advance) gs
        (draw_glyph font g.id color t c.pixmap c.glyph_cache)

  -- `if let Some(r) = Rect::from_xywh(…) { fill_rect }`.
  unfoldable pub fill_box : (x y w h : F) → Rgb → Picture → Picture
  fill_box x y w h color none = none
  fill_box x y w h color (some pixmap) = elim (skia.from_xywh x y w h) [
    | none ↦ some pixmap
    | some r ↦ skia.fill_rect r color pixmap
  ]

  unfoldable pub draw_decoration :
      Option (Decoration F) → (default_off default_size x0 baseline advance : F) → Picture → Picture
  unfolding fill_box
  draw_decoration none default_off default_size x0 baseline advance pixmap = pixmap
  draw_decoration (some d) default_off default_size x0 baseline advance pixmap =
      fill_box x0 (round (sub baseline (unwrap_or fl d.offset default_off))) advance
        (round (max_of (unwrap_or fl d.size default_size) (lit 1 1))) d.brush pixmap

  -- The two decorations of a run.
  unfoldable pub decorate : GlyphRun F → (x0 baseline : F) → Picture → Picture
  unfolding draw_decoration
  decorate gr x0 baseline pixmap =
      let m = gr.run.metrics in
      draw_decoration gr.style.strikethrough m.strikethrough_offset m.strikethrough_size x0 baseline
        gr.advance
        (draw_decoration gr.style.underline m.underline_offset m.underline_size x0 baseline
          gr.advance pixmap)

  unfoldable pub draw_glyph_run : GlyphRun F → (ox oy : F) → Canvas → Canvas
  unfolding draw_glyphs decorate skew_of
  draw_glyph_run gr ox oy c =
      let font = gr.run.font in
      let baseline = add oy gr.baseline in
      let x0 = add ox gr.offset in
      elim (skrifa.face font) [
        | none ↦ record c { pixmap = none }
        | some read ↦ elim read [
          | none ↦ c
          | some upem ↦
              if not (gt upem (lit 0 1))
              then c
              else let d =
                  draw_glyphs font gr.style.brush (div gr.run.font_size upem)
                    (skew_of fl gr.run.skew) baseline x0 gr.glyphs c in
                record d { pixmap = decorate gr x0 baseline d.pixmap }
        ]
      ]

  unfoldable pub draw_items : List (Item F) → (ox oy : F) → Canvas → Canvas
  unfolding draw_glyph_run
  draw_items [] ox oy c = c
  draw_items (glyph_run gr ∷ items) ox oy c = draw_items items ox oy (draw_glyph_run gr ox oy c)
  draw_items (inline_box ∷ items) ox oy c = draw_items items ox oy c

  -- `draw_layout`, over the lines of the layout.
  unfoldable pub draw_layout : List (Line F) → (ox oy : F) → Canvas → Canvas
  unfolding draw_items
  draw_layout [] ox oy c = c
  draw_layout (line ∷ lines) ox oy c = draw_layout lines ox oy (draw_items line.items ox oy c)

  abbrev page_margin : F
  page_margin = lit 16 1

  -- `(opts.width as f32 - PAGE_MARGIN) * scale - x0`.
  abbrev to_right : LpRenderOpts F → F → F
  to_right opts x0 = sub (mul (sub (from opts.width) page_margin) opts.scale) x0

  -- The quote bars from `i` on.
  unfoldable pub draw_bars : LpRenderOpts F → Placed F → (oy : F) → (i left : ℕ) → Picture → Picture
  unfolding fill_box
  draw_bars opts p oy i zero pixmap = pixmap
  draw_bars opts p oy i (suc left) pixmap = draw_bars opts p oy (i + 1) left (
      fill_box (mul (add p.quote_x (mul (from i) (quote_indent fl))) opts.scale) oy
        (mul (lit 3 1) opts.scale) p.layout.height rule_color pixmap)

  abbrev pub draw_marker : Option (Marker F) → F → Canvas → Canvas
  draw_marker none oy c = c
  draw_marker (some m) oy c = draw_layout m.layout.lines m.x oy c

  unfoldable pub draw_rule : LpRenderOpts F → Placed F → F → Picture → Picture
  unfolding fill_box
  draw_rule opts p oy pixmap =
      let x0 = mul p.x opts.scale in
      fill_box x0 oy (to_right opts x0) (mul (lit 1 1) opts.scale) rule_color pixmap

  unfoldable pub draw_background : LpRenderOpts F → Placed F → F → Picture → Picture
  unfolding fill_box
  draw_background opts p oy pixmap =
      let x0 = mul (sub p.x (pre_pad fl)) opts.scale in
      fill_box x0 (sub oy (mul (pre_pad fl) opts.scale)) (to_right opts x0)
        (add p.layout.height (mul (mul (lit 2 1) (pre_pad fl)) opts.scale)) pre_bg pixmap

  -- One round of the loop over placed blocks, behind its `break`.
  unfoldable pub draw_placed : LpRenderOpts F → Placed F → F → Canvas → Canvas
  unfolding draw_rule draw_background draw_bars draw_layout
  draw_placed opts p oy c =
      if p.kind == block_rule
      then record c { pixmap = draw_rule opts p oy c.pixmap }
      else let backed =
          if p.kind == block_pre then draw_background opts p oy c.pixmap else c.pixmap in
        let barred = draw_bars opts p oy 0 p.quote_bars backed in
        draw_layout p.layout.lines (mul p.x opts.scale) oy
          (draw_marker p.marker oy (record c { pixmap = barred }))

  unfoldable pub draw_all : LpRenderOpts F → (ph : ℕ) → List (Placed F) → Canvas → Canvas
  draw_all opts ph [] c = c
  draw_all opts ph (p ∷ ps) c =
      let oy = mul p.y opts.scale in
      let drawn = draw_placed opts p oy c in
      if gt oy (from ph) then c else draw_all opts ph ps drawn
