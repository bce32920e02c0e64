-- ===== src/Render/Export/Runs.antt =====
-- The runs of a line, exported.
use lightpanda_browser.Prelude.{List, [], ◌∷◌, ◌++◌, map, ◌≡◌, refl, ◌∙◌}
use lightpanda_browser.Prelude.Slices.{Prefix-refl, Prefix-append, Prefix-trans, push_same}
use lightpanda_browser.Render.Float.{Float}
use lightpanda_browser.Render.Text.{GlyphRun, Item, glyph_run, inline_box}
use lightpanda_browser.Render.Export.{
  Face, LayoutHandle, lp_glyph, font_index, export_run, export_items,
}
use lightpanda_browser.Render.Export.Reads.{Grows, Grows-trans, Fits-Grows, RunReads, glyph_runs}
use lightpanda_browser.Render.Export.Stability.{FontAt-Grows, RunReads-stays}
use lightpanda_browser.Render.Export.Steps.{Exports, Exports-nothing, Exports-append}
use lightpanda_browser.Render.Export.Fonts.{font_index-Indexes, pushed_range, pushed_within}

module _ (fl : Float) where
  open fl use {F}

  -- Glyph runs go to their array, and the arrays above it are not touched.
  pub record ExportsRuns (oy : F) (h g : LayoutHandle F) (runs : List (GlyphRun F)) : Type 0 where
    pub exports : Exports (λ k. k.runs) (RunReads fl oy) h g runs
    pub lines : g.lines ≡ h.lines
    pub clusters : g.clusters ≡ h.clusters
    pub blocks : g.blocks ≡ h.blocks

  ExportsRuns-append :
      (oy : F) {h g k : LayoutHandle F} (xs ys : List (GlyphRun F))
      → ExportsRuns oy h g xs
      → ExportsRuns oy g k ys
      → ExportsRuns oy h k (xs ++ ys)
  ExportsRuns-append oy xs ys a b = record {
    exports =
        Exports-append (λ k. k.runs) (RunReads fl oy) (RunReads-stays fl oy) a.exports b.exports;
    lines = b.lines ∙ a.lines;
    clusters = b.clusters ∙ a.clusters;
    blocks = b.blocks ∙ a.blocks;
  }

  module _ (faces : List Face) where
    -- The handle with the glyphs of a run pushed.
    abbrev with_glyphs : GlyphRun F → LayoutHandle F → LayoutHandle F
    with_glyphs gr h = record h { glyphs = h.glyphs ++ map (lp_glyph fl) gr.glyphs }

    export_run-ExportsRuns :
        (gr : GlyphRun F) (oy : F) (h : LayoutHandle F)
        → ExportsRuns oy h (export_run fl faces gr oy h) (gr ∷ [])
    unfolding export_run
    export_run-ExportsRuns gr oy h =
        let indexed = font_index-Indexes fl faces (with_glyphs gr h) gr.run.font in
        let g = (font_index fl faces (with_glyphs gr h) gr.run.font).1 in
        let last : Grows g (export_run fl faces gr oy h) = record {
          lines = Prefix-refl _;
          runs = Prefix-append _ _;
          glyphs = Prefix-refl _;
          clusters = Prefix-refl _;
          fonts = Prefix-refl _;
        } in
        record {
          exports = record {
            grows =
                Grows-trans
                  (record {
                    lines = indexed.grows.lines;
                    runs = indexed.grows.runs;
                    glyphs = Prefix-trans (Prefix-append h.glyphs _) indexed.grows.glyphs;
                    clusters = indexed.grows.clusters;
                    fonts = indexed.grows.fonts;
                  })
                  last;
            pushed = _ ∷ [];
            array_grown = push_same g.runs h.runs _ indexed.runs;
            reads = λ fits. (
              record {
                font = FontAt-Grows _ gr.run.font last (indexed.at (Fits-Grows last fits));
                within = pushed_within h.glyphs _ g.glyphs indexed.glyphs fits.glyphs;
                glyphs = pushed_range h.glyphs _ g.glyphs indexed.glyphs fits.glyphs;
                baseline = refl;
                offset = refl;
                advance = refl;
                size = refl;
                skew = refl;
                color = refl;
                underline = refl;
                strike = refl;
              },
              tt,
            );
          };
          lines = indexed.lines;
          clusters = indexed.clusters;
          blocks = indexed.blocks;
        }

    pub export_items-ExportsRuns :
        (items : List (Item F)) (oy : F) (h : LayoutHandle F)
        → ExportsRuns oy h (export_items fl faces items oy h) (glyph_runs fl items)
    unfolding export_items glyph_runs
    export_items-ExportsRuns [] oy h = record {
      exports = Exports-nothing (λ k. k.runs) (RunReads fl oy) h;
      lines = refl;
      clusters = refl;
      blocks = refl;
    }
    export_items-ExportsRuns (glyph_run gr ∷ items) oy h =
        ExportsRuns-append oy (gr ∷ []) (glyph_runs fl items) (export_run-ExportsRuns gr oy h)
          (export_items-ExportsRuns items oy (export_run fl faces gr oy h))
    export_items-ExportsRuns (inline_box ∷ items) oy h = export_items-ExportsRuns items oy h
