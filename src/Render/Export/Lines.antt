-- ===== src/Render/Export/Lines.antt =====
-- The lines of a layout, exported.
use lightpanda_browser.Prelude.{
  ◌+◌, ◌≤◌, List, [], ◌∷◌, length, ◌≡◌, refl, sym, ap, subst, ◌∙◌, arith,
}
use lightpanda_browser.Prelude.Slices.{Prefix-refl, Prefix-append, push_same, slice, All2, All2-map}
use lightpanda_browser.Render.Float.{Float}
use lightpanda_browser.Render.Text.{Line}
use lightpanda_browser.Render.Abi.{as_u32, sub_u32}
use lightpanda_browser.Render.Export.{
  Face, LayoutHandle, export_items, export_line_runs, export_line, export_layout,
}
use lightpanda_browser.Render.Export.Reads.{
  Grows, Grows-trans, Fits, Fits-Grows, RunReads, ClusterReads, LineReads, glyph_runs,
  line_clusters,
}
use lightpanda_browser.Render.Export.Stability.{RunReads-stays, ClusterReads-stays, LineReads-stays}
use lightpanda_browser.Render.Export.Steps.{Exports, Exports-nothing, Exports-append}
use lightpanda_browser.Render.Export.Fonts.{pushed_range, pushed_within}
use lightpanda_browser.Render.Export.Runs.{ExportsRuns, export_items-ExportsRuns}
use lightpanda_browser.Render.Export.Clusters.{ExportsClusters, export_line_runs-ExportsClusters}

module _ (fl : Float) where
  open fl use {F}

  -- Lines go to their array, and the blocks are not touched.
  pub record ExportsLines (ox oy : F) (h g : LayoutHandle F) (lines : List (Line F)) : Type 0 where
    pub exports : Exports (λ k. k.lines) (LineReads fl ox oy) h g lines
    pub blocks : g.blocks ≡ h.blocks

  module _ (faces : List Face) (line : Line F) (ox oy : F) (h : LayoutHandle F) where
    abbrev with_runs : LayoutHandle F
    with_runs = export_items fl faces line.items oy h

    abbrev with_clusters : LayoutHandle F
    with_clusters = export_line_runs fl faces line.runs line.metrics.offset with_runs

    abbrev with_line : LayoutHandle F
    with_line = export_line fl faces line ox oy h

    runs_done : ExportsRuns fl oy h with_runs (glyph_runs fl line.items)
    runs_done = export_items-ExportsRuns fl faces line.items oy h

    clusters_done :
        ExportsClusters fl with_runs with_clusters (line_clusters fl line.metrics.offset line.runs)
    clusters_done =
        export_line_runs-ExportsClusters fl faces line.runs line.metrics.offset with_runs

    last : Grows with_clusters with_line
    unfolding export_line
    last = record {
      lines = Prefix-append _ _;
      runs = Prefix-refl _;
      glyphs = Prefix-refl _;
      clusters = Prefix-refl _;
      fonts = Prefix-refl _;
    }

    line_runs :
        Fits with_line
        → All2
            (RunReads fl oy with_line)
            (slice
              (as_u32 (length h.runs))
              (sub_u32 (as_u32 (length with_runs.runs)) (as_u32 (length h.runs)))
              with_clusters.runs)
            (glyph_runs fl line.items)
    line_runs fits =
        let fits_runs = Fits-Grows clusters_done.exports.grows (Fits-Grows last fits) in
        subst (λ l. All2 (RunReads fl oy with_line) l (glyph_runs fl line.items))
          (sym (
            ap (slice _ _) clusters_done.runs
            ∙ pushed_range h.runs runs_done.exports.pushed with_runs.runs
                runs_done.exports.array_grown fits_runs.runs))
          (All2-map (RunReads fl oy with_runs) (RunReads fl oy with_line) _ _
            (λ r gr.
              RunReads-stays fl oy with_runs with_line r gr
                (Grows-trans clusters_done.exports.grows last))
            (runs_done.exports.reads fits_runs))

    line_clusters_read :
        Fits with_line
        → All2
            (ClusterReads fl with_line)
            (slice
              (as_u32 (length with_runs.clusters))
              (sub_u32
                (as_u32 (length with_clusters.clusters))
                (as_u32 (length with_runs.clusters)))
              with_clusters.clusters)
            (line_clusters fl line.metrics.offset line.runs)
    line_clusters_read fits =
        let fits_clusters = Fits-Grows last fits in
        subst
          (λ l. All2 (ClusterReads fl with_line) l (line_clusters fl line.metrics.offset line.runs))
          (sym (
            pushed_range with_runs.clusters clusters_done.exports.pushed with_clusters.clusters
              clusters_done.exports.array_grown fits_clusters.clusters))
          (All2-map (ClusterReads fl with_clusters) (ClusterReads fl with_line) _ _
            (λ c t. ClusterReads-stays fl with_clusters with_line c t last)
            (clusters_done.exports.reads fits_clusters))

    runs_fit :
        Fits with_line
        → as_u32 (length h.runs) + sub_u32 (as_u32 (length with_runs.runs)) (as_u32 (length h.runs))
          ≤ length with_clusters.runs
    runs_fit fits =
        let fits_runs = Fits-Grows clusters_done.exports.grows (Fits-Grows last fits) in
        let within =
          pushed_within h.runs runs_done.exports.pushed with_runs.runs runs_done.exports.array_grown
            fits_runs.runs in
        let same : length with_clusters.runs ≡ length with_runs.runs =
          ap length clusters_done.runs in
        omega (arith, within, same)

    export_line-ExportsLines : ExportsLines ox oy h with_line (line ∷ [])
    unfolding export_line
    export_line-ExportsLines = record {
      exports = record {
        grows = Grows-trans runs_done.exports.grows (Grows-trans clusters_done.exports.grows last);
        pushed = _ ∷ [];
        array_grown =
            push_same with_clusters.lines h.lines _ (clusters_done.lines ∙ runs_done.lines);
        reads = λ fits. (
          record {
            runs_within = runs_fit fits;
            runs = line_runs fits;
            clusters_within =
                pushed_within with_runs.clusters clusters_done.exports.pushed with_clusters.clusters
                  clusters_done.exports.array_grown fits.clusters;
            clusters = line_clusters_read fits;
            origin = refl;
            box_top = refl;
            box_bottom = refl;
          },
          tt,
        );
      };
      blocks = clusters_done.blocks ∙ runs_done.blocks;
    }

  pub export_layout-ExportsLines :
      (faces : List Face) (lines : List (Line F)) (ox oy : F) (h : LayoutHandle F)
      → ExportsLines ox oy h (export_layout fl faces lines ox oy h) lines
  unfolding export_layout
  export_layout-ExportsLines faces [] ox oy h = record {
    exports = Exports-nothing (λ k. k.lines) (LineReads fl ox oy) h;
    blocks = refl;
  }
  export_layout-ExportsLines faces (line ∷ lines) ox oy h =
      let one = export_line-ExportsLines faces line ox oy h in
      let rest = export_layout-ExportsLines faces lines ox oy (export_line fl faces line ox oy h) in
      record {
        exports =
            Exports-append (λ k. k.lines) (LineReads fl ox oy) (LineReads-stays fl ox oy)
              one.exports rest.exports;
        blocks = rest.blocks ∙ one.blocks;
      }
