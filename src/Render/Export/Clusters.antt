-- ===== src/Render/Export/Clusters.antt =====
-- The clusters of a line, exported.
use lightpanda_browser.Prelude.{ℕ, List, [], ◌∷◌, ◌++◌, ◌≡◌, refl, sym, subst, ◌∙◌, append-nil}
use lightpanda_browser.Prelude.Slices.{Prefix-refl, Prefix-append}
use lightpanda_browser.Render.Float.{Float}
use lightpanda_browser.Render.Text.{FontData, Cluster, Run}
use lightpanda_browser.Render.Export.{
  Face, LayoutHandle, font_index, lp_cluster, export_clusters, export_line_runs,
}
use lightpanda_browser.Render.Export.Reads.{
  Grows, Fits, Fits-Grows, FontAt, ClusterReads, run_clusters, end_of, line_clusters,
}
use lightpanda_browser.Render.Export.Stability.{FontAt-Grows, ClusterReads-stays}
use lightpanda_browser.Render.Export.Steps.{Exports, Exports-nothing, Exports-append}
use lightpanda_browser.Render.Export.Fonts.{Indexes, font_index-Indexes}

module _ (fl : Float) where
  open fl use {F}

  -- Clusters go to their array, and the arrays beside and above it are not touched.
  pub record ExportsClusters (h g : LayoutHandle F) (parts : List (FontData × F × Cluster F))
      : Type 0 where
    pub exports : Exports (λ k. k.clusters) (ClusterReads fl) h g parts
    pub lines : g.lines ≡ h.lines
    pub runs : g.runs ≡ h.runs
    pub blocks : g.blocks ≡ h.blocks

  ExportsClusters-append :
      {h g k : LayoutHandle F} (xs ys : List (FontData × F × Cluster F))
      → ExportsClusters h g xs
      → ExportsClusters g k ys
      → ExportsClusters h k (xs ++ ys)
  ExportsClusters-append xs ys a b = record {
    exports =
        Exports-append (λ k. k.clusters) (ClusterReads fl) (ClusterReads-stays fl) a.exports
          b.exports;
    lines = b.lines ∙ a.lines;
    runs = b.runs ∙ a.runs;
    blocks = b.blocks ∙ a.blocks;
  }

  nothing : (h : LayoutHandle F) → ExportsClusters h h []
  nothing h = record {
    exports = Exports-nothing (λ k. k.clusters) (ClusterReads fl) h;
    lines = refl;
    runs = refl;
    blocks = refl;
  }

  Indexes-ExportsClusters :
      {h g : LayoutHandle F} (i : ℕ) (font : FontData) → Indexes h g i font → ExportsClusters h g []
  Indexes-ExportsClusters i font indexed = record {
    exports = record {
      grows = indexed.grows;
      pushed = [];
      array_grown = indexed.clusters ∙ sym (append-nil _);
      reads = λ fits. tt;
    };
    lines = indexed.lines;
    runs = indexed.runs;
    blocks = indexed.blocks;
  }

  -- The handle with one more cluster.
  abbrev with_cluster : ℕ → F → Cluster F → LayoutHandle F → LayoutHandle F
  with_cluster i x c h = record h { clusters = h.clusters ++ lp_cluster fl i x c ∷ [] }

  cluster-Grows :
      (i : ℕ) (x : F) (c : Cluster F) (h : LayoutHandle F) → Grows h (with_cluster i x c h)
  cluster-Grows i x c h = record {
    lines = Prefix-refl _;
    runs = Prefix-refl _;
    glyphs = Prefix-refl _;
    clusters = Prefix-append _ _;
    fonts = Prefix-refl _;
  }

  FontAt-with_cluster :
      (font : FontData) (i : ℕ) (x : F) (c : Cluster F) (h : LayoutHandle F)
      → (Fits h → FontAt h i font)
      → Fits (with_cluster i x c h)
      → FontAt (with_cluster i x c h) i font
  FontAt-with_cluster font i x c h at fits =
      let grows = cluster-Grows i x c h in FontAt-Grows i font grows (at (Fits-Grows grows fits))

  one_cluster :
      (font : FontData) (i : ℕ) (x : F) (c : Cluster F) (h : LayoutHandle F)
      → (Fits h → FontAt h i font)
      → ExportsClusters h (with_cluster i x c h) ((font, x, c) ∷ [])
  unfolding lp_cluster
  one_cluster font i x c h at = record {
    exports = record {
      grows = cluster-Grows i x c h;
      pushed = lp_cluster fl i x c ∷ [];
      array_grown = refl;
      reads = λ fits. (record { font = FontAt-with_cluster font i x c h at fits; same = refl }, tt);
    };
    lines = refl;
    runs = refl;
    blocks = refl;
  }

  export_clusters-ExportsClusters :
      (font : FontData) (i : ℕ) (cs : List (Cluster F)) (x : F) (h : LayoutHandle F)
      → (Fits h → FontAt h i font)
      → ExportsClusters h (export_clusters fl i cs x h).1 (run_clusters fl font x cs)
  unfolding export_clusters run_clusters
  export_clusters-ExportsClusters font i [] x h at = nothing h
  export_clusters-ExportsClusters font i (c ∷ cs) x h at =
      ExportsClusters-append ((font, x, c) ∷ []) _ (one_cluster font i x c h at) (
        export_clusters-ExportsClusters font i cs (fl.add x c.advance) (with_cluster i x c h)
          (FontAt-with_cluster font i x c h at))

  export_clusters-end :
      (i : ℕ) (cs : List (Cluster F)) (x : F) (h : LayoutHandle F)
      → (export_clusters fl i cs x h).0 ≡ end_of fl x cs
  unfolding export_clusters end_of
  export_clusters-end i [] x h = refl
  export_clusters-end i (c ∷ cs) x h =
      export_clusters-end i cs (fl.add x c.advance) (with_cluster i x c h)

  pub export_line_runs-ExportsClusters :
      (faces : List Face) (runs : List (Run F)) (x : F) (h : LayoutHandle F)
      → ExportsClusters h (export_line_runs fl faces runs x h) (line_clusters fl x runs)
  unfolding export_line_runs line_clusters
  export_line_runs-ExportsClusters faces [] x h = nothing h
  export_line_runs-ExportsClusters faces (run ∷ runs) x h =
      let indexed = font_index-Indexes fl faces h run.font in
      let (i, g) = font_index fl faces h run.font in
      let cs = run.visual_clusters in
      let k = (export_clusters fl i cs x g).1 in
      ExportsClusters-append (run_clusters fl run.font x cs) _
        (ExportsClusters-append [] _ (Indexes-ExportsClusters i run.font indexed)
          (export_clusters-ExportsClusters run.font i cs x g indexed.at))
        (subst
          (λ y.
            ExportsClusters k (export_line_runs fl faces runs (export_clusters fl i cs x g).0 k)
              (line_clusters fl y runs))
          (export_clusters-end i cs x g)
          (export_line_runs-ExportsClusters faces runs (export_clusters fl i cs x g).0 k))
