-- ===== src/Render/Export/Reads.antt =====
-- What the reader of an exported layout (src/browser/pdf.zig) finds: a record of a flat array
-- against the part of the layout that it stands for.
use lightpanda_browser.Prelude.{
  ℕ, ◌+◌, ◌^◌, ◌≤◌, ◌<◌, List, [], ◌∷◌, ◌++◌, Option, none, some, ◌==◌, if◌then◌else◌, map, length,
  ◌≡◌, arith,
}
use lightpanda_browser.Prelude.Slices.{
  get_elem?, slice, Prefix, Prefix-refl, Prefix-trans, Prefix-length, All2,
}
use lightpanda_browser.Render.Float.{Float}
use lightpanda_browser.Render.Text.{
  packed, FontData, Cluster, Run, GlyphRun, Item, glyph_run, inline_box, Line,
}
use lightpanda_browser.Render.Abi.{
  layout_none, block_rule, LpCluster, LpRun, LpLine, LpLayoutBlock, LpFont,
}
use lightpanda_browser.Render.Export.{
  LayoutHandle, Marker, Placed, lp_glyph, lp_cluster, deco, skew_of,
}

-- Every array has grown at its end, or stayed.
pub record Grows {F : Type 0} (h g : LayoutHandle F) : Type 0 where
  pub lines : Prefix h.lines g.lines
  pub runs : Prefix h.runs g.runs
  pub glyphs : Prefix h.glyphs g.glyphs
  pub clusters : Prefix h.clusters g.clusters
  pub fonts : Prefix h.fonts g.fonts

-- Every index fits a `u32`.
pub record Fits {F : Type 0} (h : LayoutHandle F) : Type 0 where
  pub lines : length h.lines < 2 ^ 32
  pub runs : length h.runs < 2 ^ 32
  pub glyphs : length h.glyphs < 2 ^ 32
  pub clusters : length h.clusters < 2 ^ 32
  pub fonts : length h.fonts < 2 ^ 32

module _ {F : Type 0} where
  pub Grows-refl : (h : LayoutHandle F) → Grows h h
  Grows-refl h = record {
    lines = Prefix-refl _;
    runs = Prefix-refl _;
    glyphs = Prefix-refl _;
    clusters = Prefix-refl _;
    fonts = Prefix-refl _;
  }

  pub Grows-trans : {h g k : LayoutHandle F} → Grows h g → Grows g k → Grows h k
  Grows-trans a b = record {
    lines = Prefix-trans a.lines b.lines;
    runs = Prefix-trans a.runs b.runs;
    glyphs = Prefix-trans a.glyphs b.glyphs;
    clusters = Prefix-trans a.clusters b.clusters;
    fonts = Prefix-trans a.fonts b.fonts;
  }

  pub Fits-Grows : {h g : LayoutHandle F} → Grows h g → Fits g → Fits h
  Fits-Grows grows fits = record {
    lines = omega (arith, Prefix-length grows.lines, fits.lines);
    runs = omega (arith, Prefix-length grows.runs, fits.runs);
    glyphs = omega (arith, Prefix-length grows.glyphs, fits.glyphs);
    clusters = omega (arith, Prefix-length grows.clusters, fits.clusters);
    fonts = omega (arith, Prefix-length grows.fonts, fits.fonts);
  }

-- The index names an entry for the face.
pub record FontAt {F : Type 0} (h : LayoutHandle F) (i : ℕ) (font : FontData) : Type 0 where
  pub entry : LpFont
  pub found : get_elem? h.fonts i ≡ some entry
  pub same_data : entry.data_ptr ≡ font.data_ptr
  pub same_index : entry.index ≡ font.index

module _ (fl : Float) where
  open fl use {F}

  unfoldable pub glyph_runs : List (Item F) → List (GlyphRun F)
  glyph_runs [] = []
  glyph_runs (glyph_run gr ∷ items) = gr ∷ glyph_runs items
  glyph_runs (inline_box ∷ items) = glyph_runs items

  -- The clusters of a run, each with its face and its x.
  unfoldable pub run_clusters : FontData → F → List (Cluster F) → List (FontData × F × Cluster F)
  run_clusters font x [] = []
  run_clusters font x (c ∷ cs) = (font, x, c) ∷ run_clusters font (fl.add x c.advance) cs

  -- The x behind the clusters.
  unfoldable pub end_of : F → List (Cluster F) → F
  end_of x [] = x
  end_of x (c ∷ cs) = end_of (fl.add x c.advance) cs

  -- The clusters of a line.
  unfoldable pub line_clusters : F → List (Run F) → List (FontData × F × Cluster F)
  line_clusters x [] = []
  line_clusters x (run ∷ runs) =
      run_clusters run.font x run.visual_clusters
      ++ line_clusters (end_of x run.visual_clusters) runs

  -- The lines of a block; a rule has none.
  unfoldable pub lines_of : Placed F → List (Line F)
  lines_of p = if p.kind == block_rule then [] else p.layout.lines

  pub record RunReads (oy : F) (h : LayoutHandle F) (r : LpRun F) (gr : GlyphRun F) : Type 0 where
    pub font : FontAt h r.font gr.run.font
    pub within : r.glyphs + r.glyphs_len ≤ length h.glyphs
    pub glyphs : slice r.glyphs r.glyphs_len h.glyphs ≡ map (lp_glyph fl) gr.glyphs
    pub baseline : r.baseline ≡ fl.add oy gr.baseline
    pub offset : r.offset ≡ gr.offset
    pub advance : r.advance ≡ gr.advance
    pub size : r.size ≡ gr.run.font_size
    pub skew : r.skew ≡ skew_of fl gr.run.skew
    pub color : r.color ≡ packed gr.style.brush
    pub underline :
        r.underline
        ≡ deco fl gr.style.underline gr.run.metrics.underline_offset gr.run.metrics.underline_size
    pub strike :
        r.strike
        ≡ deco fl gr.style.strikethrough gr.run.metrics.strikethrough_offset
            gr.run.metrics.strikethrough_size

  pub record ClusterReads (h : LayoutHandle F) (c : LpCluster F) (t : FontData × F × Cluster F)
      : Type 0 where
    pub font : FontAt h c.font t.0
    pub same : c ≡ lp_cluster fl c.font t.1 t.2

  pub record LineReads (ox oy : F) (h : LayoutHandle F) (l : LpLine F) (line : Line F)
      : Type 0 where
    pub runs_within : l.runs + l.runs_len ≤ length h.runs
    pub runs : All2 (RunReads oy h) (slice l.runs l.runs_len h.runs) (glyph_runs line.items)
    pub clusters_within : l.clusters + l.clusters_len ≤ length h.clusters
    pub clusters :
        All2
          (ClusterReads h)
          (slice l.clusters l.clusters_len h.clusters)
          (line_clusters line.metrics.offset line.runs)
    pub origin : l.x ≡ ox
    pub box_top : l.top ≡ fl.add oy line.metrics.block_min_coord
    pub box_bottom : l.bottom ≡ fl.add oy line.metrics.block_max_coord

  -- A range of lines.
  pub record LinesRead (ox oy : F) (h : LayoutHandle F) (from len : ℕ) (lines : List (Line F))
      : Type 0 where
    pub within : from + len ≤ length h.lines
    pub each : All2 (LineReads ox oy h) (slice from len h.lines) lines

  abbrev pub MarkerReads : F → LayoutHandle F → ℕ → Option (Marker F) → Type 0
  MarkerReads y h at none = at ≡ layout_none
  MarkerReads y h at (some m) = LinesRead m.x y h at (length m.layout.lines) m.layout.lines

  pub record BlockReads (h : LayoutHandle F) (b : LpLayoutBlock F) (p : Placed F) : Type 0 where
    pub lines : LinesRead p.x p.y h b.lines b.lines_len (lines_of p)
    pub marker : MarkerReads p.y h b.marker_line p.marker
    pub x : b.x ≡ p.x
    pub y : b.y ≡ p.y
    pub quote_x : b.quote_x ≡ p.quote_x
    pub kind : b.kind ≡ p.kind
    pub quote_bars : b.quote_bars ≡ p.quote_bars
