-- ===== src/Render/Export/Stability.antt =====
-- What is read from an exported layout stays as its arrays grow.
use lightpanda_browser.Prelude.{ℕ, List, Option, none, some, length, ◌≡◌, sym, subst, ◌∙◌, arith}
use lightpanda_browser.Prelude.Slices.{
  slice, Prefix-length, slice-Prefix, get_elem?-Prefix, All2, All2-map,
}
use lightpanda_browser.Render.Float.{Float}
use lightpanda_browser.Render.Text.{FontData, Line}
use lightpanda_browser.Render.Export.{LayoutHandle, Marker}
use lightpanda_browser.Render.Export.Reads.{
  Grows, FontAt, RunReads, ClusterReads, LineReads, LinesRead, MarkerReads, BlockReads,
}
use lightpanda_browser.Render.Export.Steps.{IsStable}

pub FontAt-Grows :
    {F : Type 0} {h g : LayoutHandle F} (i : ℕ) (font : FontData)
    → Grows h g
    → FontAt h i font
    → FontAt g i font
FontAt-Grows i font grows at = record {
  entry = at.entry;
  found = get_elem?-Prefix i grows.fonts at.found;
  same_data = at.same_data;
  same_index = at.same_index;
}

-- A range of an array that has grown, member by member.
range :
    {R X : Type 0} (P Q : R → X → Type 0) (from len : ℕ) (xs ys : List R) (parts : List X)
    → slice from len ys ≡ slice from len xs
    → ((r : R) (x : X) → P r x → Q r x)
    → All2 P (slice from len xs) parts
    → All2 Q (slice from len ys) parts
range P Q from len xs ys parts same stays all =
    subst (λ l. All2 Q l parts) (sym same) (All2-map P Q (slice from len xs) parts stays all)

module _ (fl : Float) where
  open fl use {F}

  pub RunReads-stays : (oy : F) → IsStable (λ h. h.runs) (RunReads fl oy)
  RunReads-stays oy h g r gr grows reads = record {
    font = FontAt-Grows r.font gr.run.font grows reads.font;
    within = omega (arith, Prefix-length grows.glyphs, reads.within);
    glyphs = slice-Prefix r.glyphs r.glyphs_len grows.glyphs reads.within ∙ reads.glyphs;
    baseline = reads.baseline;
    offset = reads.offset;
    advance = reads.advance;
    size = reads.size;
    skew = reads.skew;
    color = reads.color;
    underline = reads.underline;
    strike = reads.strike;
  }

  pub ClusterReads-stays : IsStable (λ h. h.clusters) (ClusterReads fl)
  ClusterReads-stays h g c t grows reads = record {
    font = FontAt-Grows c.font t.0 grows reads.font;
    same = reads.same;
  }

  pub LineReads-stays : (ox oy : F) → IsStable (λ h. h.lines) (LineReads fl ox oy)
  LineReads-stays ox oy h g l line grows reads = record {
    runs_within = omega (arith, Prefix-length grows.runs, reads.runs_within);
    runs =
        range (RunReads fl oy h) (RunReads fl oy g) l.runs l.runs_len h.runs g.runs _
          (slice-Prefix l.runs l.runs_len grows.runs reads.runs_within)
          (λ r gr. RunReads-stays oy h g r gr grows) reads.runs;
    clusters_within = omega (arith, Prefix-length grows.clusters, reads.clusters_within);
    clusters =
        range (ClusterReads fl h) (ClusterReads fl g) l.clusters l.clusters_len h.clusters
          g.clusters _ (slice-Prefix l.clusters l.clusters_len grows.clusters reads.clusters_within)
          (λ c t. ClusterReads-stays h g c t grows) reads.clusters;
    origin = reads.origin;
    box_top = reads.box_top;
    box_bottom = reads.box_bottom;
  }

  pub LinesRead-stays :
      (ox oy : F) (h g : LayoutHandle F) (from len : ℕ) (lines : List (Line F))
      → Grows h g
      → LinesRead fl ox oy h from len lines
      → LinesRead fl ox oy g from len lines
  LinesRead-stays ox oy h g from len lines grows reads = record {
    within = omega (arith, Prefix-length grows.lines, reads.within);
    each =
        range (LineReads fl ox oy h) (LineReads fl ox oy g) from len h.lines g.lines lines
          (slice-Prefix from len grows.lines reads.within)
          (λ l line. LineReads-stays ox oy h g l line grows) reads.each;
  }

  pub MarkerReads-stays :
      (y : F) (h g : LayoutHandle F) (at : ℕ) (marker : Option (Marker F))
      → Grows h g
      → MarkerReads fl y h at marker
      → MarkerReads fl y g at marker
  MarkerReads-stays y h g at none grows reads = reads
  MarkerReads-stays y h g at (some m) grows reads =
      LinesRead-stays m.x y h g at (length m.layout.lines) m.layout.lines grows reads

  pub BlockReads-stays : IsStable (λ h. h.blocks) (BlockReads fl)
  BlockReads-stays h g b p grows reads = record {
    lines = LinesRead-stays p.x p.y h g b.lines b.lines_len _ grows reads.lines;
    marker = MarkerReads-stays p.y h g b.marker_line p.marker grows reads.marker;
    x = reads.x;
    y = reads.y;
    quote_x = reads.quote_x;
    kind = reads.kind;
    quote_bars = reads.quote_bars;
  }
