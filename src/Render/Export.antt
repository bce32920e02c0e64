-- ===== src/Render/Export.antt =====
-- `LayoutHandle` of src/rust/render/lib.rs: placed blocks as flat arrays, each owning a range of
-- the next one.
pub mod Reads
pub mod Stability
pub mod Steps
pub mod Fonts
pub mod Runs
pub mod Clusters
pub mod Lines
pub mod Blocks
use lightpanda_browser.Prelude.{
  ℕ, ◌+◌, ◌-◌, Bool, true, false, ◌&&◌, List, [], ◌∷◌, ◌++◌, Option, none, some, Bytes, codes, ◌==◌,
  if◌then◌else◌, map, length,
}
use lightpanda_browser.Prelude.Slices.{index_of, get_elem?}
use lightpanda_browser.Render.Float.{Float}
use lightpanda_browser.Render.Text.{
  Rgb, packed, FontData, Glyph, Cluster, Run, Decoration, GlyphRun, Item, glyph_run, inline_box,
  Line, Layout,
}
use lightpanda_browser.Render.Abi.{
  as_u32, sub_u32, layout_none, block_rule, cluster_ligature_start, cluster_ligature_cont,
  LpDecoration, LpGlyph, LpCluster, LpRun, LpLine, LpLayoutBlock, LpFont, LpLayout,
}

-- A bundled face: the address of its file, its name, and whether it is monospaced.
pub record Face : Type 0 where
  pub data_ptr : ℕ
  pub name : Bytes
  pub mono : Bool

-- `FONTS`, from the addresses that the linker gives the four files.
unfoldable pub bundled_fonts : (sans sans_bold mono mono_bold : ℕ) → List Face
bundled_fonts sans sans_bold mono mono_bold =
    record { data_ptr = sans; name = codes "DejaVuSans"; mono = false }
    ∷ record { data_ptr = sans_bold; name = codes "DejaVuSans-Bold"; mono = false }
    ∷ record { data_ptr = mono; name = codes "DejaVuSansMono"; mono = true }
    ∷ record { data_ptr = mono_bold; name = codes "DejaVuSansMono-Bold"; mono = true }
    ∷ []

pub record Marker (F : Type 0) : Type 0 where
  pub layout : Layout F
  pub x : F

pub record Placed (F : Type 0) : Type 0 where
  pub layout : Layout F
  pub x : F
  pub y : F
  pub kind : ℕ
  pub marker : Option (Marker F)
  pub quote_bars : ℕ
  pub quote_x : F

pub record LayoutHandle (F : Type 0) : Type 0 where
  pub height : F
  pub blocks : List (LpLayoutBlock F)
  pub lines : List (LpLine F)
  pub runs : List (LpRun F)
  pub glyphs : List (LpGlyph F)
  pub clusters : List (LpCluster F)
  pub fonts : List LpFont

-- The name and the width class of a face.
unfoldable pub face_of : List Face → ℕ → Bytes × Bool
face_of [] data_ptr = (codes "DejaVuSans", false)
face_of (f ∷ fs) data_ptr = if f.data_ptr == data_ptr then (f.name, f.mono) else face_of fs data_ptr

abbrev pub is_face : FontData → LpFont → Bool
is_face font f = f.data_ptr == font.data_ptr && f.index == font.index

module _ (fl : Float) where
  open fl use {F}

  unfoldable pub lp_glyph : Glyph F → LpGlyph F
  lp_glyph g = record { id = g.id; x = g.x; y = g.y; advance = g.advance }

  -- `d.offset.unwrap_or(off)`, and so on.
  abbrev pub unwrap_or : Option F → F → F
  unwrap_or none x = x
  unwrap_or (some y) x = y

  unfoldable pub deco : Option (Decoration F) → F → F → LpDecoration F
  deco (some d) off size = record {
    enabled = 1;
    offset = unwrap_or d.offset off;
    size = fl.max_of (unwrap_or d.size size) (fl.lit 1 1);
    color = packed d.brush;
  }
  deco none off size = record { enabled = 0; offset = fl.lit 0 1; size = fl.lit 0 1; color = 0 }

  unfoldable pub skew_of : Option F → F
  skew_of none = fl.lit 0 1
  skew_of (some deg) = fl.tan (fl.to_radians deg)

  abbrev bit : Bool → ℕ → ℕ
  bit b flag = if b then flag else 0

  unfoldable pub first_glyph : List (Glyph F) → ℕ
  first_glyph [] = layout_none
  first_glyph (g ∷ _) = g.id

  unfoldable pub lp_cluster : (font : ℕ) → (x : F) → Cluster F → LpCluster F
  unfolding first_glyph
  lp_cluster font x c = record {
    font = font;
    glyph = first_glyph c.glyphs;
    text_start = as_u32 c.text_start;
    text_len = as_u32 (c.text_end - c.text_start);
    x = x;
    advance = c.advance;
    flags =
        bit c.is_ligature_start cluster_ligature_start
        + bit c.is_ligature_continuation cluster_ligature_cont;
  }

  -- The clusters of one run, with the x behind the last one.
  unfoldable pub export_clusters : ℕ → List (Cluster F) → F → LayoutHandle F → F × LayoutHandle F
  unfolding lp_cluster
  export_clusters font [] x h = (x, h)
  export_clusters font (c ∷ cs) x h =
      export_clusters font cs (fl.add x c.advance)
        (record h { clusters = h.clusters ++ lp_cluster font x c ∷ [] })

  module _ (faces : List Face) where
    unfoldable pub font_index : LayoutHandle F → FontData → ℕ × LayoutHandle F
    unfolding face_of
    font_index h font = elim (index_of (is_face font) h.fonts) [
      | some i ↦ (as_u32 i, h)
      | none ↦
          let (name, mono) = face_of faces font.data_ptr in
          let entry : LpFont = record {
            data_ptr = font.data_ptr;
            data_len = font.data_len;
            index = font.index;
            name = name;
            mono = if mono then 1 else 0;
          } in
          (as_u32 (length h.fonts), record h { fonts = h.fonts ++ entry ∷ [] })
    ]

    unfoldable pub export_run : GlyphRun F → F → LayoutHandle F → LayoutHandle F
    unfolding font_index deco skew_of
    export_run gr oy h =
        let m = gr.run.metrics in
        let pushed = h.glyphs ++ map lp_glyph gr.glyphs in
        let (font, g) = font_index (record h { glyphs = pushed }) gr.run.font in
        let run : LpRun F = record {
          font = font;
          size = gr.run.font_size;
          skew = skew_of gr.run.skew;
          color = packed gr.style.brush;
          offset = gr.offset;
          baseline = fl.add oy gr.baseline;
          advance = gr.advance;
          glyphs = as_u32 (length h.glyphs);
          glyphs_len = sub_u32 (as_u32 (length g.glyphs)) (as_u32 (length h.glyphs));
          underline = deco gr.style.underline m.underline_offset m.underline_size;
          strike = deco gr.style.strikethrough m.strikethrough_offset m.strikethrough_size;
        } in
        record g { runs = g.runs ++ run ∷ [] }

    unfoldable pub export_items : List (Item F) → F → LayoutHandle F → LayoutHandle F
    export_items [] oy h = h
    export_items (glyph_run gr ∷ items) oy h = export_items items oy (export_run gr oy h)
    export_items (inline_box ∷ items) oy h = export_items items oy h

    unfoldable pub export_line_runs : List (Run F) → F → LayoutHandle F → LayoutHandle F
    unfolding font_index
    export_line_runs [] x h = h
    export_line_runs (run ∷ runs) x h =
        let (font, g) = font_index h run.font in
        let (x', g') = export_clusters font run.visual_clusters x g in export_line_runs runs x' g'

    unfoldable pub export_line : Line F → (ox oy : F) → LayoutHandle F → LayoutHandle F
    export_line line ox oy h =
        let m = line.metrics in
        let g = export_items line.items oy h in
        let k = export_line_runs line.runs m.offset g in
        let entry : LpLine F = record {
          x = ox;
          top = fl.add oy m.block_min_coord;
          bottom = fl.add oy m.block_max_coord;
          runs = as_u32 (length h.runs);
          runs_len = sub_u32 (as_u32 (length g.runs)) (as_u32 (length h.runs));
          clusters = as_u32 (length g.clusters);
          clusters_len = sub_u32 (as_u32 (length k.clusters)) (as_u32 (length g.clusters));
        } in
        record k { lines = k.lines ++ entry ∷ [] }

    -- `export_layout`, over the lines of the layout.
    unfoldable pub export_layout : List (Line F) → (ox oy : F) → LayoutHandle F → LayoutHandle F
    export_layout [] ox oy h = h
    export_layout (line ∷ lines) ox oy h = export_layout lines ox oy (export_line line ox oy h)

    unfoldable pub export_marker : Option (Marker F) → F → LayoutHandle F → ℕ × LayoutHandle F
    export_marker none y h = (layout_none, h)
    export_marker (some m) y h = (as_u32 (length h.lines), export_layout m.layout.lines m.x y h)

    unfoldable pub export_block : Placed F → LayoutHandle F → LayoutHandle F
    unfolding export_marker
    export_block p h =
        let g = if p.kind == block_rule then h else export_layout p.layout.lines p.x p.y h in
        let (marker_line, k) = export_marker p.marker p.y g in
        let block : LpLayoutBlock F = record {
          x = p.x;
          y = p.y;
          quote_x = p.quote_x;
          lines = as_u32 (length h.lines);
          lines_len = sub_u32 (as_u32 (length g.lines)) (as_u32 (length h.lines));
          marker_line = marker_line;
          kind = p.kind;
          quote_bars = p.quote_bars;
        } in
        record k { blocks = k.blocks ++ block ∷ [] }

    unfoldable pub export_blocks : List (Placed F) → LayoutHandle F → LayoutHandle F
    export_blocks [] h = h
    export_blocks (p ∷ ps) h = export_blocks ps (export_block p h)

    unfoldable pub export_placed : List (Placed F) → F → LayoutHandle F
    export_placed placed height = export_blocks placed (record {
      height = height;
      blocks = [];
      lines = [];
      runs = [];
      glyphs = [];
      clusters = [];
      fonts = [];
    })
