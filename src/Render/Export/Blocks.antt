-- ===== src/Render/Export/Blocks.antt =====
-- The whole export: what a reader finds for each placed block.
use lightpanda_browser.Prelude.{
  ℕ, Bool-cases, inl, inr, List, [], ◌∷◌, Option, none, some, ◌==◌, if◌then◌else◌, length,
  length-append, ◌≡◌, refl, sym, ap, subst, ◌∙◌,
}
use lightpanda_browser.Prelude.Slices.{Prefix-refl, push_same, All2, All2-length}
use lightpanda_browser.Render.Float.{Float}
use lightpanda_browser.Render.Text.{Line}
use lightpanda_browser.Render.Abi.{as_u32, sub_u32, block_rule}
use lightpanda_browser.Render.Export.{
  Face, LayoutHandle, Marker, Placed, export_layout, export_marker, export_block, export_blocks,
  export_placed,
}
use lightpanda_browser.Render.Export.Reads.{
  Grows, Grows-refl, Grows-trans, Fits, Fits-Grows, LineReads, LinesRead, MarkerReads, BlockReads,
  lines_of,
}
use lightpanda_browser.Render.Export.Stability.{
  LinesRead-stays, MarkerReads-stays, BlockReads-stays,
}
use lightpanda_browser.Render.Export.Steps.{Exports, Exports-nothing, Exports-append}
use lightpanda_browser.Render.Export.Fonts.{sub_u32-small, pushed_range, pushed_within}
use lightpanda_browser.Render.Export.Lines.{ExportsLines, export_layout-ExportsLines}

module _ (fl : Float) where
  open fl use {F}

  -- The range of the lines that a stretch of the export has pushed.
  pushed-LinesRead :
      (ox oy : F) {h g : LayoutHandle F} (lines : List (Line F))
      → ExportsLines fl ox oy h g lines
      → Fits g
      → LinesRead fl ox oy g
          (as_u32 (length h.lines))
          (sub_u32 (as_u32 (length g.lines)) (as_u32 (length h.lines)))
          lines
  pushed-LinesRead ox oy {h} {g} lines done fits = record {
    within = pushed_within h.lines done.exports.pushed g.lines done.exports.array_grown fits.lines;
    each =
        subst (λ l. All2 (LineReads fl ox oy g) l lines)
          (sym
            (pushed_range h.lines done.exports.pushed g.lines done.exports.array_grown fits.lines))
          (done.exports.reads fits);
  }

  -- What the export of a block's marker does.
  record ExportsMarker (y : F) (h g : LayoutHandle F) (at : ℕ) (marker : Option (Marker F))
      : Type 0 where
    grows : Grows h g
    blocks : g.blocks ≡ h.blocks
    reads : Fits g → MarkerReads fl y g at marker

  -- The lines pushed are as many as those of the layout.
  pushed-length :
      (ox oy : F) {h g : LayoutHandle F} (lines : List (Line F))
      → ExportsLines fl ox oy h g lines
      → Fits g
      → sub_u32 (as_u32 (length g.lines)) (as_u32 (length h.lines)) ≡ length lines
  pushed-length ox oy {h} {g} lines done fits =
      sub_u32-small (length h.lines) (length done.exports.pushed) (length g.lines)
        (ap length done.exports.array_grown ∙ length-append h.lines done.exports.pushed) fits.lines
      ∙ All2-length (LineReads fl ox oy g) done.exports.pushed lines (done.exports.reads fits)

  module _ (faces : List Face) where
    export_marker-ExportsMarker :
        (marker : Option (Marker F)) (y : F) (h : LayoutHandle F)
        → ExportsMarker y h
            (export_marker fl faces marker y h).1
            (export_marker fl faces marker y h).0
            marker
    unfolding export_marker
    export_marker-ExportsMarker none y h = record {
      grows = Grows-refl h;
      blocks = refl;
      reads = λ fits. refl;
    }
    export_marker-ExportsMarker (some m) y h =
        let done = export_layout-ExportsLines fl faces m.layout.lines m.x y h in
        let g = export_layout fl faces m.layout.lines m.x y h in
        record {
          grows = done.exports.grows;
          blocks = done.blocks;
          reads = λ fits.
              subst (λ len. LinesRead fl m.x y g (as_u32 (length h.lines)) len m.layout.lines)
                (pushed-length m.x y m.layout.lines done fits)
                (pushed-LinesRead m.x y m.layout.lines done fits);
        }

    -- The handle with the lines of a block; a rule has none.
    abbrev with_lines : Placed F → LayoutHandle F → LayoutHandle F
    with_lines p h =
        if p.kind == block_rule then h else export_layout fl faces p.layout.lines p.x p.y h

    with_lines-ExportsLines :
        (p : Placed F) (h : LayoutHandle F)
        → ExportsLines fl p.x p.y h (with_lines p h) (lines_of fl p)
    unfolding lines_of
    with_lines-ExportsLines p h = elim (Bool-cases (p.kind == block_rule)) [
      | inl rule ↦ rw rule (record {
        exports = Exports-nothing (λ k. k.lines) (LineReads fl p.x p.y) h;
        blocks = refl;
      })
      | inr other ↦ rw other (export_layout-ExportsLines fl faces p.layout.lines p.x p.y h)
    ]

    export_block-Exports :
        (p : Placed F) (h : LayoutHandle F)
        → Exports (λ k. k.blocks) (BlockReads fl) h (export_block fl faces p h) (p ∷ [])
    unfolding export_block
    export_block-Exports p h =
        let text = with_lines-ExportsLines p h in
        let g = with_lines p h in
        let side = export_marker-ExportsMarker p.marker p.y g in
        let k = (export_marker fl faces p.marker p.y g).1 in
        let last : Grows k (export_block fl faces p h) = record {
          lines = Prefix-refl _;
          runs = Prefix-refl _;
          glyphs = Prefix-refl _;
          clusters = Prefix-refl _;
          fonts = Prefix-refl _;
        } in
        let behind = Grows-trans side.grows last in
        record {
          grows = Grows-trans text.exports.grows behind;
          pushed = _ ∷ [];
          array_grown = push_same k.blocks h.blocks _ (side.blocks ∙ text.blocks);
          reads = λ fits. (
            record {
              lines =
                  LinesRead-stays fl p.x p.y g _ _ _ (lines_of fl p) behind
                    (pushed-LinesRead p.x p.y (lines_of fl p) text (Fits-Grows behind fits));
              marker =
                  MarkerReads-stays fl p.y k _ _ p.marker last (side.reads (Fits-Grows last fits));
              x = refl;
              y = refl;
              quote_x = refl;
              kind = refl;
              quote_bars = refl;
            },
            tt,
          );
        }

    export_blocks-Exports :
        (ps : List (Placed F)) (h : LayoutHandle F)
        → Exports (λ k. k.blocks) (BlockReads fl) h (export_blocks fl faces ps h) ps
    unfolding export_blocks
    export_blocks-Exports [] h = Exports-nothing (λ k. k.blocks) (BlockReads fl) h
    export_blocks-Exports (p ∷ ps) h =
        Exports-append (λ k. k.blocks) (BlockReads fl) (BlockReads-stays fl)
          (export_block-Exports p h) (export_blocks-Exports ps (export_block fl faces p h))

    -- A reader of the exported arrays finds the layout: each placed block has its record, in
    -- order, with its place, kind and bars; the block's range of lines holds its lines (a rule has
    -- none) and its marker's index the marker's; each line's ranges hold its runs, with their
    -- glyphs, style and decorations, and its clusters with their positions; every range lies
    -- within its array, and every face's index names that face. The
    -- condition is that no array has 2^32 members.
    pub export_placed-BlockReads :
        (placed : List (Placed F)) (height : F)
        → Fits (export_placed fl faces placed height)
        → All2
            (BlockReads fl (export_placed fl faces placed height))
            (export_placed fl faces placed height).blocks
            placed
    unfolding export_placed
    export_placed-BlockReads placed height fits =
        let done = export_blocks-Exports placed (record {
          height = height;
          blocks = [];
          lines = [];
          runs = [];
          glyphs = [];
          clusters = [];
          fonts = [];
        }) in
        subst (λ l. All2 (BlockReads fl (export_placed fl faces placed height)) l placed)
          (sym done.array_grown) (done.reads fits)
