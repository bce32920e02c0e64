-- ===== src/Render/Tests.antt =====
-- The layout functions of the renderer, at concrete blocks and options.
use lightpanda_browser.Render.Example.{whole, faces, placed, one_line, lp_item}
use lightpanda_browser.Prelude.{
  ℕ, ◌+◌, ◌*◌, [], ◌∷◌, none, some, List, length, arith, ◌^◌, ◌<◌, ◌≤◌, ◌⊎◌, ◌≢◌, ◌≡◌, refl,
}
use lightpanda_browser.Prelude.Utf8.{is_utf8}
use lightpanda_browser.Ffi.{read}
use lightpanda_browser.Heap.{Heap, null}
use lightpanda_browser.Heap.Laws.{IsHeap}
use lightpanda_browser.Render.Blocks.{Block, blocks_from_ffi}
use lightpanda_browser.Render.Blocks.Laws.{SameBlock, blocks_from_ffi-SameBlock}
use lightpanda_browser.Render.Flow.{layout}
use lightpanda_browser.Render.Flow.Laws.{IsOrdered, Shapes, Stacked, layout-Stacked}
use lightpanda_browser.Render.Handles.{view, lp_layout_new, lp_layout_free}
use lightpanda_browser.Render.Handles.Laws.{lp_layout_new_outcome, lp_layout_new-Stacked}
use lightpanda_browser.Render.Raster.{
  LpRenderOpts, raster_size, crop_rect, max_raster_dim, max_raster_pixels,
}
use lightpanda_browser.Render.Raster.Laws.{raster_size_bounds, crop_rect_within}
use lightpanda_browser.Prelude.Slices.{All2, index_of}
use lightpanda_browser.Render.Export.{
  Placed, LayoutHandle, export_placed, export_blocks, export_block, export_layout, export_line,
  export_items, export_run, font_index, export_line_runs, export_clusters, export_marker,
}
use lightpanda_browser.Render.Export.Reads.{Fits, BlockReads}
use lightpanda_browser.Render.Export.Blocks.{export_placed-BlockReads}

below : (n k : ℕ) → n ≡ k → k < 2 ^ 32 → n < 2 ^ 32
below n k e lt = omega (arith, e, lt)

abbrev exported : LayoutHandle ℕ
exported = export_placed whole faces placed 85

placed-Fits : Fits exported
unfolding export_placed export_blocks export_block export_layout export_line export_items export_run
    font_index export_line_runs export_clusters export_marker index_of
placed-Fits = record {
  lines = below (length exported.lines) 3 refl (omega arith);
  runs = below (length exported.runs) 3 refl (omega arith);
  glyphs = below (length exported.glyphs) 3 refl (omega arith);
  clusters = below (length exported.clusters) 3 refl (omega arith);
  fonts = below (length exported.fonts) 1 refl (omega arith);
}

export_placed-BlockReads_example :
    All2
      (BlockReads whole (export_placed whole faces placed 85))
      (export_placed whole faces placed 85).blocks
      placed
export_placed-BlockReads_example = export_placed-BlockReads whole faces placed 85 placed-Fits

whole-IsOrdered : IsOrdered whole
whole-IsOrdered = record {
  le = λ a b. a ≤ b;
  le_trans = λ ab bc. omega (arith, ab, bc);
  add_above = λ a b. omega (arith, a, b);
  max_nonneg = λ a b. omega arith;
  ge_le = λ e. ground (arith, e);
  lit_nonneg = λ n d. omega arith;
  mul_nonneg = λ n d m e. omega arith;
}

one_line-Shapes : Shapes whole whole-IsOrdered one_line 1
unfolding whole-IsOrdered
one_line-Shapes = record {
  builds = λ root spans width. (_, refl, omega arith);
  builds_line = λ props text. (_, refl);
}

abbrev item : Block
item = record {
  kind = 0;
  level = 0;
  list_depth = 1;
  quote_depth = 0;
  flags = 0;
  marker = b'-' ∷ [];
  spans = record { text = b'a' ∷ []; flags = 33; color = 0x0000ff } ∷ [];
}

abbrev rule : Block
rule = record {
  kind = 3;
  level = 0;
  list_depth = 0;
  quote_depth = 0;
  flags = 0;
  marker = [];
  spans = [];
}

layout-Stacked_example :
    (ps : List (Placed ℕ)) × (bottom : ℕ) × (layout whole one_line (item ∷ rule ∷ []) 200 16 1
      ≡ some (ps, bottom + 16))
    × Stacked whole whole-IsOrdered one_line 1 16 (item ∷ rule ∷ []) ps bottom
unfolding whole-IsOrdered
layout-Stacked_example =
    layout-Stacked whole whole-IsOrdered one_line 1 one_line-Shapes (item ∷ rule ∷ []) 200 16
      (omega arith)

blocks_from_ffi-SameBlock_test :
    (doc : List Block) × (blocks_from_ffi (lp_item ∷ []) ≡ some doc)
    × All2 SameBlock (lp_item ∷ []) doc
unfolding is_utf8 read
blocks_from_ffi-SameBlock_test = blocks_from_ffi-SameBlock (lp_item ∷ []) ((refl, tt), tt)

abbrev no_layouts : Heap (LayoutHandle ℕ)
no_layouts = record { next = 16; cell = λ p. none }

no_layouts-IsHeap : IsHeap no_layouts
no_layouts-IsHeap = record { positive = omega arith; null_dead = refl; fresh_dead = λ p le. refl }

lp_layout_new_outcome_example :
    (lp_layout_new whole one_line faces (lp_item ∷ []) 200 16 no_layouts ≡ (null, none, no_layouts))
    ⊎ (handle : LayoutHandle ℕ) × (p : ℕ) × (g : Heap (LayoutHandle ℕ)) × (lp_layout_new whole
          one_line faces
          (lp_item ∷ [])
          200
          16
          no_layouts
        ≡ (p, some (view whole handle), g))
      × (p ≢ null)
      × (g.cell p ≡ some handle)
      × (lp_layout_free whole p g ≡ some (record no_layouts { next = 17 }))
lp_layout_new_outcome_example =
    lp_layout_new_outcome whole one_line faces (lp_item ∷ []) 200 16 no_layouts no_layouts-IsHeap

lp_layout_new-Stacked_example :
    (doc : List Block) × (ps : List (Placed ℕ)) × (bottom : ℕ) × (p : ℕ) × (g : Heap
      (LayoutHandle ℕ))
    × (lp_layout_new whole one_line faces (lp_item ∷ []) 200 16 no_layouts
        ≡ (p, some (view whole (export_placed whole faces ps (bottom + 16))), g))
    × (p ≢ null)
    × (g.cell p ≡ some (export_placed whole faces ps (bottom + 16)))
    × All2 SameBlock (lp_item ∷ []) doc
    × Stacked whole whole-IsOrdered one_line 1 16 doc ps bottom
unfolding is_utf8 read
lp_layout_new-Stacked_example =
    lp_layout_new-Stacked whole one_line faces whole-IsOrdered (lp_item ∷ []) 200 16 no_layouts
      no_layouts-IsHeap one_line-Shapes (refl, refl, refl, refl) ((refl, tt), tt)

abbrev opts : LpRenderOpts ℕ
opts = record {
  width = 20000;
  height = 0;
  clip_x = 100;
  clip_y = 9000;
  clip_w = 50000;
  clip_h = 10;
  scale = 2;
  flags = 0;
}

raster_size_bounds_example :
    let size = raster_size whole whole (λ a. a) opts 9000 in
    (1 ≤ size.0)
    × (size.0 ≤ max_raster_dim)
    × (1 ≤ size.1)
    × (size.1 ≤ max_raster_dim)
    × (size.0 * size.1 ≤ max_raster_pixels)
raster_size_bounds_example = raster_size_bounds whole whole (λ a. a) opts 9000

crop_rect_within_example :
    let r = crop_rect whole whole (λ a. a) opts 16384 4096 in
    (1 ≤ r.w) × (r.x + r.w ≤ 16384) × (1 ≤ r.h) × (r.y + r.h ≤ 4096)
crop_rect_within_example =
    crop_rect_within whole whole (λ a. a) opts 16384 4096 (λ a. ground arith) (omega arith)
      (omega arith)
