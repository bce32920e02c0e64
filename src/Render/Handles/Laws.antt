-- ===== src/Render/Handles/Laws.antt =====
-- Layouts behind raw pointers: what a caller gets, and gives back.
use lightpanda_browser.Prelude.{
  ℕ, ◌+◌, true, false, List, none, some, Option-cases, inl, inr, ◌⊎◌, ◌≡◌, ◌≢◌, refl, arith, All,
}
use lightpanda_browser.Heap.{Heap, null, into_raw}
use lightpanda_browser.Heap.Laws.{IsHeap, into_raw-ne-null, cell-into_raw, drop_raw-into_raw}
use lightpanda_browser.Render.Float.{Float}
use lightpanda_browser.Render.Blocks.{LpBlock, Block}
use lightpanda_browser.Render.Export.{Face, LayoutHandle, Placed, export_placed}
use lightpanda_browser.Prelude.Slices.{All2}
use lightpanda_browser.Render.Blocks.Laws.{IsText, SameBlock, blocks_from_ffi-SameBlock}
use lightpanda_browser.Render.Flow.Laws.{IsOrdered, Shapes, Stacked, layout-Stacked}
use lightpanda_browser.Render.Flow.{Parley}
use lightpanda_browser.Render.Handles.{view, bad_column, new_handle, lp_layout_new, lp_layout_free}

module _ (fl : Float) (parley : Parley fl.F) (faces : List Face) where
  open fl use {F, lit}

  -- `lp_layout_new` returns either null, and then nothing was written and no handle was made, or
  -- a live pointer to the exported layout, whose view was written, and freeing it leaves the heap
  -- as it was, but for the address.
  pub lp_layout_new_outcome :
      (blocks : List LpBlock) (width margin : F) (h : Heap (LayoutHandle F))
      → IsHeap h
      → (lp_layout_new fl parley faces blocks width margin h ≡ (null, none, h))
        ⊎ (handle : LayoutHandle F) × (p : ℕ) × (g : Heap (LayoutHandle F)) × (lp_layout_new fl
              parley faces blocks width margin h
            ≡ (p, some (view fl handle), g))
          × (p ≢ null)
          × (g.cell p ≡ some handle)
          × (lp_layout_free fl p g ≡ some (record h { next = h.next + 1 }))
  unfolding lp_layout_new lp_layout_free
  lp_layout_new_outcome blocks width margin h heap =
      elim (Option-cases (new_handle fl parley faces blocks width margin)) [
        | inl refused ↦ inl (rw (refused, lp_layout_new) refl)
        | inr (handle, made) ↦ inr (
          handle,
          _,
          _,
          rw (made, lp_layout_new) refl,
          into_raw-ne-null h handle heap,
          cell-into_raw h handle,
          drop_raw-into_raw h handle heap,
        )
      ]

  new_handle-Stacked :
      (o : IsOrdered fl) (blocks : List LpBlock) (width margin : F)
      → Shapes fl o parley (lit 1 1)
      → bad_column fl width margin ≡ false
      → All IsText blocks
      → (doc : List Block) × (placed : List (Placed F)) × (bottom : F) × (new_handle fl parley faces
            blocks width margin
          ≡ some (export_placed fl faces placed (fl.add bottom margin)))
        × All2 SameBlock blocks doc
        × Stacked fl o parley (lit 1 1) margin doc placed bottom
  unfolding new_handle bad_column
  new_handle-Stacked o blocks width margin shapes good texts =
      let (doc, accepted, same) = blocks_from_ffi-SameBlock blocks texts in
      let inside : fl.ge margin (lit 0 1) ≡ true = ground (arith, good) in
      let (placed, bottom, flowed, stacked) =
        layout-Stacked fl o parley (lit 1 1) shapes doc width margin (o.ge_le inside) in
      (doc, placed, bottom, rw (good, accepted, flowed, new_handle) refl, same, stacked)

  -- If the heap is well formed and `parley` shapes every text, with heights that are not negative,
  -- a column that is wide enough and a margin that is not negative, both finite, with texts in
  -- UTF-8, are laid out: `lp_layout_new` returns a pointer, not null, to a new handle, the export of
  -- the blocks as they were handed over, stacked in their order inside the margin, and writes the
  -- view of that handle.
  pub lp_layout_new-Stacked :
      (o : IsOrdered fl) (blocks : List LpBlock) (width margin : F) (h : Heap (LayoutHandle F))
      → IsHeap h
      → Shapes fl o parley (lit 1 1)
      → (fl.ge width (lit 1 1) ≡ true)
        × (fl.is_finite width ≡ true)
        × (fl.ge margin (lit 0 1) ≡ true)
        × (fl.is_finite margin ≡ true)
      → All IsText blocks
      → (doc : List Block) × (placed : List (Placed F)) × (bottom : F) × (p : ℕ) × (g : Heap
          (LayoutHandle F))
        × (lp_layout_new fl parley faces blocks width margin h
            ≡ (p, some (view fl (export_placed fl faces placed (fl.add bottom margin))), g))
        × (p ≢ null)
        × (g.cell p ≡ some (export_placed fl faces placed (fl.add bottom margin)))
        × All2 SameBlock blocks doc
        × Stacked fl o parley (lit 1 1) margin doc placed bottom
  unfolding lp_layout_new bad_column
  lp_layout_new-Stacked o blocks width margin h heap shapes (wide, finite, inside, bounded) texts =
      let good : bad_column fl width margin ≡ false = rw (wide, finite, inside, bounded) refl in
      let (doc, placed, bottom, made, same, stacked) =
        new_handle-Stacked o blocks width margin shapes good texts in
      let handle = export_placed fl faces placed (fl.add bottom margin) in
      (
        doc,
        placed,
        bottom,
        (into_raw handle h).0,
        (into_raw handle h).1,
        rw (made, lp_layout_new) refl,
        into_raw-ne-null h handle heap,
        cell-into_raw h handle,
        same,
        stacked,
      )
