-- ===== src/Render/Flow/Laws.antt =====
-- The flow of blocks stacks them.
use lightpanda_browser.Prelude.{
  ℕ, suc, true, Bool-cases, inl, inr, List, [], ◌∷◌, Option, none, some, Bytes, ◌==◌, ◌||◌, ltb,
  if◌then◌else◌, is_empty, ◌≡◌, refl, sym, ==_iff,
}
use lightpanda_browser.Render.Float.{Float}
use lightpanda_browser.Render.Text.{Layout}
use lightpanda_browser.Render.Abi.{block_heading, block_pre, block_rule}
use lightpanda_browser.Render.Blocks.{Block}
use lightpanda_browser.Render.Export.{Marker, Placed}
use lightpanda_browser.Render.Flow.{
  Parley, Property, RootStyle, Metrics, block_metrics, gap_above, layout_marker, layout_text,
  place_block, layout_block, layout_blocks, layout, list_indent, quote_indent, has_flag,
  block_tight, pad_of, marker_properties, root_style, styled_spans, line_width,
}

-- What IEEE 754 says of `f32`. Zero is below the numbers here, so none of them is a NaN.
pub record IsOrdered (fl : Float) : Type 1 where
  pub le : fl.F → fl.F → Type 0
  pub le_trans : {a b c : fl.F} → le a b → le b c → le a c
  pub add_above : {a b : fl.F} → le (fl.lit 0 1) a → le (fl.lit 0 1) b → le a (fl.add a b)
  pub max_nonneg : (a : fl.F) {b : fl.F} → le (fl.lit 0 1) b → le (fl.lit 0 1) (fl.max_of a b)
  pub ge_le : {a b : fl.F} → fl.ge a b ≡ true → le b a
  pub lit_nonneg : (n d : ℕ) → le (fl.lit 0 1) (fl.lit n (suc d))
  pub mul_nonneg : (n d m e : ℕ) → le (fl.lit 0 1) (fl.mul (fl.lit n (suc d)) (fl.lit m (suc e)))

-- What `parley` says: it shapes every text, and a height is not negative.
pub record Shapes (fl : Float) (o : IsOrdered fl) (parley : Parley fl.F) (scale : fl.F)
    : Type 0 where
  pub builds :
      (root : RootStyle fl.F) (spans : List (List (Property fl.F) × Bytes)) (width : fl.F)
      → (l : Layout fl.F) × (parley.build root scale spans width ≡ some l)
        × o.le (fl.lit 0 1) (fl.div l.height scale)
  pub builds_line :
      (props : List (Property fl.F)) (text : Bytes)
      → (l : Layout fl.F) × (parley.build_line scale props text ≡ some l)

module _ (fl : Float) (o : IsOrdered fl) (parley : Parley fl.F) (scale : fl.F) where
  open fl use {F, lit, add, mul, div}
  open o use {le}

  -- Where a block that starts at `top` ends.
  unfoldable pub box_end : Block → Placed F → F → F
  unfolding pad_of
  box_end b p top =
      if b.kind == block_rule
      then add top (lit 1 1)
      else add top (add (div p.layout.height scale) (mul (lit 2 1) (pad_of fl b)))

  -- The blocks stand below `y`, one below the other, and end at `bottom`.
  abbrev pub Stacked : (y : F) → List Block → List (Placed F) → (bottom : F) → Type 0
  Stacked y [] [] bottom = bottom ≡ y
  Stacked y (b ∷ bs) (p ∷ ps) bottom =
      (top : F) × le y top
      × (p.kind ≡ b.kind)
      × (p.y ≡ (if b.kind == block_rule then top else add top (pad_of fl b)))
      × le top (box_end b p top)
      × Stacked (box_end b p top) bs ps bottom
  Stacked _ _ _ _ = ⊥

  module _ (shapes : Shapes fl o parley scale) where
    marker_total :
        (text : Bytes) (left : F)
        → (m : Option (Marker F)) × (layout_marker fl parley text left scale ≡ some m)
    unfolding layout_marker
    marker_total text left = elim (Bool-cases (is_empty text)) [
      | inl missing ↦ rw (missing, layout_marker) (_, refl)
      | inr there ↦
          let (l, built) = shapes.builds_line (marker_properties fl) text in
          rw (there, built, layout_marker) (_, refl)
    ]

    text_total :
        (b : Block) (m : Metrics F) (content_w margin y indent quote_x : F)
        → (p : Placed F) × (height : F) × (layout_text fl parley b m content_w margin scale y indent
              quote_x
            ≡ some (p, height))
          × (p.kind ≡ b.kind)
          × (p.y ≡ add y (pad_of fl b))
          × (height ≡ add (div p.layout.height scale) (mul (lit 2 1) (pad_of fl b)))
          × le (lit 0 1) (div p.layout.height scale)
    unfolding layout_text pad_of
    text_total b m content_w margin y indent quote_x =
        let (l, built, above) =
          shapes.builds (root_style fl b m) (styled_spans fl (b.kind == block_pre) m.size b.spans)
            (line_width fl b content_w indent scale) in
        let (marker, made) = marker_total b.marker (add margin indent) in
        rw (built, made, layout_text) (_, _, refl, refl, refl, refl, above)

    pad_nonneg : (b : Block) → le (lit 0 1) (mul (lit 2 1) (pad_of fl b))
    unfolding pad_of
    pad_nonneg b = elim (Bool-cases (b.kind == block_pre)) [
      | inl pre ↦ rw (pre, pad_of) (o.mul_nonneg 2 0 8 0)
      | inr other ↦ rw (other, pad_of) (o.mul_nonneg 2 0 0 0)
    ]

    gap_nonneg :
        (b : Block)
        → le
            (lit 0 1)
            (if ltb 0 b.list_depth || has_flag b.flags block_tight then lit 4 1 else lit 12 1)
    gap_nonneg b = elim (Bool-cases (ltb 0 b.list_depth || has_flag b.flags block_tight)) [
      | inl tight ↦ rw tight (o.lit_nonneg 4 0)
      | inr loose ↦ rw loose (o.lit_nonneg 12 0)
    ]

    before_nonneg : (b : Block) → le (lit 0 1) (block_metrics fl b).before
    unfolding block_metrics
    before_nonneg b = elim (Bool-cases (b.kind == block_heading)) [
      | inl heading ↦ rw (heading, block_metrics) (o.lit_nonneg 20 0)
      | inr other ↦ elim (Bool-cases (b.kind == block_pre)) [
        | inl pre ↦ rw (other, pre, block_metrics) (o.lit_nonneg 12 0)
        | inr flowing ↦ elim (Bool-cases (b.kind == block_rule)) [
          | inl rule ↦ rw (other, flowing, rule, block_metrics) (o.lit_nonneg 12 0)
          | inr text ↦ rw (other, flowing, text, block_metrics) (gap_nonneg b)
        ]
      ]
    ]

    gap_above_nonneg :
        (prev : Option F) (b : Block)
        → le (lit 0 1) (gap_above fl parley prev (block_metrics fl b).before)
    unfolding gap_above
    gap_above_nonneg none b = o.lit_nonneg 0 0
    gap_above_nonneg (some after) b = o.max_nonneg after (before_nonneg b)

    -- A block that is placed at `top` stands in its box, and the new `y` is the end of the box.
    place_total :
        (content_w margin top : F) (m : Metrics F) (b : Block)
        → le (lit 0 1) top
        → (p : Placed F) × (place_block fl parley content_w margin scale top m b
            ≡ some (p, box_end b p top))
          × (p.kind ≡ b.kind)
          × (p.y ≡ (if b.kind == block_rule then top else add top (pad_of fl b)))
          × le top (box_end b p top)
    unfolding place_block box_end
    place_total content_w margin top m b positive =
        let indent =
          add (mul (fl.from b.list_depth) (list_indent fl))
            (mul (fl.from b.quote_depth) (quote_indent fl)) in
        let quote_x = add margin (mul (fl.from b.list_depth) (list_indent fl)) in
        elim (Bool-cases (b.kind == block_rule)) [
          | inl rule ↦
              rw (rule, place_block, box_end)
                (
                  _,
                  refl,
                  sym ((==_iff b.kind block_rule).0 rule),
                  refl,
                  o.add_above positive (o.lit_nonneg 1 0),
                )
          | inr other ↦
              let (p, height, shaped, kind, y_of, height_of, height_above) =
                text_total b m content_w margin top indent quote_x in
              let sum = o.add_above height_above (pad_nonneg b) in
              rw (other, shaped, height_of, place_block, box_end)
                (p, refl, kind, y_of, o.add_above positive (o.le_trans height_above sum))
        ]

    blocks_total :
        (content_w margin y : F) (prev : Option F) (bs : List Block)
        → le (lit 0 1) y
        → (ps : List (Placed F)) × (bottom : F) × (layout_blocks fl parley content_w margin scale y
              prev bs
            ≡ some (ps, bottom))
          × Stacked y bs ps bottom
    unfolding layout_blocks layout_block
    blocks_total content_w margin y prev [] above = ([], y, refl, refl)
    blocks_total content_w margin y prev (b ∷ bs) above =
        let m = block_metrics fl b in
        let top = add y (gap_above fl parley prev m.before) in
        let below : le y top = o.add_above above (gap_above_nonneg prev b) in
        let (p, placed, kind, y_of, down) =
          place_total content_w margin top m b (o.le_trans above below) in
        let next = box_end b p top in
        let (ps, bottom, rest, stacked) =
          blocks_total content_w margin next (some m.after) bs
            (o.le_trans above (o.le_trans below down)) in
        (
          p ∷ ps,
          bottom,
          rw (placed, rest, layout_blocks, layout_block) refl,
          (top, below, kind, y_of, down, stacked),
        )

    -- If `parley` shapes every text, with heights that are not negative, a layout with a margin
    -- that is not negative has a result: the blocks are placed in their order, each with its kind,
    -- in boxes that start below the margin and stand one below the other without an overlap, and
    -- the height is the end of the last box and the margin.
    pub layout-Stacked :
        (blocks : List Block) (width margin : F)
        → le (lit 0 1) margin
        → (placed : List (Placed F)) × (bottom : F) × (layout fl parley blocks width margin scale
            ≡ some (placed, add bottom margin))
          × Stacked margin blocks placed bottom
    unfolding layout
    layout-Stacked blocks width margin above =
        let (placed, bottom, flowed, stacked) =
          blocks_total (fl.max_of (fl.sub width (mul (lit 2 1) margin)) (lit 1 1)) margin margin
            none blocks above in
        (placed, bottom, rw (flowed, layout) refl, stacked)
