-- ===== src/Render/Export/Fonts.antt =====
-- The table of faces of an exported layout, and the ranges in 32 bits.
use lightpanda_browser.Prelude.{
  ℕ, ◌+◌, ◌^◌, ◌≤◌, ◌<◌, List, [], ◌∷◌, ◌++◌, length, length-append, Option-cases, inl, inr, ◌≡◌,
  refl, ap, ◌∙◌, arith,
}
use lightpanda_browser.Prelude.Slices.{
  Prefix-refl, Prefix-append, get_elem?, get_elem?-lt, get_elem?_pushed, index_of, index_of-found,
  slice, slice_pushed,
}
use lightpanda_browser.Render.Float.{Float}
use lightpanda_browser.Render.Text.{FontData}
use lightpanda_browser.Render.Abi.{as_u32, sub_u32}
use lightpanda_browser.Render.Export.{Face, LayoutHandle, font_index, is_face}
use lightpanda_browser.Render.Export.Reads.{Grows, Grows-refl, Fits, FontAt}

pub as_u32-small : (n : ℕ) → n < 2 ^ 32 → as_u32 n ≡ n
as_u32-small n lt = omega (arith, lt)

pub sub_u32-small : (a b c : ℕ) → c ≡ a + b → c < 2 ^ 32 → sub_u32 (as_u32 c) (as_u32 a) ≡ b
sub_u32-small a b c e lt = omega (arith, e, lt)

module _ {R : Type 0} where
  -- The range of what was pushed on an array of fewer than 2^32 members.
  pub pushed_range :
      (xs ys zs : List R)
      → zs ≡ xs ++ ys
      → length zs < 2 ^ 32
      → slice (as_u32 (length xs)) (sub_u32 (as_u32 (length zs)) (as_u32 (length xs))) zs ≡ ys
  pushed_range xs ys zs e fits =
      let size : length zs ≡ length xs + length ys = ap length e ∙ length-append xs ys in
      ap (λ from. slice from (sub_u32 (as_u32 (length zs)) (as_u32 (length xs))) zs)
        (as_u32-small (length xs) (omega (arith, size)))
      ∙ ap (λ len. slice (length xs) len zs)
          (sub_u32-small (length xs) (length ys) (length zs) size fits)
      ∙ ap (slice (length xs) (length ys)) e
      ∙ slice_pushed xs ys

  pub pushed_within :
      (xs ys zs : List R)
      → zs ≡ xs ++ ys
      → length zs < 2 ^ 32
      → as_u32 (length xs) + sub_u32 (as_u32 (length zs)) (as_u32 (length xs)) ≤ length zs
  pushed_within xs ys zs e fits =
      let size : length zs ≡ length xs + length ys = ap length e ∙ length-append xs ys in
      omega (arith, size)

-- What asking for a face's index does: the table grows, nothing else changes, and the index names
-- an entry for the face.
pub record Indexes {F : Type 0} (h g : LayoutHandle F) (i : ℕ) (font : FontData) : Type 0 where
  pub grows : Grows h g
  pub lines : g.lines ≡ h.lines
  pub runs : g.runs ≡ h.runs
  pub glyphs : g.glyphs ≡ h.glyphs
  pub clusters : g.clusters ≡ h.clusters
  pub blocks : g.blocks ≡ h.blocks
  pub at : Fits g → FontAt g i font

module _ (fl : Float) (faces : List Face) where
  open fl use {F}

  pub font_index-Indexes :
      (h : LayoutHandle F) (font : FontData)
      → Indexes h (font_index fl faces h font).1 (font_index fl faces h font).0 font
  unfolding font_index
  font_index-Indexes h font = elim (Option-cases (index_of (is_face font) h.fonts)) [
    | inl missing ↦
        rw (missing, font_index)
          (record {
            grows = record {
              lines = Prefix-refl _;
              runs = Prefix-refl _;
              glyphs = Prefix-refl _;
              clusters = Prefix-refl _;
              fonts = Prefix-append _ _;
            };
            lines = refl;
            runs = refl;
            glyphs = refl;
            clusters = refl;
            blocks = refl;
            at = λ fits. record {
              entry = _;
              found =
                  ap (get_elem? _) (
                    as_u32-small (length h.fonts)
                      (omega (arith, fits.fonts, length-append h.fonts (_ ∷ []))))
                  ∙ get_elem?_pushed h.fonts _;
              same_data = refl;
              same_index = refl;
            };
          })
    | inr (i, found) ↦
        rw (found, font_index)
          (record {
            grows = Grows-refl h;
            lines = refl;
            runs = refl;
            glyphs = refl;
            clusters = refl;
            blocks = refl;
            at = λ fits.
                let (entry, there, passes) = index_of-found (is_face font) h.fonts i found in
                record {
                  entry = entry;
                  found =
                      ap (get_elem? h.fonts)
                        (as_u32-small i (omega (arith, fits.fonts, get_elem?-lt h.fonts i there)))
                      ∙ there;
                  same_data = ground (arith, passes);
                  same_index = ground (arith, passes);
                };
          })
  ]
