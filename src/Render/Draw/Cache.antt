-- ===== src/Render/Draw/Cache.antt =====
-- The cache of outlines never shows: a picture does not depend on what the cache holds.
use Prim.Native.Nat.{bit_xor}
use lightpanda_browser.Prelude.{
  subst, ℕ, ◌&&◌, not, Bool-cases, List, [], ◌∷◌, Option, none, some, Option-cases, inl, inr, ◌==◌,
  if◌then◌else◌, ◌≡◌, refl, sym, ap, ◌∙◌, arith,
}
use lightpanda_browser.Render.Float.{Float}
use lightpanda_browser.Render.Text.{
  Rgb, FontData, Glyph, GlyphRun, Item, glyph_run, inline_box, Line,
}
use lightpanda_browser.Render.Abi.{block_pre, block_rule}
use lightpanda_browser.Render.Export.{Marker, Placed}
use lightpanda_browser.Render.Raster.{LpRenderOpts}
use lightpanda_browser.Render.Draw.{
  Skia, Skrifa, Transform, CacheEntry, lookup, key_of, Canvas, outline_of, cached_outline,
  paint_path, draw_glyph, draw_glyphs, draw_glyph_run, decorate, draw_items, draw_layout,
  draw_marker, draw_bars, draw_placed, draw_rule, draw_background, draw_all,
}

-- Faces whose address and index have one exclusive or have the same outlines.
pub record KeysApart {F : Type 0} (skrifa : Skrifa F) : Type 0 where
  pub apart :
      (f g : FontData) (id : ℕ)
      → bit_xor f.data_ptr f.index ≡ bit_xor g.data_ptr g.index
      → skrifa.glyph f id ≡ skrifa.glyph g id

-- Every entry is the outline of its glyph.
abbrev pub IsCache :
    (fl : Float) (skia : Skia fl.F) → Skrifa fl.F → List (CacheEntry skia.Outline) → Type 0
IsCache fl skia skrifa cache =
    (font : FontData) (id : ℕ) (path : Option skia.Outline)
    → lookup cache (key_of font) id ≡ some path
    → outline_of fl skia skrifa font id ≡ some path

pub nothing-IsCache :
    (fl : Float) (skia : Skia fl.F) (skrifa : Skrifa fl.F) → IsCache fl skia skrifa []
unfolding lookup
nothing-IsCache fl skia skrifa font id path e = absurd (ground (arith, e))

module _ (fl : Float) (skia : Skia fl.F) (skrifa : Skrifa fl.F) (keys : KeysApart skrifa) where
  open fl use {F}
  open skia use {Pixmap, Outline}

  outline_same :
      (f g : FontData) (id : ℕ)
      → key_of f ≡ key_of g
      → outline_of fl skia skrifa f id ≡ outline_of fl skia skrifa g id
  unfolding outline_of key_of
  outline_same f g id e = rw (keys.apart f g id e, outline_of) refl

  -- An outline put in is an outline found.
  pub pushed-IsCache :
      (font : FontData) (id : ℕ) (drawn : Option Outline) (cache : List (CacheEntry Outline))
      → outline_of fl skia skrifa font id ≡ some drawn
      → IsCache fl skia skrifa cache
      → IsCache fl skia skrifa
          (record { font_key = key_of font; glyph_id = id; path = drawn } ∷ cache)
  unfolding lookup
  pushed-IsCache font id drawn cache made good f i path e =
      elim (Bool-cases ((key_of font == key_of f) && (id == i))) [
        | inl hit ↦
            let same_key : key_of font ≡ key_of f = ground (arith, hit) in
            let same_id : id ≡ i = ground (arith, hit) in
            let at : some drawn ≡ some path = ground (arith, e, hit) in
            sym (outline_same font f i same_key)
            ∙ ap (outline_of fl skia skrifa font) (sym same_id)
            ∙ made
            ∙ at
        | inr miss ↦ good f i path (ground (arith, e, miss))
      ]

  cached_outline_sound :
      (font : FontData) (id : ℕ) (cache : List (CacheEntry Outline))
      → IsCache fl skia skrifa cache
      → ((cached_outline fl skia skrifa font id cache).0 ≡ outline_of fl skia skrifa font id)
        × IsCache fl skia skrifa (cached_outline fl skia skrifa font id cache).1
  unfolding cached_outline
  cached_outline_sound font id cache good = elim (Option-cases (lookup cache (key_of font) id)) [
    | inl missing ↦ elim (Option-cases (outline_of fl skia skrifa font id)) [
      | inl panicked ↦ rw (missing, panicked, cached_outline) (refl, good)
      | inr (path, made) ↦
          rw (missing, made, cached_outline) (refl, pushed-IsCache font id path cache made good)
    ]
    | inr (path, found) ↦ rw (found, cached_outline) (sym (good font id path found), good)
  ]

  -- The same picture, and two caches that may differ.
  pub record Agree (c d : Canvas fl skia skrifa) : Type 0 where
    pub same : c.pixmap ≡ d.pixmap
    pub left : IsCache fl skia skrifa c.glyph_cache
    pub right : IsCache fl skia skrifa d.glyph_cache

  painted :
      {c d : Canvas fl skia skrifa} (f : Option Pixmap → Option Pixmap)
      → Agree c d
      → Agree (record c { pixmap = f c.pixmap }) (record d { pixmap = f d.pixmap })
  painted f agree = record { same = ap f agree.same; left = agree.left; right = agree.right }

  draw_glyph-Agree :
      (font : FontData) (id : ℕ) (color : Rgb) (t : Transform F) (picture : Option Pixmap)
      (a b : List (CacheEntry Outline))
      → IsCache fl skia skrifa a
      → IsCache fl skia skrifa b
      → Agree
          (draw_glyph fl skia skrifa font id color t picture a)
          (draw_glyph fl skia skrifa font id color t picture b)
  unfolding draw_glyph
  draw_glyph-Agree font id color t none a b left right = record {
    same = refl;
    left = left;
    right = right;
  }
  draw_glyph-Agree font id color t (some pixmap) a b left right =
      let (one, one_good) = cached_outline_sound font id a left in
      let (two, two_good) = cached_outline_sound font id b right in
      record {
        same = ap (λ path. paint_path fl skia skrifa path color t pixmap) (one ∙ sym two);
        left = one_good;
        right = two_good;
      }

  draw_glyphs-Agree :
      (font : FontData) (color : Rgb) (scale skew baseline x : F) (gs : List (Glyph F))
      {c d : Canvas fl skia skrifa}
      → Agree c d
      → Agree
          (draw_glyphs fl skia skrifa font color scale skew baseline x gs c)
          (draw_glyphs fl skia skrifa font color scale skew baseline x gs d)
  unfolding draw_glyphs
  draw_glyphs-Agree font color scale skew baseline x [] agree = agree
  draw_glyphs-Agree font color scale skew baseline x (g ∷ gs) {c} {d} agree =
      let t : Transform F = record {
        sx = scale;
        ky = fl.lit 0 1;
        kx = fl.mul skew scale;
        sy = fl.neg scale;
        tx = fl.add x g.x;
        ty = fl.sub baseline g.y;
      } in
      draw_glyphs-Agree font color scale skew baseline (fl.add x g.advance) gs (
        subst
          (λ picture.
            Agree (draw_glyph fl skia skrifa font g.id color t c.pixmap c.glyph_cache)
              (draw_glyph fl skia skrifa font g.id color t picture d.glyph_cache))
          agree.same
          (draw_glyph-Agree font g.id color t c.pixmap c.glyph_cache d.glyph_cache agree.left
            agree.right))

  draw_glyph_run-Agree :
      (gr : GlyphRun F) (ox oy : F) {c d : Canvas fl skia skrifa}
      → Agree c d
      → Agree (draw_glyph_run fl skia skrifa gr ox oy c) (draw_glyph_run fl skia skrifa gr ox oy d)
  unfolding draw_glyph_run
  draw_glyph_run-Agree gr ox oy {c} {d} agree = elim (Option-cases (skrifa.face gr.run.font)) [
    | inl panicked ↦ rw (panicked, draw_glyph_run) (painted (λ picture. none) agree)
    | inr (read, found) ↦ elim (Option-cases read) [
      | inl unreadable ↦ rw (found, unreadable, draw_glyph_run) agree
      | inr (upem, e) ↦ elim (Bool-cases (not (fl.gt upem (fl.lit 0 1)))) [
        | inl no_size ↦ rw (found, e, no_size, draw_glyph_run) agree
        | inr sized ↦
            rw (found, e, sized, draw_glyph_run)
              (painted (decorate fl skia skrifa gr (fl.add ox gr.offset) (fl.add oy gr.baseline))
                (draw_glyphs-Agree gr.run.font gr.style.brush _ _ _ _ gr.glyphs agree))
      ]
    ]
  ]

  draw_items-Agree :
      (items : List (Item F)) (ox oy : F) {c d : Canvas fl skia skrifa}
      → Agree c d
      → Agree (draw_items fl skia skrifa items ox oy c) (draw_items fl skia skrifa items ox oy d)
  unfolding draw_items
  draw_items-Agree [] ox oy agree = agree
  draw_items-Agree (glyph_run gr ∷ items) ox oy agree =
      draw_items-Agree items ox oy (draw_glyph_run-Agree gr ox oy agree)
  draw_items-Agree (inline_box ∷ items) ox oy agree = draw_items-Agree items ox oy agree

  draw_layout-Agree :
      (lines : List (Line F)) (ox oy : F) {c d : Canvas fl skia skrifa}
      → Agree c d
      → Agree (draw_layout fl skia skrifa lines ox oy c) (draw_layout fl skia skrifa lines ox oy d)
  unfolding draw_layout
  draw_layout-Agree [] ox oy agree = agree
  draw_layout-Agree (line ∷ lines) ox oy agree =
      draw_layout-Agree lines ox oy (draw_items-Agree line.items ox oy agree)

  draw_marker-Agree :
      (marker : Option (Marker F)) (oy : F) {c d : Canvas fl skia skrifa}
      → Agree c d
      → Agree (draw_marker fl skia skrifa marker oy c) (draw_marker fl skia skrifa marker oy d)
  draw_marker-Agree none oy agree = agree
  draw_marker-Agree (some m) oy agree = draw_layout-Agree m.layout.lines m.x oy agree

  draw_placed-Agree :
      (opts : LpRenderOpts F) (p : Placed F) (oy : F) {c d : Canvas fl skia skrifa}
      → Agree c d
      → Agree (draw_placed fl skia skrifa opts p oy c) (draw_placed fl skia skrifa opts p oy d)
  unfolding draw_placed
  draw_placed-Agree opts p oy {c} {d} agree = elim (Bool-cases (p.kind == block_rule)) [
    | inl rule ↦ rw (rule, draw_placed) (painted (draw_rule fl skia skrifa opts p oy) agree)
    | inr text ↦
        rw (text, draw_placed)
          (draw_layout-Agree p.layout.lines _ oy (
            draw_marker-Agree p.marker oy (
              painted
                (λ pixmap. draw_bars fl skia skrifa opts p oy 0 p.quote_bars (
                  if p.kind == block_pre
                  then draw_background fl skia skrifa opts p oy pixmap
                  else pixmap))
                agree)))
  ]

  draw_all-Agree :
      (opts : LpRenderOpts F) (ph : ℕ) (ps : List (Placed F)) {c d : Canvas fl skia skrifa}
      → Agree c d
      → Agree (draw_all fl skia skrifa opts ph ps c) (draw_all fl skia skrifa opts ph ps d)
  unfolding draw_all
  draw_all-Agree opts ph [] agree = agree
  draw_all-Agree opts ph (p ∷ ps) {c} {d} agree =
      let oy = fl.mul p.y opts.scale in
      elim (Bool-cases (fl.gt oy (fl.from ph))) [
        | inl beyond ↦ rw (beyond, draw_all) agree
        | inr inside ↦
            rw (inside, draw_all) (draw_all-Agree opts ph ps (draw_placed-Agree opts p oy agree))
      ]

  -- Drawing blocks with a cache of outlines gives the picture that drawing them with no cache
  -- gives, and leaves a cache of outlines, if faces with one key have the same outlines.
  pub draw_all-IsCache :
      (opts : LpRenderOpts F) (ph : ℕ) (ps : List (Placed F)) (cache : List (CacheEntry Outline))
      (picture : Option Pixmap)
      → IsCache fl skia skrifa cache
      → ((draw_all fl skia skrifa opts ph ps
            (record { glyph_cache = cache; pixmap = picture })).pixmap
          ≡ (draw_all fl skia skrifa opts ph ps
              (record { glyph_cache = []; pixmap = picture })).pixmap)
        × IsCache fl skia skrifa
            (draw_all fl skia skrifa opts ph ps
              (record { glyph_cache = cache; pixmap = picture })).glyph_cache
  draw_all-IsCache opts ph ps cache picture good =
      let agree =
        draw_all-Agree opts ph ps
          (record { same = refl; left = good; right = nothing-IsCache fl skia skrifa }) in
      (agree.same, agree.left)
