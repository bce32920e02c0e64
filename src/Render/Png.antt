-- ===== src/Render/Png.antt =====
-- `Renderer::render`, `render_png` and `lp_render_png` of src/rust/render/lib.rs, and the `Sink`
-- that the encoder writes to. The callback of the Zig side answers by what it was given so far;
-- its calls are listed with the answers. `png`'s encoder is a tree of writes.
pub mod Writes
pub mod Codes
pub mod Fresh
pub mod Example
mod Tests
use lightpanda_browser.Prelude.{
  ℕ, Bool, true, false, not, ◌||◌, List, [], ◌∷◌, ◌++◌, Option, none, some, Bytes, ◌==◌,
  if◌then◌else◌,
}
use lightpanda_browser.Render.Float.{Float}
use lightpanda_browser.Render.Blocks.{Block, LpBlock, blocks_from_ffi}
use lightpanda_browser.Render.Export.{Placed}
use lightpanda_browser.Render.Flow.{Parley, has_flag, layout}
use lightpanda_browser.Render.Raster.{
  LpRenderOpts, content_height, strip_height, raster_size, crop_rect,
}
use lightpanda_browser.Render.Draw.{Skia, Skrifa, CacheEntry, Canvas, draw_all}

abbrev pub rc_ok : ℕ
rc_ok = 0

abbrev pub rc_write_refused : ℕ
rc_write_refused = 1

abbrev pub rc_invalid : ℕ
rc_invalid = 2

abbrev pub rc_no_raster : ℕ
rc_no_raster = 3

abbrev pub rc_encode_failed : ℕ
rc_encode_failed = 4

abbrev pub rc_panic : ℕ
rc_panic = 5

abbrev pub render_measure_only : ℕ
render_measure_only = 1

-- The calls of `write` so far, each with its answer.
abbrev pub Calls : Type 0
Calls = List (Bytes × Bool)

abbrev pub Write : Type 0
Write = Calls → Bytes → Bool

pub record Sink : Type 0 where
  pub calls : Calls
  pub failed : Bool

-- `Sink::write`: the new sink, and whether it is `Ok`.
unfoldable pub sink_write : Write → Bytes → Sink → Sink × Bool
sink_write write buf s =
    if s.failed
    then (s, false)
    else let accepted = write s.calls buf in
      (record { calls = s.calls ++ (buf, accepted) ∷ []; failed = not accepted }, accepted)

abbrev pub fresh_sink : Sink
fresh_sink = record { calls = []; failed = false }

-- What the encoder does: it ends, with success or not, panics, or writes, and goes on by the
-- result.
pub data Encoding : Type 0 where
  ended : Bool → Encoding
  broken_off : Encoding
  writes : Bytes → (Bool → Encoding) → Encoding

-- The sink, and whether the encoder succeeds; `none` is a panic.
unfoldable pub run_encoding : Write → Encoding → Sink → Sink × Option Bool
unfolding sink_write
run_encoding write (ended ok) s = (s, some ok)
run_encoding write broken_off s = (s, none)
run_encoding write (writes buf next) s =
    let (s', ok) = sink_write write buf s in run_encoding write (next ok) s'

-- The content height and the code, if there was no panic.
abbrev pub report : ℕ → Option ℕ → Option (ℕ × ℕ)
report h none = none
report h (some rc) = some (h, rc)

-- The third-party code behind a renderer.
pub record Engine (single double : Float) : Type 1 where
  pub widen : single.F → double.F
  pub parley : Parley single.F
  pub skia : Skia single.F
  pub skrifa : Skrifa single.F
  -- The `png` encoder for 8-bit RGBA, with the settings of the code.
  pub encode : (width height : ℕ) → Bytes → Encoding

module _ (single double : Float) (engine : Engine single double) where
  open single use {F, lit, gt}
  open engine use {widen, skia, skrifa, parley}
  open skia use {Pixmap, Outline}

  -- What the renderer keeps from call to call.
  abbrev pub GlyphCache : Type 0
  GlyphCache = List (CacheEntry Outline)

  -- What is encoded: the crop, or the whole picture.
  unfoldable pub cropped_view : LpRenderOpts F → (pw ph : ℕ) → Pixmap → Pixmap
  unfolding crop_rect
  cropped_view opts pw ph pixmap =
      if gt opts.clip_w (lit 0 1)
      then elim (skia.cropped (crop_rect single double widen opts pw ph) pixmap) [
        | none ↦ pixmap
        | some c ↦ c
      ]
      else pixmap

  unfoldable pub encode_view : Write → Pixmap → Sink → Sink × Option ℕ
  unfolding run_encoding
  encode_view write view s =
      let (s', result) =
        run_encoding write
          (engine.encode (skia.width view) (skia.height view) (skia.data_bytes view)) s in
      (s', elim result [ none ↦ none | some ok ↦ some (if ok then rc_ok else rc_encode_failed) ])

  -- The crop and its encoding, if the drawing did not panic.
  unfoldable pub encode_drawn :
      LpRenderOpts F → (pw ph : ℕ) → Write → Option Pixmap → Sink → Sink × Option ℕ
  unfolding cropped_view encode_view
  encode_drawn opts pw ph write none s = (s, none)
  encode_drawn opts pw ph write (some pixmap) s =
      encode_view write (cropped_view opts pw ph pixmap) s

  -- `render` behind the layout: the cache, the sink, and the code; `none` is a panic.
  unfoldable pub rasterize :
      LpRenderOpts F
      → (content_h : ℕ) → List (Placed F)
      → Write
      → GlyphCache
      → Sink
      → GlyphCache × Sink × Option ℕ
  unfolding strip_height raster_size draw_all encode_drawn
  rasterize opts content_h placed write cache s =
      let (pw, ph) =
        raster_size single double widen opts (strip_height single double widen opts content_h) in
      elim (skia.new_white pw ph) [
        | none ↦ (cache, s, some rc_no_raster)
        | some pixmap ↦
            let canvas =
              draw_all single skia skrifa opts ph placed
                (record { glyph_cache = cache; pixmap = some pixmap }) in
            let (s', rc) = encode_drawn opts pw ph write canvas.pixmap s in
            (canvas.glyph_cache, s', rc)
      ]

  -- `Renderer::render`: the cache and the sink as they are left, also by a panic, and the content
  -- height and the code; `none` is a panic.
  unfoldable pub render :
      List Block → LpRenderOpts F → Write → GlyphCache → Sink → GlyphCache × Sink × Option (ℕ × ℕ)
  unfolding rasterize content_height
  render blocks opts write cache s =
      elim (layout single parley blocks (single.from opts.width) (lit 16 1) opts.scale) [
        | none ↦ (cache, s, none)
        | some (placed, y) ↦
            let content_h = content_height single double widen y in
            if has_flag opts.flags render_measure_only
            then (cache, s, some (content_h, rc_ok))
            else let (cache', s', rc) = rasterize opts content_h placed write cache s in
              (cache', s', report content_h rc)
      ]

  -- The test at the start, as it is refused.
  unfoldable pub bad_opts : LpRenderOpts F → Bool
  bad_opts opts = opts.width == 0 || not (gt opts.scale (lit 0 1)) || gt opts.scale (lit 8 1)

  -- The cache, the calls of `write`, what is written to `content_height`, and the code.
  pub record Outcome : Type 0 where
    pub cache : GlyphCache
    pub calls : Calls
    pub content_height_out : Option ℕ
    pub code : ℕ

  -- `render_png` behind `render`, under `catch_unwind`: a panic keeps the cache and the calls that
  -- it comes behind, and writes no height.
  unfoldable pub outcome_of : GlyphCache × Sink × Option (ℕ × ℕ) → Outcome
  outcome_of (cache, s, none) = record {
    cache = cache;
    calls = s.calls;
    content_height_out = none;
    code = rc_panic;
  }
  outcome_of (cache, s, some (h, rc)) = record {
    cache = cache;
    calls = s.calls;
    content_height_out = some h;
    code = if s.failed then rc_write_refused else rc;
  }

  -- `lp_render_png` with `render_png`. What stands before `render` does not panic.
  unfoldable pub lp_render_png : List LpBlock → LpRenderOpts F → Write → GlyphCache → Outcome
  unfolding bad_opts render outcome_of
  lp_render_png blocks opts write cache =
      let invalid : Outcome = record {
        cache = cache;
        calls = [];
        content_height_out = none;
        code = rc_invalid;
      } in
      if bad_opts opts then invalid else elim (blocks_from_ffi blocks) [
        | none ↦ invalid
        | some doc ↦ outcome_of (render doc opts write cache fresh_sink)
      ]
