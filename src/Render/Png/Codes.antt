-- ===== src/Render/Png/Codes.antt =====
-- The codes of `lp_render_png` (src/rust/render/lib.rs), the calls that the callback has seen, and
-- the cache that is left.
use lightpanda_browser.Prelude.{
  ℕ, Bool-cases, List, Option, none, some, Option-cases, inl, inr, ◌⊎◌, ◌≡◌, ◌≢◌, refl, arith,
}
use lightpanda_browser.Render.Float.{Float}
use lightpanda_browser.Render.Blocks.{Block, LpBlock, blocks_from_ffi}
use lightpanda_browser.Render.Export.{Placed}
use lightpanda_browser.Render.Flow.{has_flag, layout}
use lightpanda_browser.Render.Raster.{LpRenderOpts, content_height, strip_height, raster_size}
use lightpanda_browser.Render.Draw.Cache.{KeysApart, IsCache, draw_all-IsCache}
use lightpanda_browser.Render.Png.{
  Write, Sink, Engine, GlyphCache, encode_view, cropped_view, encode_drawn, rasterize, report,
  render, bad_opts, Outcome, outcome_of, lp_render_png, rc_write_refused, rc_panic,
  render_measure_only, fresh_sink, run_encoding,
}
use lightpanda_browser.Render.Png.Writes.{AllAccepted, RefusedLast, IsPolite, run_encoding-IsPolite}

-- Neither the code of a refusal nor that of a panic.
abbrev pub IsOther : ℕ → Type 0
IsOther rc = (rc ≢ rc_write_refused) × (rc ≢ rc_panic)

-- A code that `render` returns, if it does.
abbrev IsReturned : Option ℕ → Type 0
IsReturned none = Unit
IsReturned (some rc) = IsOther rc

abbrev IsReport : Option (ℕ × ℕ) → Type 0
IsReport none = Unit
IsReport (some (h, rc)) = IsOther rc

report-IsReport : (h : ℕ) (code : Option ℕ) → IsReturned code → IsReport (report h code)
report-IsReport h none other = tt
report-IsReport h (some rc) other = other

module _ (single double : Float) (engine : Engine single double) where
  open single use {F}
  open engine use {skia, skrifa, widen}

  -- The sink as the callback left it, and the code.
  abbrev Runs : Sink × Option ℕ → Type 0
  Runs (s, code) = IsPolite s × IsReturned code

  encode_view-Runs :
      (write : Write) (view : skia.Pixmap) (s : Sink)
      → IsPolite s
      → Runs (encode_view single double engine write view s)
  unfolding encode_view
  encode_view-Runs write view s polite =
      let tree = engine.encode (skia.width view) (skia.height view) (skia.data_bytes view) in
      let sent = run_encoding-IsPolite write tree s polite in
      elim (Option-cases (run_encoding write tree s).1) [
        | inl panicked ↦ rw (panicked, encode_view) (sent, tt)
        | inr (ok, ended) ↦
            rw (ended, encode_view)
              (elim (Bool-cases ok) [
                | inl good ↦ rw good (sent, (ground arith, ground arith))
                | inr bad ↦ rw bad (sent, (ground arith, ground arith))
              ])
      ]

  encode_drawn-Runs :
      (opts : LpRenderOpts F) (pw ph : ℕ) (write : Write) (picture : Option skia.Pixmap) (s : Sink)
      → IsPolite s
      → Runs (encode_drawn single double engine opts pw ph write picture s)
  unfolding encode_drawn
  encode_drawn-Runs opts pw ph write none s polite = (polite, tt)
  encode_drawn-Runs opts pw ph write (some pixmap) s polite =
      encode_view-Runs write (cropped_view single double engine opts pw ph pixmap) s polite

  rasterize-Runs :
      (opts : LpRenderOpts F) (content_h : ℕ) (placed : List (Placed F)) (write : Write)
      (cache : GlyphCache single double engine) (s : Sink)
      → IsPolite s
      → Runs (
        (rasterize single double engine opts content_h placed write cache s).1,
        (rasterize single double engine opts content_h placed write cache s).2,
      )
  unfolding rasterize
  rasterize-Runs opts content_h placed write cache s polite =
      let (pw, ph) =
        raster_size single double widen opts (strip_height single double widen opts content_h) in
      elim (Option-cases (skia.new_white pw ph)) [
        | inl no_raster ↦ rw (no_raster, rasterize) (polite, (ground arith, ground arith))
        | inr (pixmap, made) ↦ rw (made, rasterize) (encode_drawn-Runs opts pw ph write _ s polite)
      ]

  rasterize-IsCache :
      (keys : KeysApart skrifa) (opts : LpRenderOpts F) (content_h : ℕ) (placed : List (Placed F))
      (write : Write) (cache : GlyphCache single double engine) (s : Sink)
      → IsCache single skia skrifa cache
      → IsCache single skia skrifa
          (rasterize single double engine opts content_h placed write cache s).0
  unfolding rasterize
  rasterize-IsCache keys opts content_h placed write cache s good =
      let (pw, ph) =
        raster_size single double widen opts (strip_height single double widen opts content_h) in
      elim (Option-cases (skia.new_white pw ph)) [
        | inl no_raster ↦ rw (no_raster, rasterize) good
        | inr (pixmap, made) ↦
            rw (made, rasterize)
              (draw_all-IsCache single skia skrifa keys opts ph placed cache (some pixmap) good).1
      ]

  abbrev Rendered : GlyphCache single double engine × Sink × Option (ℕ × ℕ) → Type 0
  Rendered (cache, s, result) = IsPolite s × IsReport result

  render-Rendered :
      (doc : List Block) (opts : LpRenderOpts F) (write : Write)
      (cache : GlyphCache single double engine)
      → Rendered (render single double engine doc opts write cache fresh_sink)
  unfolding render
  render-Rendered doc opts write cache =
      elim (Option-cases
        (layout single engine.parley doc (single.from opts.width) (single.lit 16 1) opts.scale)) [
          | inl panicked ↦ rw (panicked, render) (inl (refl, tt), tt)
          | inr ((placed, y), flowed) ↦
              let h = content_height single double widen y in
              let runs = rasterize-Runs opts h placed write cache fresh_sink (inl (refl, tt)) in
              elim (Bool-cases (has_flag opts.flags render_measure_only)) [
                | inl measured ↦
                    rw (flowed, measured, render) (inl (refl, tt), (ground arith, ground arith))
                | inr drawn ↦ rw (flowed, drawn, render) (runs.0, report-IsReport h _ runs.1)
              ]
        ]

  render-IsCache :
      (keys : KeysApart skrifa) (doc : List Block) (opts : LpRenderOpts F) (write : Write)
      (cache : GlyphCache single double engine)
      → IsCache single skia skrifa cache
      → IsCache single skia skrifa (render single double engine doc opts write cache fresh_sink).0
  unfolding render
  render-IsCache keys doc opts write cache good =
      elim (Option-cases
        (layout single engine.parley doc (single.from opts.width) (single.lit 16 1) opts.scale)) [
          | inl panicked ↦ rw (panicked, render) good
          | inr ((placed, y), flowed) ↦
              let h = content_height single double widen y in
              elim (Bool-cases (has_flag opts.flags render_measure_only)) [
                | inl measured ↦ rw (flowed, measured, render) good
                | inr drawn ↦
                    rw (flowed, drawn, render)
                      (rasterize-IsCache keys opts h placed write cache fresh_sink good)
              ]
        ]

  -- The code of an outcome against the calls: a refusal if a call was refused, unless a panic came
  -- behind it.
  abbrev pub CodeAgrees : Outcome single double engine → Type 0
  CodeAgrees o =
      ((o.code ≡ rc_write_refused) × RefusedLast o.calls)
      ⊎ ((o.code ≡ rc_panic)
          × (o.content_height_out ≡ none)
          × (AllAccepted o.calls ⊎ RefusedLast o.calls))
      ⊎ (IsOther o.code × AllAccepted o.calls)

  outcome_of-CodeAgrees :
      (cache : GlyphCache single double engine) (s : Sink) (result : Option (ℕ × ℕ))
      → IsPolite s
      → IsReport result
      → CodeAgrees (outcome_of single double engine (cache, s, result))
  unfolding outcome_of
  outcome_of-CodeAgrees cache s none (inl (fine, all)) other = inr (inl (refl, refl, inl all))
  outcome_of-CodeAgrees cache s none (inr (failed, refused)) other =
      inr (inl (refl, refl, inr refused))
  outcome_of-CodeAgrees cache s (some (h, rc)) (inl (fine, all)) other =
      inr (inr (rw fine other, all))
  outcome_of-CodeAgrees cache s (some (h, rc)) (inr (failed, refused)) other =
      inl (rw failed refl, refused)

  outcome_of-cache :
      (r : GlyphCache single double engine × Sink × Option (ℕ × ℕ))
      → (outcome_of single double engine r).cache ≡ r.0
  unfolding outcome_of
  outcome_of-cache (cache, s, none) = refl
  outcome_of-cache (cache, s, some (h, rc)) = refl

  -- `lp_render_png` returns RC_WRITE_REFUSED only if `write` refused a call, and then that call is
  -- the last one and the only one that was refused. It returns RC_PANIC only with no height
  -- reported, behind calls that were all accepted or of which the last one alone was refused. With
  -- any other code every call was accepted.
  pub lp_render_png-CodeAgrees :
      (blocks : List LpBlock) (opts : LpRenderOpts F) (write : Write)
      (cache : GlyphCache single double engine)
      → CodeAgrees (lp_render_png single double engine blocks opts write cache)
  unfolding lp_render_png
  lp_render_png-CodeAgrees blocks opts write cache =
      let refused : IsOther 2 = (ground arith, ground arith) in
      elim (Bool-cases (bad_opts single double engine opts)) [
        | inl bad ↦ rw (bad, lp_render_png) (inr (inr (refused, tt)))
        | inr fine ↦ elim (Option-cases (blocks_from_ffi blocks)) [
          | inl not_text ↦ rw (fine, not_text, lp_render_png) (inr (inr (refused, tt)))
          | inr (doc, accepted) ↦
              let done = render-Rendered doc opts write cache in
              rw (fine, accepted, lp_render_png) (outcome_of-CodeAgrees _ _ _ done.0 done.1)
        ]
      ]

  -- Whatever the code, a cache of outlines stays one, if faces with one key have the same glyphs.
  pub lp_render_png-IsCache :
      (keys : KeysApart skrifa) (blocks : List LpBlock) (opts : LpRenderOpts F) (write : Write)
      (cache : GlyphCache single double engine)
      → IsCache single skia skrifa cache
      → IsCache single skia skrifa
          (lp_render_png single double engine blocks opts write cache).cache
  unfolding lp_render_png
  lp_render_png-IsCache keys blocks opts write cache good =
      elim (Bool-cases (bad_opts single double engine opts)) [
        | inl bad ↦ rw (bad, lp_render_png) good
        | inr fine ↦ elim (Option-cases (blocks_from_ffi blocks)) [
          | inl not_text ↦ rw (fine, not_text, lp_render_png) good
          | inr (doc, accepted) ↦
              rw (fine, accepted, lp_render_png)
                (rw (outcome_of-cache (render single double engine doc opts write cache fresh_sink))
                  (render-IsCache keys doc opts write cache good))
        ]
      ]
