-- ===== src/Render/Png/Fresh.antt =====
-- What a call of `lp_render_png` (src/rust/render/lib.rs) sends does not depend on the cache.
use lightpanda_browser.Prelude.{
  ℕ, Bool-cases, if◌then◌else◌, List, [], Option, none, some, Option-cases, inl, inr, ◌≡◌, refl, ap,
  sym, ◌∙◌,
}
use lightpanda_browser.Render.Float.{Float}
use lightpanda_browser.Render.Blocks.{Block, LpBlock, blocks_from_ffi}
use lightpanda_browser.Render.Export.{Placed}
use lightpanda_browser.Render.Flow.{has_flag, layout}
use lightpanda_browser.Render.Raster.{LpRenderOpts, content_height, strip_height, raster_size}
use lightpanda_browser.Render.Draw.Cache.{KeysApart, IsCache, draw_all-IsCache}
use lightpanda_browser.Render.Png.{
  Calls, Write, Sink, fresh_sink, Engine, GlyphCache, encode_drawn, rasterize, report, render,
  bad_opts, Outcome, outcome_of, lp_render_png, render_measure_only, rc_panic, rc_write_refused,
}

module _ (single double : Float) (engine : Engine single double) where
  open single use {F}
  open engine use {skia, skrifa, widen}

  -- What the caller sees of a call: the bytes it was sent, the height, and the code.
  abbrev pub seen : Outcome single double engine → Calls × Option ℕ × ℕ
  seen o = (o.calls, o.content_height_out, o.code)

  module _ (keys : KeysApart skrifa) (cache : GlyphCache single double engine)
      (good : IsCache single skia skrifa cache) where
    rasterize-fresh :
        (opts : LpRenderOpts F) (content_h : ℕ) (placed : List (Placed F)) (write : Write)
        (s : Sink)
        → let with = rasterize single double engine opts content_h placed write cache s in
          let without = rasterize single double engine opts content_h placed write [] s in
          (with.1 ≡ without.1) × (with.2 ≡ without.2)
    unfolding rasterize
    rasterize-fresh opts content_h placed write s =
        let (pw, ph) =
          raster_size single double widen opts (strip_height single double widen opts content_h) in
        elim (Option-cases (skia.new_white pw ph)) [
          | inl no_raster ↦ rw (no_raster, rasterize) (refl, refl)
          | inr (pixmap, made) ↦
              let same =
                (draw_all-IsCache single skia skrifa keys opts ph placed cache (some pixmap)
                  good).0 in
              let encoded = λ (p : Option skia.Pixmap).
                encode_drawn single double engine opts pw ph write p s in
              rw (made, rasterize) (ap (λ p. (encoded p).0) same, ap (λ p. (encoded p).1) same)
        ]

    -- The sink, the height and the code of a rendering.
    abbrev behind : GlyphCache single double engine × Sink × Option (ℕ × ℕ) → Sink × Option (ℕ × ℕ)
    behind (c, s, result) = (s, result)

    render-fresh :
        (doc : List Block) (opts : LpRenderOpts F) (write : Write) (s : Sink)
        → behind (render single double engine doc opts write cache s)
          ≡ behind (render single double engine doc opts write [] s)
    unfolding render
    render-fresh doc opts write s =
        elim (Option-cases
          (layout single engine.parley doc (single.from opts.width) (single.lit 16 1) opts.scale)) [
            | inl panicked ↦ rw (panicked, render) refl
            | inr ((placed, y), flowed) ↦
                elim (Bool-cases (has_flag opts.flags render_measure_only)) [
                  | inl measured ↦ rw (flowed, measured, render) refl
                  | inr drawn ↦
                      let h = content_height single double widen y in
                      let same = rasterize-fresh opts h placed write s in
                      rw (flowed, drawn, render) (λ i. (same.0 i, report h (same.1 i)))
                ]
          ]

    -- What is seen of a rendering.
    abbrev reported : Sink × Option (ℕ × ℕ) → Calls × Option ℕ × ℕ
    reported (s, none) = (s.calls, none, rc_panic)
    reported (s, some (h, rc)) = (s.calls, some h, if s.failed then rc_write_refused else rc)

    outcome_of-reported :
        (r : GlyphCache single double engine × Sink × Option (ℕ × ℕ))
        → seen (outcome_of single double engine r) ≡ reported (behind r)
    unfolding outcome_of
    outcome_of-reported (c, s, none) = refl
    outcome_of-reported (c, s, some (h, rc)) = refl

    -- A call with a cache of outlines sends the bytes, reports the height and returns the code
    -- that the same call does with an empty cache.
    pub lp_render_png-fresh :
        (blocks : List LpBlock) (opts : LpRenderOpts F) (write : Write)
        → seen (lp_render_png single double engine blocks opts write cache)
          ≡ seen (lp_render_png single double engine blocks opts write [])
    unfolding lp_render_png
    lp_render_png-fresh blocks opts write = elim (Bool-cases (bad_opts single double engine opts)) [
      | inl bad ↦ rw (bad, lp_render_png) refl
      | inr fine ↦ elim (Option-cases (blocks_from_ffi blocks)) [
        | inl not_text ↦ rw (fine, not_text, lp_render_png) refl
        | inr (doc, accepted) ↦
            rw (fine, accepted, lp_render_png)
              (outcome_of-reported (render single double engine doc opts write cache fresh_sink)
                ∙ ap reported (render-fresh doc opts write fresh_sink)
                ∙ sym (
                    outcome_of-reported (render single double engine doc opts write [] fresh_sink)))
      ]
    ]
