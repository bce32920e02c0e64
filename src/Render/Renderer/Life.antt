-- ===== src/Render/Renderer/Life.antt =====
-- The life of a renderer (src/rust/render/lib.rs): made, called any number of times, and freed.
use lightpanda_browser.Prelude.{
  ℕ, ◌+◌, List, [], ◌∷◌, Option, none, some, ◌≡◌, refl, sym, ◌∙◌, arith,
}
use lightpanda_browser.Heap.{Heap, into_raw}
use lightpanda_browser.Heap.Laws.{IsHeap, drop_raw-into_raw, deref_mut-into_raw}
use lightpanda_browser.Render.Float.{Float}
use lightpanda_browser.Render.Draw.Cache.{KeysApart, IsCache, nothing-IsCache}
use lightpanda_browser.Render.Png.{Engine, Outcome, lp_render_png}
use lightpanda_browser.Render.Png.Codes.{lp_render_png-IsCache}
use lightpanda_browser.Render.Png.Fresh.{seen, lp_render_png-fresh}
use lightpanda_browser.Render.Renderer.{
  Fontique, FontFiles, new_collection, Renderer, new_renderer, lp_render_new, lp_render_free,
  Request, render_with, call_render_png,
}
use lightpanda_browser.Render.Renderer.Fonts.{>>=-some}

module _ (fontique : Fontique) (single double : Float) (engine : Engine single double) where
  -- The requests in turn; `none` is a dead pointer.
  unfoldable pub serve :
      ℕ
      → List (Request fontique single double engine)
      → Heap (Renderer fontique single double engine)
      → Option (Heap (Renderer fontique single double engine))
  serve p [] g = some g
  serve p (q ∷ qs) g = elim (call_render_png fontique single double engine p q g) [
    | none ↦ none
    | some (o, g') ↦ serve p qs g'
  ]

  module _ (fonts : FontFiles) (h : Heap (Renderer fontique single double engine)) (heap : IsHeap h)
      (keys : KeysApart engine.skrifa) where
    abbrev IsSound : Renderer fontique single double engine → Type 0
    IsSound r = IsCache single engine.skia engine.skrifa r.glyph_cache

    abbrev after :
        Request fontique single double engine
        → Renderer fontique single double engine
        → Renderer fontique single double engine
    after q r = (render_with fontique single double engine q r).0

    after-IsSound :
        (q : Request fontique single double engine) (r : Renderer fontique single double engine)
        → IsSound r
        → IsSound (after q r)
    unfolding render_with
    after-IsSound q r sound =
        lp_render_png-IsCache single double engine keys q.blocks q.opts q.write r.glyph_cache sound

    call_lem :
        (q : Request fontique single double engine) (r : Renderer fontique single double engine)
        → call_render_png fontique single double engine (into_raw r h).0 q (into_raw r h).1
          ≡ some ((render_with fontique single double engine q r).1, (into_raw (after q r) h).1)
    unfolding call_render_png
    call_lem q r = deref_mut-into_raw h (render_with fontique single double engine q) r

    serve-IsSound :
        (qs : List (Request fontique single double engine))
        (r : Renderer fontique single double engine)
        → IsSound r
        → (r' : Renderer fontique single double engine) × (serve
              (into_raw r h).0
              qs
              (into_raw r h).1
            ≡ some (into_raw r' h).1)
          × IsSound r'
    unfolding serve into_raw
    serve-IsSound [] r sound = (r, refl, sound)
    serve-IsSound (q ∷ qs) r sound =
        let (last, served, still) = serve-IsSound qs (after q r) (after-IsSound q r sound) in
        (last, rw (call_lem q r, serve) served, still)

    new_lem :
        (r : Renderer fontique single double engine)
        → new_renderer fontique single double engine fonts ≡ some r
        → lp_render_new fontique single double engine fonts h ≡ into_raw r h
    unfolding lp_render_new
    new_lem r made = rw (made, lp_render_new) refl

    new-IsSound :
        (r : Renderer fontique single double engine)
        → new_renderer fontique single double engine fonts ≡ some r
        → IsSound r
    unfolding new_renderer
    new-IsSound r made =
        let (c, set, same) = >>=-some (new_collection fontique fonts) _ made in
        let e : r.glyph_cache ≡ [] = ground (arith, same) in
        rw e (nothing-IsCache single engine.skia engine.skrifa)

    -- With sound caches, the cache does not show.
    same_seen :
        (q : Request fontique single double engine)
        (r last : Renderer fontique single double engine)
        → IsSound r
        → IsSound last
        → seen single double engine (render_with fontique single double engine q last).1
          ≡ seen single double engine
              (lp_render_png single double engine q.blocks q.opts q.write r.glyph_cache)
    unfolding render_with
    same_seen q r last sound still =
        lp_render_png-fresh single double engine keys last.glyph_cache still q.blocks q.opts q.write
        ∙ sym (
            lp_render_png-fresh single double engine keys r.glyph_cache sound q.blocks q.opts
              q.write)

    -- If the heap is well formed, and faces whose data pointer and index have one exclusive or draw
    -- the same glyphs, a renderer that was made with no panic serves any number of calls, whatever
    -- they ask for, however their callbacks answer, and after calls that panicked too. The next
    -- call sends the bytes, reports the height and returns the code that the same call on a new
    -- renderer does, and freeing the renderer then leaves the heap as it was before, but for the
    -- address.
    pub lp_render_png-serve :
        (r : Renderer fontique single double engine)
        (earlier : List (Request fontique single double engine))
        (q : Request fontique single double engine)
        → new_renderer fontique single double engine fonts ≡ some r
        → let (p, g) = lp_render_new fontique single double engine fonts h in
          (g' : Heap (Renderer fontique single double engine)) × (o : Outcome single double engine)
          × (g'' : Heap (Renderer fontique single double engine)) × (serve p earlier g ≡ some g')
          × (call_render_png fontique single double engine p q g' ≡ some (o, g''))
          × (seen single double engine o
              ≡ seen single double engine
                  (lp_render_png single double engine q.blocks q.opts q.write r.glyph_cache))
          × (lp_render_free fontique single double engine p g''
              ≡ some (record h { next = h.next + 1 }))
    unfolding lp_render_free into_raw
    lp_render_png-serve r earlier q made =
        let sound = new-IsSound r made in
        let (last, served, still) = serve-IsSound earlier r sound in
        rw (new_lem r made) (
          (into_raw last h).1,
          (render_with fontique single double engine q last).1,
          (into_raw (after q last) h).1,
          served,
          call_lem q last,
          same_seen q r last sound still,
          drop_raw-into_raw h (after q last) heap,
        )
