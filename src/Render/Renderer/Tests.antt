-- ===== src/Render/Renderer/Tests.antt =====
-- A renderer with a collection that keeps what was set, and files of one family each.
use lightpanda_browser.Prelude.{
  ℕ, List, [], ◌∷◌, none, some, ◌≡◌, ◌≢◌, ◌⊎◌, inr, refl, ◌==◌, if◌then◌else◌, arith,
}
use lightpanda_browser.Heap.{Heap, null}
use lightpanda_browser.Heap.Laws.{IsHeap}
use lightpanda_browser.Render.Example.{whole, lp_item}
use lightpanda_browser.Render.Png.{Outcome, lp_render_png}
use lightpanda_browser.Render.Png.Example.{engine, opts, by_key-KeysApart, first_alone}
use lightpanda_browser.Render.Png.Fresh.{seen}
use lightpanda_browser.Render.Renderer.{
  GenericFamily, sans_serif, serif, system_ui, cursive, fantasy, monospace, Fontique, FontFiles,
  new_collection, Renderer, new_renderer, lp_render_new, lp_render_free, Request, call_render_png,
}
use lightpanda_browser.Render.Renderer.Fonts.{
  rank, SetsGenerics, IsConfigured, lp_render_new_outcome,
}
use lightpanda_browser.Render.Renderer.Life.{serve, lp_render_png-serve}

-- A family is the address of its file.
abbrev keeping : Fontique
keeping = record {
  Collection = GenericFamily → List ℕ;
  FamilyId = ℕ;
  new = λ shared system_fonts. λ k. [];
  register_fonts = λ file c. some (file ∷ [], c);
  set_generic_families = λ g ids c. λ k. if rank g == rank k then ids else c k;
  generic_families = λ k c. c k;
  SourceCache = ℕ;
  default_cache = 0;
  LayoutContext = ℕ;
  new_context = 0;
}

keeping-SetsGenerics : SetsGenerics keeping
keeping-SetsGenerics = record { sets = λ g k ids c. refl }

abbrev fonts : FontFiles
fonts = record { sans = 10; sans_bold = 11; mono = 12; mono_bold = 13 }

abbrev Drawer : Type 0
Drawer = Renderer keeping whole whole engine

abbrev no_renderers : Heap Drawer
no_renderers = record { next = 1; cell = λ p. none }

no_renderers-IsHeap : IsHeap no_renderers
no_renderers-IsHeap = record { positive = omega arith; null_dead = refl; fresh_dead = λ p le. refl }

-- Serif text is set in the sans family, and code in the mono one.
new_families :
    (new_collection keeping fonts ≡ none)
    ⊎ (c : GenericFamily → List ℕ) × (new_collection keeping fonts ≡ some c)
      × (c serif ≡ 10 ∷ [])
      × (c monospace ≡ 12 ∷ [])
unfolding new_collection
new_families = inr (_, refl, refl, refl)

lp_render_new_outcome_example :
    ((new_collection keeping fonts ≡ none)
      × (lp_render_new keeping whole whole engine fonts no_renderers ≡ (null, no_renderers)))
    ⊎ (r : Drawer) × (p : ℕ) × (g : Heap Drawer) × (lp_render_new keeping whole whole engine fonts
          no_renderers
        ≡ (p, g))
      × (p ≢ null)
      × (g.cell p ≡ some r)
      × IsConfigured keeping fonts r.collection
      × (r.glyph_cache ≡ [])
      × (lp_render_free keeping whole whole engine p g ≡ some (record no_renderers { next = 2 }))
lp_render_new_outcome_example =
    lp_render_new_outcome keeping whole whole engine fonts no_renderers no_renderers-IsHeap
      keeping-SetsGenerics

abbrev request : Request keeping whole whole engine
request = record { blocks = lp_item ∷ []; opts = opts; write = first_alone }

abbrev set : GenericFamily → List ℕ → (GenericFamily → List ℕ) → GenericFamily → List ℕ
set g ids c k = if rank g == rank k then ids else c k

abbrev new_drawer : Drawer
new_drawer = record {
  collection = set monospace (12 ∷ []) (
      set fantasy (10 ∷ []) (
        set cursive (10 ∷ [])
          (set system_ui (10 ∷ []) (set serif (10 ∷ []) (set sans_serif (10 ∷ []) (λ k. []))))));
  source_cache = 0;
  lcx = 0;
  glyph_cache = [];
}

new_drawer_made : new_renderer keeping whole whole engine fonts ≡ some new_drawer
unfolding new_renderer
new_drawer_made = refl

-- After a call with a callback that refuses its second call.
lp_render_png-serve_example :
    let (p, g) = lp_render_new keeping whole whole engine fonts no_renderers in
    (g' : Heap Drawer) × (o : Outcome whole whole engine) × (g'' : Heap Drawer) × (serve keeping
        whole whole engine p
        (request ∷ [])
        g
      ≡ some g')
    × (call_render_png keeping whole whole engine p request g' ≡ some (o, g''))
    × (seen whole whole engine o
        ≡ seen whole whole engine
            (lp_render_png whole whole engine (lp_item ∷ []) opts first_alone []))
    × (lp_render_free keeping whole whole engine p g'' ≡ some (record no_renderers { next = 2 }))
lp_render_png-serve_example =
    lp_render_png-serve keeping whole whole engine fonts no_renderers no_renderers-IsHeap
      by_key-KeysApart new_drawer (request ∷ []) request new_drawer_made
