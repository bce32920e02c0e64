-- ===== src/Render/Renderer.antt =====
-- The renderer's handle of src/rust/render/lib.rs: `Renderer::new`, `lp_render_new`,
-- `lp_render_free`, and `lp_render_png` through the raw pointer. The fonts are registered with
-- `fontique`, the record `Fontique`; `none` is a panic there.
pub mod Fonts
pub mod Life
mod Tests
use lightpanda_browser.Prelude.{ℕ, Bool, false, List, [], ◌∷◌, Option, none, some}
use lightpanda_browser.Heap.{Heap, null, into_raw, drop_raw, deref_mut}
use lightpanda_browser.Render.Float.{Float}
use lightpanda_browser.Render.Blocks.{LpBlock}
use lightpanda_browser.Render.Raster.{LpRenderOpts}
use lightpanda_browser.Render.Png.{Write, Engine, GlyphCache, Outcome, lp_render_png}

-- `GenericFamily`, in the families that are set.
pub data GenericFamily : Type 0 where
  sans_serif serif system_ui cursive fantasy monospace : GenericFamily

pub record Fontique : Type 1 where
  pub Collection : Type 0
  pub FamilyId : Type 0
  -- `Collection::new`, with the two options.
  pub new : (shared system_fonts : Bool) → Collection
  -- `register_fonts`, of the file at an address: the families that it has.
  pub register_fonts : (data_ptr : ℕ) → Collection → Option (List FamilyId × Collection)
  pub set_generic_families : GenericFamily → List FamilyId → Collection → Collection
  pub generic_families : GenericFamily → Collection → List FamilyId
  -- `SourceCache::default` and `parley`'s `LayoutContext::new`.
  pub SourceCache : Type 0
  pub default_cache : SourceCache
  pub LayoutContext : Type 0
  pub new_context : LayoutContext

-- `FONTS`, by the addresses of the files.
pub record FontFiles : Type 0 where
  pub sans : ℕ
  pub sans_bold : ℕ
  pub mono : ℕ
  pub mono_bold : ℕ

-- A step that may panic.
infixl 5 ◌>>=◌
abbrev pub ◌>>=◌ : {A B : Type 0} → Option A → (A → Option B) → Option B
none >>= f = none
some a >>= f = f a

module _ (fontique : Fontique) where
  open fontique use {Collection, FamilyId}

  -- `fams[0].0`: with no family, the index panics.
  unfoldable pub first_family : List FamilyId × Collection → Option (FamilyId × Collection)
  first_family ([], c) = none
  first_family (id ∷ ids, c) = some (id, c)

  -- `Renderer::register`.
  unfoldable pub register : ℕ → Collection → Option (FamilyId × Collection)
  unfolding first_family
  register file c = fontique.register_fonts file c >>= first_family

  -- The loop over generic families.
  unfoldable pub set_generics : List GenericFamily → FamilyId → Collection → Collection
  set_generics [] id c = c
  set_generics (generic ∷ generics) id c =
      set_generics generics id (fontique.set_generic_families generic (id ∷ []) c)

  unfoldable pub new_collection : FontFiles → Option Collection
  unfolding register set_generics
  new_collection fonts = do
    (sans, c) ← register fonts.sans (fontique.new false false)
    (_, c) ← register fonts.sans_bold c
    (mono, c) ← register fonts.mono c
    (_, c) ← register fonts.mono_bold c
    let c = set_generics (sans_serif ∷ serif ∷ system_ui ∷ cursive ∷ fantasy ∷ []) sans c
    some (fontique.set_generic_families monospace (mono ∷ []) c)

module _ (fontique : Fontique) (single double : Float) (engine : Engine single double) where
  open fontique use {Collection, SourceCache, LayoutContext}

  pub record Renderer : Type 0 where
    pub collection : Collection
    pub source_cache : SourceCache
    pub lcx : LayoutContext
    pub glyph_cache : GlyphCache single double engine

  unfoldable pub new_renderer : FontFiles → Option Renderer
  unfolding new_collection
  new_renderer fonts = new_collection fontique fonts >>= λ (c : Collection). some (record {
    collection = c;
    source_cache = fontique.default_cache;
    lcx = fontique.new_context;
    glyph_cache = [];
  })

  unfoldable pub lp_render_new : FontFiles → Heap Renderer → ℕ × Heap Renderer
  unfolding new_renderer
  lp_render_new fonts h = elim (new_renderer fonts) [ none ↦ (null, h) | some r ↦ into_raw r h ]

  unfoldable pub lp_render_free : ℕ → Heap Renderer → Option (Heap Renderer)
  lp_render_free p h = drop_raw p h

  -- The arguments of a call behind the pointer.
  pub record Request : Type 0 where
    pub blocks : List LpBlock
    pub opts : LpRenderOpts single.F
    pub write : Write

  -- `&mut *r`, of which the cache is what a rendering changes.
  unfoldable pub render_with : Request → Renderer → Renderer × Outcome single double engine
  render_with q r =
      let o = lp_render_png single double engine q.blocks q.opts q.write r.glyph_cache in
      (record r { glyph_cache = o.cache }, o)

  unfoldable pub call_render_png :
      ℕ → Request → Heap Renderer → Option (Outcome single double engine × Heap Renderer)
  unfolding render_with
  call_render_png p q h = deref_mut (render_with q) p h
