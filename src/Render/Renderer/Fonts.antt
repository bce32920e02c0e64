-- ===== src/Render/Renderer/Fonts.antt =====
-- The fonts of a new renderer (src/rust/render/lib.rs).
use lightpanda_browser.Prelude.{
  ℕ, ◌+◌, List, [], ◌∷◌, Option, none, some, Option-cases, inl, inr, ◌⊎◌, ◌≡◌, ◌≢◌, refl, ap, ◌∙◌,
  subst, sym, arith, ◌==◌, false, if◌then◌else◌,
}
use lightpanda_browser.Heap.{Heap, null}
use lightpanda_browser.Heap.Laws.{IsHeap, into_raw-ne-null, cell-into_raw, drop_raw-into_raw}
use lightpanda_browser.Render.Float.{Float}
use lightpanda_browser.Render.Png.{Engine}
use lightpanda_browser.Render.Renderer.{
  GenericFamily, sans_serif, serif, system_ui, cursive, fantasy, monospace, Fontique, FontFiles,
  first_family, register, set_generics, new_collection, Renderer, new_renderer, lp_render_new,
  lp_render_free, ◌>>=◌,
}

abbrev pub rank : GenericFamily → ℕ
rank sans_serif = 0
rank serif = 1
rank system_ui = 2
rank cursive = 3
rank fantasy = 4
rank monospace = 5

-- What `fontique` documents: setting the families of a generic one replaces them, and those alone.
pub record SetsGenerics (fontique : Fontique) : Type 0 where
  pub sets :
      (g k : GenericFamily) (ids : List fontique.FamilyId) (c : fontique.Collection)
      → fontique.generic_families k (fontique.set_generic_families g ids c)
        ≡ (if rank g == rank k then ids else fontique.generic_families k c)

-- The collections that setting generic families alone leads to.
pub data OnlyGenericsSet (fontique : Fontique) (start : fontique.Collection)
    : fontique.Collection → Type 0 where
  here : OnlyGenericsSet fontique start start
  set :
      (g : GenericFamily) (ids : List fontique.FamilyId) {c : fontique.Collection}
      → OnlyGenericsSet fontique start c
      → OnlyGenericsSet fontique start (fontique.set_generic_families g ids c)

-- The four files are registered, each with what the one before left, in a collection that starts
-- empty, and only generic families are set behind that. Every one of them is set: to that of the sans file for all but the monospace one, which is
-- set to that of the mono file.
pub record IsConfigured (fontique : Fontique) (fonts : FontFiles) (c : fontique.Collection)
    : Type 0 where
  pub sans : fontique.FamilyId
  pub mono : fontique.FamilyId
  pub after_sans : fontique.Collection
  pub after_sans_bold : fontique.Collection
  pub after_mono : fontique.Collection
  pub after_mono_bold : fontique.Collection
  pub sans_registered :
      (ids : List fontique.FamilyId) × (fontique.register_fonts fonts.sans
          (fontique.new false false)
        ≡ some (sans ∷ ids, after_sans))
  pub sans_bold_registered :
      (ids : List fontique.FamilyId) × (fontique.register_fonts fonts.sans_bold after_sans
        ≡ some (ids, after_sans_bold))
  pub mono_registered :
      (ids : List fontique.FamilyId) × (fontique.register_fonts fonts.mono after_sans_bold
        ≡ some (mono ∷ ids, after_mono))
  pub mono_bold_registered :
      (ids : List fontique.FamilyId) × (fontique.register_fonts fonts.mono_bold after_mono
        ≡ some (ids, after_mono_bold))
  pub only_generics : OnlyGenericsSet fontique after_mono_bold c
  pub sans_serif : fontique.generic_families sans_serif c ≡ sans ∷ []
  pub serif : fontique.generic_families serif c ≡ sans ∷ []
  pub system_ui : fontique.generic_families system_ui c ≡ sans ∷ []
  pub cursive : fontique.generic_families cursive c ≡ sans ∷ []
  pub fantasy : fontique.generic_families fantasy c ≡ sans ∷ []
  pub monospace : fontique.generic_families monospace c ≡ mono ∷ []

-- Inversion of a step that did not panic.
pub >>=-some :
    {A B : Type 0} (m : Option A) (f : A → Option B) {b : B}
    → (m >>= f) ≡ some b
    → (a : A) × (m ≡ some a) × (f a ≡ some b)
>>=-some none f e = absurd (ground (arith, e))
>>=-some (some a) f e = (a, refl, e)

module _ (fontique : Fontique) (laws : SetsGenerics fontique) where
  open fontique use {Collection, FamilyId}

  first_family_lem :
      (r : List FamilyId × Collection) {id : FamilyId} {d : Collection}
      → first_family fontique r ≡ some (id, d)
      → (ids : List FamilyId) × (r ≡ (id ∷ ids, d))
  unfolding first_family
  first_family_lem ([], c) e = absurd (ground (arith, e))
  first_family_lem (i ∷ ids, c) e = (ids, ground (arith, e))

  register_lem :
      (file : ℕ) (c : Collection) {id : FamilyId} {d : Collection}
      → register fontique file c ≡ some (id, d)
      → (ids : List FamilyId) × (fontique.register_fonts file c ≡ some (id ∷ ids, d))
  unfolding register
  register_lem file c e =
      let (r, registered, first) = >>=-some (fontique.register_fonts file c) _ e in
      let (ids, same) = first_family_lem r first in (ids, registered ∙ ap some same)

  new_collection-IsConfigured :
      (fonts : FontFiles) {c : Collection}
      → new_collection fontique fonts ≡ some c
      → IsConfigured fontique fonts c
  unfolding new_collection set_generics
  new_collection-IsConfigured fonts {c} e =
      let ((sans, c1), one, e1) =
        >>=-some (register fontique fonts.sans (fontique.new false false)) _ e in
      let ((bold, c2), two, e2) = >>=-some (register fontique fonts.sans_bold c1) _ e1 in
      let ((mono, c3), three, e3) = >>=-some (register fontique fonts.mono c2) _ e2 in
      let ((mono_bold, c4), four, e4) = >>=-some (register fontique fonts.mono_bold c3) _ e3 in
      let (sans_ids, sans_at) = register_lem fonts.sans (fontique.new false false) one in
      let (bold_ids, bold_at) = register_lem fonts.sans_bold c1 two in
      let (mono_ids, mono_at) = register_lem fonts.mono c2 three in
      let (mono_bold_ids, mono_bold_at) = register_lem fonts.mono_bold c3 four in
      let with_sans =
        set_generics fontique (sans_serif ∷ serif ∷ system_ui ∷ cursive ∷ fantasy ∷ []) sans c4 in
      let same : c ≡ fontique.set_generic_families monospace (mono ∷ []) with_sans =
        ground (arith, e4) in
      record {
        sans = sans;
        mono = mono;
        after_sans = c1;
        after_sans_bold = c2;
        after_mono = c3;
        after_mono_bold = c4;
        sans_registered = (sans_ids, sans_at);
        sans_bold_registered = (bold ∷ bold_ids, bold_at);
        mono_registered = (mono_ids, mono_at);
        mono_bold_registered = (mono_bold ∷ mono_bold_ids, mono_bold_at);
        only_generics = subst (OnlyGenericsSet fontique c4) (sym same) (
            set monospace _ (
              set fantasy _
                (set cursive _ (set system_ui _ (set serif _ (set sans_serif _ here))))));
        sans_serif = ap (fontique.generic_families sans_serif) same ∙ simp laws.sets;
        serif = ap (fontique.generic_families serif) same ∙ simp laws.sets;
        system_ui = ap (fontique.generic_families system_ui) same ∙ simp laws.sets;
        cursive = ap (fontique.generic_families cursive) same ∙ simp laws.sets;
        fantasy = ap (fontique.generic_families fantasy) same ∙ simp laws.sets;
        monospace = ap (fontique.generic_families monospace) same ∙ simp laws.sets;
      }

module _ (fontique : Fontique) (single double : Float) (engine : Engine single double)
    (fonts : FontFiles) (h : Heap (Renderer fontique single double engine)) (heap : IsHeap h) where
  -- A new renderer is null, and then setting up its fonts has panicked and the heap is untouched,
  -- or it is live: the four font files, bold ones included, are registered one after the other, and
  -- every generic family is set, to that of the sans file for all but the monospace one, which is
  -- set to that of the mono file. Its cache is empty, and freeing it leaves the heap as it was, but
  -- for the address. The conditions are that the heap is well formed, and that setting a generic
  -- family of a collection sets that one and no other.
  pub lp_render_new_outcome :
      SetsGenerics fontique
      → ((new_collection fontique fonts ≡ none)
          × (lp_render_new fontique single double engine fonts h ≡ (null, h)))
        ⊎ (r : Renderer fontique single double engine) × (p : ℕ) × (g : Heap
            (Renderer fontique single double engine))
          × (lp_render_new fontique single double engine fonts h ≡ (p, g))
          × (p ≢ null)
          × (g.cell p ≡ some r)
          × IsConfigured fontique fonts r.collection
          × (r.glyph_cache ≡ [])
          × (lp_render_free fontique single double engine p g
              ≡ some (record h { next = h.next + 1 }))
  unfolding lp_render_new new_renderer lp_render_free
  lp_render_new_outcome laws = elim (Option-cases (new_collection fontique fonts)) [
    | inl panicked ↦ inl (panicked, rw (panicked, lp_render_new, new_renderer) refl)
    | inr (c, made) ↦
        let r : Renderer fontique single double engine = record {
          collection = c;
          source_cache = fontique.default_cache;
          lcx = fontique.new_context;
          glyph_cache = [];
        } in
        inr (
          r,
          _,
          _,
          rw (made, lp_render_new, new_renderer) refl,
          into_raw-ne-null h r heap,
          cell-into_raw h r,
          new_collection-IsConfigured fontique laws fonts made,
          refl,
          drop_raw-into_raw h r heap,
        )
  ]
