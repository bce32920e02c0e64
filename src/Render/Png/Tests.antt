-- ===== src/Render/Png/Tests.antt =====
-- A PNG of one block.
use lightpanda_browser.Prelude.{ℕ, ◌+◌, refl, true, is_empty, [], ◌∷◌, some, List, ◌≡◌}
use lightpanda_browser.Render.Draw.{CacheEntry, key_of, outline_of, draw_placed, draw_all}
use lightpanda_browser.Prelude.Utf8.{is_utf8}
use lightpanda_browser.Render.Blocks.{blocks_from_ffi}
use lightpanda_browser.Render.Flow.{layout, layout_blocks}
use lightpanda_browser.Render.Draw.Cache.{
  IsCache, nothing-IsCache, pushed-IsCache, draw_all-IsCache,
}
use lightpanda_browser.Render.Png.{Engine, writes, broken_off, lp_render_png}
use lightpanda_browser.Render.Png.Codes.{CodeAgrees, lp_render_png-CodeAgrees}
use lightpanda_browser.Render.Png.Example.{
  counting, by_key, by_key-KeysApart, opts, engine, first_alone,
}
use lightpanda_browser.Render.Example.{whole, placed, face, lp_item}

abbrev one_glyph : List (CacheEntry ℕ)
one_glyph = record { font_key = key_of face; glyph_id = 36; path = some (key_of face + 36) } ∷ []

one_glyph-IsCache : IsCache whole counting by_key one_glyph
unfolding outline_of key_of
one_glyph-IsCache =
    pushed-IsCache whole counting by_key by_key-KeysApart face 36 (some (key_of face + 36)) [] refl
      (nothing-IsCache whole counting by_key)

draw_all-IsCache_test :
    ((draw_all whole counting by_key opts 50 placed
        (record { glyph_cache = one_glyph; pixmap = some 0 })).pixmap
      ≡ (draw_all whole counting by_key opts 50 placed
          (record { glyph_cache = []; pixmap = some 0 })).pixmap)
    × IsCache whole counting by_key
        (draw_all whole counting by_key opts 50 placed
          (record { glyph_cache = one_glyph; pixmap = some 0 })).glyph_cache
draw_all-IsCache_test =
    draw_all-IsCache whole counting by_key by_key-KeysApart opts 50 placed one_glyph (some 0)
      one_glyph-IsCache

lp_render_png-CodeAgrees_example :
    CodeAgrees whole whole engine
      (lp_render_png whole whole engine (lp_item ∷ []) opts first_alone [])
lp_render_png-CodeAgrees_example =
    lp_render_png-CodeAgrees whole whole engine (lp_item ∷ []) opts first_alone []

-- An encoder that panics behind its first write.
abbrev breaking : Engine whole whole
breaking = record engine {
  encode = λ width height bytes. writes (137 ∷ 80 ∷ []) (λ ok. broken_off);
}

panic_keeps_calls :
    (lp_render_png whole whole breaking (lp_item ∷ []) opts first_alone []).calls
    ≡ (137 ∷ 80 ∷ [], true) ∷ []
unfolding lp_render_png is_utf8 blocks_from_ffi layout layout_blocks is_empty draw_placed
panic_keeps_calls = refl
