-- ===== src/Render/SelfDescription/Tests.antt =====
-- The table of src/rust/render/lib.rs, at some of its structs.
use Prim.Native.String.{String}
use lightpanda_browser.Prelude.{List, [], ◌∷◌, some, ◌≡◌, refl, ◌↔◌, length}
use lightpanda_browser.Prelude.Slices.{slice}
use lightpanda_browser.Render.CLayout.{Repr, size_of, align_of, locate}
use lightpanda_browser.Render.CLayout.Laws.{IsField}
use lightpanda_browser.Render.CLayout.Image.{Value, shape, value_of, image}
use lightpanda_browser.Render.SelfDescription.Structs.{bits32, bits64, run, lblock, font, struct_of}
use lightpanda_browser.Render.SelfDescription.Names.{lp_abi_names, all_u32}
use lightpanda_browser.Render.SelfDescription.Table.{lp_render_abi, entry}
use lightpanda_browser.Render.SelfDescription.Laws.{lp_render_abi-locate, struct_of-IsField}
use lightpanda_browser.Render.SelfDescription.Mirror.{lp_render_abi-read, lp_render_abi-size}

abbrev decoration_repr : Repr
decoration_repr = record { size = 16; align = 4 }

strike_at : locate "strike" (struct_of bits64 run) ≡ some (52, decoration_repr)
unfolding locate struct_of
strike_at = refl

-- The pointers of a face are four bytes wide on a 32-bit machine.
narrow_font : size_of (struct_of bits32 font) ≡ 24
unfolding size_of struct_of
narrow_font = refl

wide_span : entry "span_href_len" (lp_render_abi bits64) ≡ some 32
unfolding entry lp_render_abi
wide_span = refl

table_size : entry "size" (lp_render_abi bits64) ≡ some 520
unfolding entry lp_render_abi
table_size = refl

lp_render_abi-locate_example :
    (entry "run_sizeof" (lp_render_abi bits64) ≡ some (size_of (struct_of bits64 run)))
    × (entry "run_alignof" (lp_render_abi bits64) ≡ some (align_of (struct_of bits64 run)))
    × (entry "run_strike" (lp_render_abi bits64) ≡ some 52)
lp_render_abi-locate_example = lp_render_abi-locate bits64 run "strike" strike_at

struct_of-IsField_test : IsField (struct_of bits64 run) 52 decoration_repr
struct_of-IsField_test = struct_of-IsField bits64 run "strike" strike_at

-- A block of the layout: a preformatted one with two quote bars.
abbrev block_values : List Value
block_values =
    record { name = "x"; align = 4; bytes = 0 ∷ 0 ∷ 128 ∷ 65 ∷ [] }
    ∷ record { name = "y"; align = 4; bytes = 0 ∷ 0 ∷ 128 ∷ 65 ∷ [] }
    ∷ record { name = "quote_x"; align = 4; bytes = 0 ∷ 0 ∷ 0 ∷ 0 ∷ [] }
    ∷ record { name = "lines"; align = 4; bytes = 3 ∷ 0 ∷ 0 ∷ 0 ∷ [] }
    ∷ record { name = "lines_len"; align = 4; bytes = 1 ∷ 0 ∷ 0 ∷ 0 ∷ [] }
    ∷ record { name = "marker_line"; align = 4; bytes = 255 ∷ 255 ∷ 255 ∷ 255 ∷ [] }
    ∷ record { name = "kind"; align = 1; bytes = 2 ∷ [] }
    ∷ record { name = "quote_bars"; align = 1; bytes = 2 ∷ [] }
    ∷ []

block_shape : shape block_values ≡ struct_of bits64 lblock
unfolding shape struct_of
block_shape = refl

bars_value : value_of "quote_bars" block_values ≡ some (2 ∷ [])
unfolding value_of
bars_value = refl

bars_entry : entry "lblock_quote_bars" (lp_render_abi bits64) ≡ some 25
unfolding entry lp_render_abi
bars_entry = refl

lp_render_abi-read_example : slice 25 1 (image (λ at. 170) block_values) ≡ 2 ∷ []
lp_render_abi-read_example =
    lp_render_abi-read bits64 lblock (λ at. 170) block_values "quote_bars" (2 ∷ []) block_shape
      bars_value bars_entry

abbrev short_names : List String
short_names = "size" ∷ "span_size" ∷ []

lp_render_abi-size_test :
    (entry "size" (lp_render_abi bits64) ≡ some (size_of (all_u32 short_names)))
    ↔ (length short_names ≡ length lp_abi_names)
lp_render_abi-size_test = lp_render_abi-size bits64 short_names
