-- ===== src/Render/SelfDescription/Laws.antt =====
-- What a caller can rely on in the table of src/rust/render/lib.rs.
use Prim.Native.String.{String, ◌++◌}
use lightpanda_browser.Prelude.{
  ℕ, ◌+◌, Bool, true, false, ◌&&◌, [], ◌∷◌, Option, none, some, ◌==◌ as eq_nat, ◌≡◌, refl, ap,
  arith, inl, inr, sym, ◌∙◌,
}
use lightpanda_browser.Render.CLayout.{
  Repr, Struct, round_up, locate_from, locate, size_of, align_of, repr_of,
}
use lightpanda_browser.Render.CLayout.Laws.{
  locate_from_cases, IsRepr, IsStruct, IsField, locate-IsField, repr_of-IsRepr,
}
use lightpanda_browser.Render.SelfDescription.Structs.{
  Target, bits32, bits64, Described, span, block, opts, layout, lblock, line, run, deco, glyph,
  cluster, font, struct_of, u8, u32, usize, lp_decoration_type,
}
use lightpanda_browser.Render.SelfDescription.Table.{Table, lp_render_abi, entry}

-- The names of the table's entries: a struct's size and alignment, and a field's offset.
abbrev pub size_name : Described → String
size_name span = "span_size"
size_name block = "block_size"
size_name opts = "opts_size"
size_name layout = "layout_sizeof"
size_name lblock = "lblock_sizeof"
size_name line = "line_sizeof"
size_name run = "run_sizeof"
size_name deco = "deco_sizeof"
size_name glyph = "glyph_sizeof"
size_name cluster = "cluster_sizeof"
size_name font = "font_sizeof"

abbrev pub align_name : Described → String
align_name span = "span_align"
align_name block = "block_align"
align_name opts = "opts_align"
align_name layout = "layout_alignof"
align_name lblock = "lblock_alignof"
align_name line = "line_alignof"
align_name run = "run_alignof"
align_name deco = "deco_alignof"
align_name glyph = "glyph_alignof"
align_name cluster = "cluster_alignof"
align_name font = "font_alignof"

abbrev pub entry_name : Described → String → String
entry_name span field = "span_" ++ field
entry_name block field = "block_" ++ field
entry_name opts field = "opts_" ++ field
entry_name layout field = "layout_" ++ field
entry_name lblock field = "lblock_" ++ field
entry_name line field = "line_" ++ field
entry_name run field = "run_" ++ field
entry_name deco field = "deco_" ++ field
entry_name glyph field = "glyph_" ++ field
entry_name cluster field = "cluster_" ++ field
entry_name font field = "font_" ++ field

is_at : Option ℕ → ℕ → Bool
is_at none n = false
is_at (some m) n = eq_nat m n

-- Every field has an entry, under its name, with its offset.
all_found : Table → (String → String) → ℕ → Struct → Bool
unfolding is_at round_up entry
all_found table name at [] = true
all_found table name at ((field, r) ∷ s) =
    is_at (entry (name field) table) (round_up at r.align)
    && all_found table name (round_up at r.align + r.size) s

is_at_lem : (o : Option ℕ) (n : ℕ) → is_at o n ≡ true → o ≡ some n
unfolding is_at
is_at_lem none n h = cc
is_at_lem (some m) n h = ground (arith, h)

all_found_lem :
    (table : Table) (name : String → String) (at : ℕ) (field : String) (s : Struct) {start : ℕ}
    {r : Repr}
    → all_found table name at s ≡ true
    → locate_from at field s ≡ some (start, r)
    → entry (name field) table ≡ some start
unfolding all_found locate_from
all_found_lem table name at field [] all found = cc
all_found_lem table name at field ((other, q) ∷ s) all found =
    let both : (is_at (entry (name other) table) (round_up at q.align) ≡ true)
        × (all_found table name (round_up at q.align + q.size) s ≡ true) =
      ground (arith, all) in
    elim (locate_from_cases at field other q s found) [
      | inl (here, there, same) ↦
          ap (λ f. entry (name f) table) (sym here) ∙ is_at_lem _ _ both.0 ∙ ap some (sym there)
      | inr (apart, found) ↦
          all_found_lem table name (round_up at q.align + q.size) field s both.1 found
    ]

table_all_found :
    (t : Target) (d : Described)
    → all_found (lp_render_abi t) (entry_name d) 0 (struct_of t d) ≡ true
unfolding lp_render_abi struct_of all_found
table_all_found bits32 span = refl
table_all_found bits64 span = refl
table_all_found t d = refl

sizes :
    (t : Target) (d : Described)
    → entry (size_name d) (lp_render_abi t) ≡ some (size_of (struct_of t d))
unfolding lp_render_abi struct_of entry size_of
sizes bits32 span = refl
sizes bits64 span = refl
sizes t d = refl

aligns :
    (t : Target) (d : Described)
    → entry (align_name d) (lp_render_abi t) ≡ some (align_of (struct_of t d))
unfolding lp_render_abi struct_of entry align_of
aligns bits32 span = refl
aligns bits64 span = refl
aligns t d = refl

-- Whatever the size of a pointer, the table has the size and the alignment of each struct, and
-- each of its fields under the struct's prefix and the field's name, with the offset that the
-- field has in that struct.
pub lp_render_abi-locate :
    (t : Target) (d : Described) (field : String) {start : ℕ} {r : Repr}
    → locate field (struct_of t d) ≡ some (start, r)
    → (entry (size_name d) (lp_render_abi t) ≡ some (size_of (struct_of t d)))
      × (entry (align_name d) (lp_render_abi t) ≡ some (align_of (struct_of t d)))
      × (entry (entry_name d field) (lp_render_abi t) ≡ some start)
unfolding locate
lp_render_abi-locate t d field found = (
  sizes t d,
  aligns t d,
  all_found_lem (lp_render_abi t) (entry_name d) 0 field (struct_of t d) (table_all_found t d)
      found,
)

byte-IsRepr : IsRepr u8
byte-IsRepr = record { log = 0; power = refl; units = 1; whole = refl }

u32-IsRepr : IsRepr u32
u32-IsRepr = record { log = 2; power = refl; units = 1; whole = refl }

usize-IsRepr : (t : Target) → IsRepr (usize t)
usize-IsRepr bits32 = record { log = 2; power = refl; units = 1; whole = refl }
usize-IsRepr bits64 = record { log = 3; power = refl; units = 1; whole = refl }

decoration-IsRepr : IsRepr (repr_of lp_decoration_type)
unfolding lp_decoration_type
decoration-IsRepr = repr_of-IsRepr lp_decoration_type (search u32-IsRepr)

-- The fields of every struct have types whose size and alignment fit.
pub struct_of-IsStruct : (t : Target) (d : Described) → IsStruct (struct_of t d)
unfolding struct_of
struct_of-IsStruct t block = search (byte-IsRepr, usize-IsRepr t)
struct_of-IsStruct t font = search (byte-IsRepr, u32-IsRepr, usize-IsRepr t)
struct_of-IsStruct t lblock = search (byte-IsRepr, u32-IsRepr)
struct_of-IsStruct t run = search (u32-IsRepr, decoration-IsRepr)
struct_of-IsStruct t span = search (u32-IsRepr, usize-IsRepr t)
struct_of-IsStruct t layout = search (u32-IsRepr, usize-IsRepr t)
struct_of-IsStruct t d = search u32-IsRepr

-- Whatever the size of a pointer, a field of one of the structs lies within the struct, and the
-- alignment of its type divides both its offset and the alignment of the struct.
pub struct_of-IsField :
    (t : Target) (d : Described) (field : String) {start : ℕ} {r : Repr}
    → locate field (struct_of t d) ≡ some (start, r)
    → IsField (struct_of t d) start r
struct_of-IsField t d field found =
    locate-IsField field (struct_of t d) (struct_of-IsStruct t d) found
