-- ===== src/Render/CLayout.antt =====
-- Rust's documented layout of a `#[repr(C)]` struct, which src/rust/render/lib.rs asks of the
-- compiler by `size_of`, `align_of` and `offset_of!`.
pub mod Divides
pub mod Laws
pub mod Image
use Prim.Native.String.{String}
use text.Mathlib.Text.{◌==◌}
use lightpanda_browser.Prelude.{
  ℕ, ◌+◌, ◌-◌, ◌*◌, ◌/◌, List, [], ◌∷◌, Option, none, some, ltb, if◌then◌else◌,
}

-- What the layout sees of a type.
pub record Repr : Type 0 where
  pub size : ℕ
  pub align : ℕ

-- A struct's fields in their order, by name.
abbrev pub Struct : Type 0
Struct = List (String × Repr)

-- The first multiple of `a` from `n` on.
unfoldable pub round_up : (n a : ℕ) → ℕ
round_up n a = (n + (a - 1)) / a * a

-- The end of the fields that are placed from `at` on, each behind its padding.
unfoldable pub end_from : ℕ → Struct → ℕ
unfolding round_up
end_from at [] = at
end_from at ((name, r) ∷ fields) = end_from (round_up at r.align + r.size) fields

unfoldable pub align_of : Struct → ℕ
align_of [] = 1
align_of ((name, r) ∷ fields) =
    let rest = align_of fields in if ltb rest r.align then r.align else rest

unfoldable pub size_of : Struct → ℕ
unfolding round_up end_from align_of
size_of s = round_up (end_from 0 s) (align_of s)

-- A struct as the type of a field.
unfoldable pub repr_of : Struct → Repr
unfolding size_of align_of
repr_of s = record { size = size_of s; align = align_of s }

-- A field's offset, with its type; `none` if there is no such field.
unfoldable pub locate_from : ℕ → String → Struct → Option (ℕ × Repr)
unfolding round_up
locate_from at field [] = none
locate_from at field ((name, r) ∷ fields) =
    if name == field
    then some (round_up at r.align, r)
    else locate_from (round_up at r.align + r.size) field fields

unfoldable pub locate : String → Struct → Option (ℕ × Repr)
unfolding locate_from
locate field s = locate_from 0 field s

-- `offset_of!`; `none` is an error of the compiler.
unfoldable pub offset_of : Struct → String → Option ℕ
unfolding locate
offset_of s field = elim (locate field s) [ none ↦ none | some (at, r) ↦ some at ]
