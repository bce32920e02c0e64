-- ===== src/Dom/Types.antt =====
-- src/rust/html5ever/types.rs, and the attribute iterator of src/rust/html5ever/lib.rs.
pub mod Iterate
use lightpanda_browser.Prelude.{
  ℕ, zero, suc, ◌+◌, [], ◌∷◌, List, Option, none, some, Bytes, ◌==◌, if◌then◌else◌, length,
}
use lightpanda_browser.Prelude.Slices.{get_elem?}
use lightpanda_browser.Ffi.{RawSlice, slice_of}
use lightpanda_browser.Markup.{QualName, Attribute}

-- Tag 0 is `None`, with the default value, and 1 is `Some`.
pub record CNullable (T : Type 0) : Type 0 where
  pub tag : ℕ
  pub value : T

unfoldable pub default_slice : RawSlice
default_slice = record { ptr = none; len = 0 }

pub record CQualName : Type 0 where
  pub prefix : CNullable RawSlice
  pub ns : RawSlice
  pub local : RawSlice

unfoldable pub nullable_slice : Option Bytes → CNullable RawSlice
unfolding default_slice
nullable_slice none = record { tag = 0; value = default_slice }
nullable_slice (some b) = record { tag = 1; value = slice_of b }

-- `CQualName::create`.
unfoldable pub create_name : QualName → CQualName
unfolding nullable_slice
create_name q = record {
  prefix = nullable_slice q.prefix;
  ns = slice_of q.ns;
  local = slice_of q.local;
}

unfoldable pub default_name : CQualName
unfolding nullable_slice default_slice
default_name = record { prefix = nullable_slice none; ns = default_slice; local = default_slice }

pub record CAttribute : Type 0 where
  pub name : CQualName
  pub value : RawSlice

-- `CAttribute::default`.
abbrev pub default_attribute : CAttribute
default_attribute = record { name = default_name; value = default_slice }

pub record CAttributeIterator : Type 0 where
  pub vec : List Attribute
  pub pos : ℕ

-- `html5ever_attribute_iterator_next`; the indexing panics (`none`) past the end.
unfoldable pub attribute_iterator_next :
    CAttributeIterator → Option (CNullable CAttribute × CAttributeIterator)
unfolding get_elem? create_name
attribute_iterator_next iter =
    if iter.pos == length iter.vec
    then some (record { tag = 0; value = default_attribute }, iter)
    else elim (get_elem? iter.vec iter.pos) [
      | none ↦ none
      | some a ↦ some (
        record { tag = 1; value = record { name = create_name a.name; value = slice_of a.value } },
        record iter { pos = iter.pos + 1 },
      )
    ]

-- `html5ever_attribute_iterator_count`.
unfoldable pub attribute_iterator_count : CAttributeIterator → ℕ
attribute_iterator_count iter = length iter.vec
