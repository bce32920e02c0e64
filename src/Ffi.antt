-- ===== src/Ffi.antt =====
-- What crosses the C boundary of src/rust: slices by pointer and length, status codes, and the
-- boxes that one side allocates and the other frees.
use lightpanda_browser.Prelude.{
  ℕ, ◌≤◌, [], Bool, true, false, ◌||◌, Option, none, some, Bytes, ◌==◌, if◌then◌else◌, take, length,
}
use lightpanda_browser.Prelude.Utf8.{from_utf8}

-- A pointer to bytes with a length. The pointer is null, or the memory that it addresses.
pub record RawSlice : Type 0 where
  pub ptr : Option Bytes
  pub len : ℕ

abbrev pub is_null {ℓ} : {A : Type ℓ} → Option A → Bool
is_null none = true
is_null (some _) = false

-- `slice::from_raw_parts` behind a test of the pointer. A caller keeps `len` within the memory.
unfoldable pub read : RawSlice → Bytes
read s = elim s.ptr [ none ↦ [] | some m ↦ take s.len m ]

abbrev pub IsReadable : RawSlice → Type 0
IsReadable s = elim s.ptr [ none ↦ Unit {0} | some m ↦ s.len ≤ length m ]

-- `str_from` of src/rust/html5ever/url.rs.
unfoldable pub str_from : RawSlice → Option Bytes
unfolding read from_utf8
str_from s = if is_null s.ptr || s.len == 0 then some [] else from_utf8 (read s)

-- A slice over the whole of some bytes.
abbrev pub slice_of : Bytes → RawSlice
slice_of b = record { ptr = some b; len = length b }

-- An `i32` status or result. `negsuc n` is -(n + 1).
pub data ℤ : Type 0 where
  pos : ℕ → ℤ
  negsuc : ℕ → ℤ

abbrev pub minus_one : ℤ
minus_one = negsuc 0

-- 0, or -1.
abbrev pub status : Bool → ℤ
status success = if success then pos 0 else minus_one
