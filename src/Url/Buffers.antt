-- ===== src/Url/Buffers.antt =====
-- The byte buffers that src/rust/html5ever/url.rs hands out and takes back: the NUL-terminated one
-- of `lpurl_domain_to_ascii`, and `OwnedString`. A boxed slice is freed with its exact length, or
-- the behaviour is undefined (`none`).
pub mod Laws
use lightpanda_browser.Prelude.{
  ℕ, ◌+◌, Bool, true, false, ◌||◌, List, [], ◌∷◌, ◌++◌, Option, none, some, Bytes, ◌==◌, length,
  if◌then◌else◌, is_empty,
}
use lightpanda_browser.Ffi.{RawSlice, str_from}
use lightpanda_browser.Heap.{Heap, into_raw, drop_raw}
use lightpanda_browser.Url.Crate.{UrlCrate}

-- A boxed slice of no bytes has no allocation: its pointer dangles and is not null.
pub data BytePtr : Type 0 where
  null dangling : BytePtr
  boxed : ℕ → BytePtr

abbrev pub Boxes : Type 0
Boxes = Heap Bytes

-- `Box::into_raw(bytes.into_boxed_slice())`.
unfoldable pub box_bytes : Bytes → Boxes → BytePtr × Boxes
unfolding is_empty
box_bytes bytes h =
    if is_empty bytes then (dangling, h) else let (p, h') = into_raw bytes h in (boxed p, h')

-- `drop(Box::from_raw(slice_from_raw_parts_mut(ptr, len)))`.
unfoldable pub free_sized : BytePtr → ℕ → Boxes → Option Boxes
free_sized null len h = none
free_sized dangling len h = if len == 0 then some h else none
free_sized (boxed p) len h = elim (h.cell p) [
  | none ↦ none
  | some b ↦ if length b == len then drop_raw p h else none
]

-- `idna::domain_to_ascii`, which may panic.
pub data Ascii : Type 0 where
  ok : Bytes → Ascii
  err panicked : Ascii

-- `ffi_guard`: a panic, which has written nothing, becomes 1.
abbrev pub ffi_guard :
    Option (ℕ × Option (BytePtr × ℕ) × Boxes) → Boxes → ℕ × Option (BytePtr × ℕ) × Boxes
ffi_guard none h = (1, none, h)
ffi_guard (some returned) h = returned

-- The code, what is written to `*out_ptr` and `*out_len`, and the boxes.
unfoldable pub finish_to_ascii : Ascii → Boxes → ℕ × Option (BytePtr × ℕ) × Boxes
finish_to_ascii (ok ascii) h =
    let (p, h') = box_bytes (ascii ++ 0 ∷ []) h in (0, some (p, length ascii), h')
finish_to_ascii err h = (1, none, h)
finish_to_ascii panicked h = ffi_guard none h

unfoldable pub lpurl_domain_to_ascii :
    (Bytes → Ascii) → RawSlice → Boxes → ℕ × Option (BytePtr × ℕ) × Boxes
lpurl_domain_to_ascii to_ascii host h = elim (str_from host) [
  | none ↦ (1, none, h)
  | some s ↦ finish_to_ascii (to_ascii s) h
]

unfoldable pub lpurl_free : BytePtr → ℕ → Boxes → Option Boxes
lpurl_free null len h = some h
lpurl_free p len h = free_sized p (len + 1) h

pub record OwnedString : Type 0 where
  pub ptr : BytePtr
  pub len : ℕ

abbrev pub empty_owned_string : OwnedString
empty_owned_string = record { ptr = null; len = 0 }

abbrev pub is_null_ptr : BytePtr → Bool
is_null_ptr null = true
is_null_ptr _ = false

unfoldable pub free_owned_string : OwnedString → Boxes → Option Boxes
free_owned_string owned h =
    if is_null_ptr owned.ptr || owned.len == 0 then some h else free_sized owned.ptr owned.len h

-- A text as an `OwnedString`.
unfoldable pub own : Bytes → Boxes → OwnedString × Boxes
own s h = let (p, h') = box_bytes s h in (record { ptr = p; len = length s }, h')

unfoldable pub url_get_origin : (u : UrlCrate) → u.Url → Boxes → OwnedString × Boxes
unfolding own
url_get_origin u url = own (u.origin url)
