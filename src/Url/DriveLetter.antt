-- ===== src/Url/DriveLetter.antt =====
-- `fix_drive_letter_join` and `is_drive_letter_lookalike` (src/rust/html5ever/url.rs).
pub mod Pop
use lightpanda_browser.Prelude.{
  ℕ, ◌+◌, ◌-◌, Bool, true, false, not, ◌||◌, ◌&&◌, List, [], ◌∷◌, Option, none, some, Bytes, codes,
  eq_bytes, ◌==◌, if◌then◌else◌, is_some, take, drop, length,
}
use lightpanda_browser.Prelude.Utf8.{within}
use lightpanda_browser.Prelude.Search.{rfind, strip_suffix, first_piece}
use lightpanda_browser.Url.Crate.{UrlCrate}

unfoldable pub is_ascii_alphabetic : ℕ → Bool
is_ascii_alphabetic c = within b'a' b'z' c || within b'A' b'Z' c

unfoldable pub is_drive_letter_lookalike : Bytes → Bool
unfolding is_ascii_alphabetic
is_drive_letter_lookalike (a ∷ b ∷ []) = is_ascii_alphabetic a && (b == b':' || b == b'|')
is_drive_letter_lookalike _ = false

-- The first path segment of a relative reference.
unfoldable pub first_segment : Bytes → Bytes
first_segment input = first_piece (λ c. c == b'/') (first_piece (λ c. c == b'?' || c == b'#') input)

-- Does the base path end with a slash behind a segment that looks like a drive letter?
unfoldable pub ends_with_lookalike : Bytes → Bool
ends_with_lookalike base_path = elim (strip_suffix b'/' base_path) [
  | none ↦ false
  | some trimmed ↦ elim (rfind b'/' trimmed) [
    | none ↦ false
    | some slash ↦ is_drive_letter_lookalike (drop (slash + 1) trimmed)
  ]
]

-- The path of the joined URL without its last segment; `none` is an early return.
unfoldable pub popped : Bytes → Option Bytes
popped path =
    if not (is_some (strip_suffix b'/' path))
    then none
    else elim (rfind b'/' (take (length path - 1) path)) [
      | none ↦ none
      | some slash ↦ some (take (slash + 1) path)
    ]

module _ (u : UrlCrate) where
  open u use {Url, scheme, path, set_path}

  unfoldable pub pop_segment : Url → Url
  pop_segment joined = elim (popped (path joined)) [ none ↦ joined | some p ↦ set_path joined p ]

  unfoldable pub fix_drive_letter_join : Url → Bytes → Url → Url
  fix_drive_letter_join base input joined =
      if eq_bytes (scheme base) (codes "file") || eq_bytes (scheme joined) (codes "file")
      then joined
      else if not (eq_bytes (first_segment input) (codes ".."))
      then joined
      else if not (ends_with_lookalike (path base))
      then joined
      else pop_segment joined
