-- ===== src/Url/Resolve.antt =====
-- `url_resolve_with_encoding` and `url_resolve_without_encoding` (src/rust/html5ever/url.rs): an
-- href from a base and a reference.
pub mod Agreement
use lightpanda_browser.Prelude.{
  ℕ, Bool, true, false, not, List, [], Option, none, some, Bytes, if◌then◌else◌, is_empty,
}
use lightpanda_browser.Ffi.{RawSlice, str_from, ℤ, pos, minus_one}
use lightpanda_browser.Encoding.{EncodingRs}
use lightpanda_browser.Url.Crate.{Parsed, ok, err, UrlCrate}
use lightpanda_browser.Url.DriveLetter.{fix_drive_letter_join}
use lightpanda_browser.Url.Handles.{join_fixed}
use lightpanda_browser.Url.Query.{Encoded, done, panicked, out_of_fuel, encode_query_ncr}
use lightpanda_browser.Url.Buffers.{OwnedString, empty_owned_string, Boxes, own}

-- What is returned, what is written to `*err`, and the boxes.
abbrev pub Resolved : Type 0
Resolved = OwnedString × ℤ × Boxes

abbrev pub refused : Boxes → Resolved
refused h = (empty_owned_string, minus_one, h)

abbrev pub encoded_bytes : Encoded → Option Bytes
encoded_bytes (done b) = some b
encoded_bytes _ = none

module _ (u : UrlCrate) where
  -- The base, if it is wanted; the outer `none` is the error return.
  unfoldable pub parse_base : Bytes → Option (Option u.Url)
  unfolding is_empty
  parse_base base_slice =
      if is_empty base_slice
      then some none
      else elim (u.parse base_slice) [ ok url ↦ some (some url) | err e ↦ none ]

  unfoldable pub resolve_plain : Option u.Url → Bytes → Parsed u.Url
  resolve_plain none input = u.parse input
  resolve_plain (some base) input = join_fixed u base input

  -- The `match` on the result.
  unfoldable pub finish : Parsed u.Url → Boxes → Resolved
  finish (ok url) h = let (owned, h') = own (u.as_str url) h in (owned, pos 0, h')
  finish (err e) h = refused h

  unfoldable pub url_resolve_without_encoding : (base_raw input_raw : RawSlice) → Boxes → Resolved
  url_resolve_without_encoding base_raw input_raw h = elim (str_from base_raw) [
    | none ↦ refused h
    | some base_slice ↦ elim (parse_base base_slice) [
      | none ↦ refused h
      | some base ↦ elim (str_from input_raw) [
        | none ↦ refused h
        | some input ↦ finish (resolve_plain base input) h
      ]
    ]
  ]

  module _ (e : EncodingRs) where
    -- The output encoding of a label, unless it is UTF-8.
    unfoldable pub legacy_encoding : Bytes → Option e.Encoding
    legacy_encoding label = elim (e.for_label label) [
      | none ↦ none
      | some encoding ↦
          if not (e.same (e.output_encoding encoding) e.utf_8)
          then some (e.output_encoding encoding)
          else none
    ]

    unfoldable pub fix_parsed : Option u.Url → Bytes → Parsed u.Url → Parsed u.Url
    fix_parsed (some base) input (ok url) = ok (fix_drive_letter_join u base input url)
    fix_parsed _ input r = r

    -- `none` is a panic.
    unfoldable pub resolve_encoded :
        Option e.Encoding → Option u.Url → Bytes → Option (Parsed u.Url)
    resolve_encoded none base input = some (resolve_plain base input)
    resolve_encoded (some encoding) base input =
        elim (u.parse_with base (λ s. encoded_bytes (encode_query_ncr e encoding s)) input) [
          | none ↦ none
          | some r ↦ some (fix_parsed base input r)
        ]

    unfoldable pub url_resolve_with_encoding :
        (base_raw input_raw enc_raw : RawSlice) → Boxes → Option Resolved
    url_resolve_with_encoding base_raw input_raw enc_raw h = elim (str_from base_raw) [
      | none ↦ some (refused h)
      | some base_slice ↦ elim (parse_base base_slice) [
        | none ↦ some (refused h)
        | some base ↦ elim (str_from input_raw) [
          | none ↦ some (refused h)
          | some input ↦ elim (str_from enc_raw) [
            | none ↦ some (refused h)
            | some label ↦ elim (resolve_encoded (legacy_encoding label) base input) [
              | none ↦ none
              | some r ↦ some (finish r h)
            ]
          ]
        ]
      ]
    ]
