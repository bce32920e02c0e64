-- ===== src/Url/Resolve/Agreement.antt =====
-- The two ways to resolve agree, with one another and with `url_parse_with_base`
-- (src/rust/html5ever/url.rs).
use lightpanda_browser.Prelude.{true, ◌⊎◌, none, some, Bytes, ◌≡◌, inl, inr, refl, Option-cases}
use lightpanda_browser.Ffi.{RawSlice, str_from, pos}
use lightpanda_browser.Encoding.{EncodingRs}
use lightpanda_browser.Heap.Laws.{IsHeap}
use lightpanda_browser.Url.Crate.{Parsed, ok, err, UrlCrate}
use lightpanda_browser.Url.Buffers.{Boxes, own, free_owned_string}
use lightpanda_browser.Url.Buffers.Laws.{SameCells, free_owned_string-own}
use lightpanda_browser.Url.Resolve.{
  Resolved, refused, parse_base, resolve_plain, finish, url_resolve_without_encoding,
  legacy_encoding, resolve_encoded, url_resolve_with_encoding,
}

module _ (u : UrlCrate) (e : EncodingRs) where
  legacy_encoding-none :
      (label : Bytes)
      → (e.for_label label ≡ none)
        ⊎ (encoding : e.Encoding) × (e.for_label label ≡ some encoding)
          × (e.same (e.output_encoding encoding) e.utf_8 ≡ true)
      → legacy_encoding u e label ≡ none
  unfolding legacy_encoding
  legacy_encoding-none label (inl unknown) = rw (unknown, legacy_encoding) refl
  legacy_encoding-none label (inr (encoding, known, utf_8)) =
      rw (known, utf_8, legacy_encoding) refl

  -- With a label that is a text and names no encoding, or one whose output encoding is UTF-8, the
  -- encoding makes no difference.
  pub url_resolve_utf8 :
      (base_raw input_raw enc_raw : RawSlice) (label : Bytes) (h : Boxes)
      → str_from enc_raw ≡ some label
      → (e.for_label label ≡ none)
        ⊎ (encoding : e.Encoding) × (e.for_label label ≡ some encoding)
          × (e.same (e.output_encoding encoding) e.utf_8 ≡ true)
      → url_resolve_with_encoding u e base_raw input_raw enc_raw h
        ≡ some (url_resolve_without_encoding u base_raw input_raw h)
  unfolding url_resolve_with_encoding url_resolve_without_encoding resolve_encoded
  url_resolve_utf8 base_raw input_raw enc_raw label h s utf_8 =
      let n = legacy_encoding-none label utf_8 in
      elim (Option-cases (str_from base_raw)) [
        | inl bad ↦ rw (bad, url_resolve_with_encoding, url_resolve_without_encoding)
        | inr (b, good) ↦ elim (Option-cases (parse_base u b)) [
          | inl bad ↦ rw (good, bad, url_resolve_with_encoding, url_resolve_without_encoding)
          | inr (base, parsed) ↦ elim (Option-cases (str_from input_raw)) [
            | inl bad ↦
                rw (good, parsed, bad, url_resolve_with_encoding, url_resolve_without_encoding)
            | inr (input, good') ↦ rw (
              good, parsed, good', s, n, url_resolve_with_encoding, url_resolve_without_encoding,
              resolve_encoded,
            )
          ]
        ]
      ]

module _ (u : UrlCrate) (h : Boxes) (i : IsHeap h) where
  -- What a caller sees: -1 with a null string and no new box, or 0 with the href of some URL in a
  -- string that `free_owned_string` frees.
  pub data Answers : Resolved → Type 0 where
    failed : {r : Resolved} → r ≡ refused h → Answers r
    answered :
        {r : Resolved} (url : u.Url) (g : Boxes)
        → r.0 ≡ (own (u.as_str url) h).0
        → r.1 ≡ pos 0
        → free_owned_string r.0 r.2 ≡ some g
        → SameCells g h
        → Answers r

  finish-Answers : (p : Parsed u.Url) → Answers (finish u p h)
  unfolding finish
  finish-Answers (err e) = failed refl
  finish-Answers (ok url) =
      let (g, freed, same) = free_owned_string-own h i (u.as_str url) in
      answered url g refl refl freed same

  -- Whatever the base and the reference, `url_resolve_without_encoding` returns -1 with a null
  -- string and no new box, or 0 with the href of some URL in a string that `free_owned_string`
  -- frees.
  pub url_resolve-Answers :
      (base_raw input_raw : RawSlice)
      → Answers (url_resolve_without_encoding u base_raw input_raw h)
  unfolding url_resolve_without_encoding
  url_resolve-Answers base_raw input_raw = elim (Option-cases (str_from base_raw)) [
    | inl bad ↦ failed (rw (bad, url_resolve_without_encoding))
    | inr (b, good) ↦ elim (Option-cases (parse_base u b)) [
      | inl bad ↦ failed (rw (good, bad, url_resolve_without_encoding))
      | inr (base, parsed) ↦ elim (Option-cases (str_from input_raw)) [
        | inl bad ↦ failed (rw (good, parsed, bad, url_resolve_without_encoding))
        | inr (input, good') ↦
            rw (good, parsed, good', url_resolve_without_encoding)
              (finish-Answers (resolve_plain u base input))
      ]
    ]
  ]
