-- ===== src/Url/Host.antt =====
-- `url_set_host` and `url_set_hostname` (src/rust/html5ever/url.rs). The URL behind the pointer is
-- passed in and the new one is returned with the status.
pub mod Laws
use lightpanda_browser.Prelude.{
  ℕ, ◌+◌, Bool, true, false, ◌||◌, ◌&&◌, List, [], ◌∷◌, Option, none, some, Bytes, ◌==◌,
  if◌then◌else◌, is_empty, take, drop, length,
}
use lightpanda_browser.Prelude.Search.{find}
use lightpanda_browser.Prelude.Decimal.{parse_u16}
use lightpanda_browser.Ffi.{RawSlice, str_from, ℤ, pos, minus_one, status}
use lightpanda_browser.Url.Crate.{UrlCrate}
use lightpanda_browser.Url.Hostname.{is_special, clean_hostname_input}

-- Does a character end the host state?
abbrev pub ends_host : Bool → ℕ → Bool
ends_host special c = c == b'/' || c == b'?' || c == b'#' || (special && c == b'\\')

-- `&input[..end]`.
unfoldable pub host_input : Bool → Bytes → Bytes
host_input special input = elim (find (ends_host special) input) [
  | none ↦ take (length input) input
  | some end ↦ take end input
]

unfoldable pub starts_with_bracket : Bytes → Bool
starts_with_bracket [] = false
starts_with_bracket (c ∷ _) = c == b'['

-- The index of the `:` in front of the port.
unfoldable pub colon_index : Bytes → Option ℕ
unfolding starts_with_bracket
colon_index input =
    if starts_with_bracket input
    then elim (find (λ c. c == b']') input) [
      | none ↦ none
      | some b ↦ elim (find (λ c. c == b':') (drop b input)) [ none ↦ none | some i ↦ some (b + i) ]
    ]
    else find (λ c. c == b':') input

module _ (u : UrlCrate) where
  open u use {Url, scheme}

  -- `url.set_host(Some(host))` with 0 or -1.
  unfoldable pub set_host_only : Url → Bytes → Url × ℤ
  set_host_only url host = let (url', ok) = u.set_host url (some host) in (url', status ok)

  -- The host first, then the port, whose result is dropped.
  unfoldable pub set_host_port : Url → Bytes → ℕ → Url × ℤ
  set_host_port url host port =
      let (url', ok) = u.set_host url (some host) in
      if ok then ((u.set_port url' (some port)).0, pos 0) else (url', minus_one)

  -- Behind the search for the colon.
  unfoldable pub set_host_parts : Url → (host port_str : Bytes) → Url × ℤ
  set_host_parts url host port_str =
      if is_empty port_str then set_host_only url host else elim (parse_u16 port_str) [
        | none ↦ (url, minus_one)
        | some port ↦ set_host_port url host port
      ]

  -- Behind the cut at the end of the host state.
  unfoldable pub set_host_text : Url → Bytes → Url × ℤ
  set_host_text url text = elim (colon_index text) [
    | none ↦ set_host_only url text
    | some i ↦ set_host_parts url (take i text) (drop (i + 1) text)
  ]

  unfoldable pub set_host_str : Url → Bytes → Url × ℤ
  set_host_str url input = set_host_text url (host_input (is_special (scheme url)) input)

  unfoldable pub url_set_host : Url → RawSlice → Url × ℤ
  url_set_host url raw = elim (str_from raw) [
    | none ↦ (url, minus_one)
    | some input ↦ set_host_str url input
  ]

  unfoldable pub url_set_hostname : Url → RawSlice → Url × ℤ
  url_set_hostname url raw = elim (str_from raw) [
    | none ↦ (url, minus_one)
    | some input ↦ set_host_only url (clean_hostname_input u url input)
  ]
