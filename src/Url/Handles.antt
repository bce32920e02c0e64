-- ===== src/Url/Handles.antt =====
-- The URL objects that src/rust/html5ever/url.rs hands out: parsing, joining, freeing, and the
-- getters and setters behind a handle. A result is paired with the new heap; `none` around it is
-- undefined behaviour (a dead handle). An error code is `some` if `*err` is written.
pub mod Parsing
pub mod Setters
mod Tests
use lightpanda_browser.Prelude.{
  ℕ, Bool, true, false, [], Option, none, some, Bytes, ◌==◌, if◌then◌else◌,
}
use lightpanda_browser.Ffi.{RawSlice, str_from, ℤ, pos, minus_one, status}
use lightpanda_browser.Heap.{Heap, null, into_raw, drop_raw, deref, deref_mut}
use lightpanda_browser.Url.Crate.{Parsed, ok, err, UrlCrate}
use lightpanda_browser.Url.DriveLetter.{fix_drive_letter_join}
use lightpanda_browser.Url.Host.{url_set_host, url_set_hostname}

-- What a getter writes to `*out_ptr` and `*out_len`: nothing, the empty length alone, or a slice.
pub data Out : Type 0 where
  untouched emptied : Out
  slice : Bytes → Out

module _ (u : UrlCrate) where
  open u use {Url}

  -- The handle, or null, and what is written to `*err`.
  abbrev pub Made : Type 0
  Made = ℕ × Option ℕ × Heap Url

  abbrev failed : ℕ → Heap Url → Made
  failed code h = (null, some code, h)

  unfoldable pub box_url : Parsed Url → Heap Url → Made
  box_url (ok url) h = let (p, h') = into_raw url h in (p, none, h')
  box_url (err e) h = failed e h

  unfoldable pub url_parse : RawSlice → Heap Url → Made
  url_parse raw h = elim (str_from raw) [
    | none ↦ failed u.empty_host h
    | some s ↦ box_url (u.parse s) h
  ]

  -- `base.join(input)` with the fix.
  unfoldable pub join_fixed : Url → Bytes → Parsed Url
  join_fixed base input = elim (u.join base input) [
    | ok url ↦ ok (fix_drive_letter_join u base input url)
    | err e ↦ err e
  ]

  unfoldable pub url_parse_with_base : (base_raw raw : RawSlice) → Heap Url → Made
  url_parse_with_base base_raw raw h = elim (str_from base_raw) [
    | none ↦ failed u.empty_host h
    | some base_slice ↦ elim (str_from raw) [
      | none ↦ failed u.empty_host h
      | some s ↦ elim (u.parse base_slice) [
        | ok base ↦ box_url (join_fixed base s) h
        | err e ↦ failed e h
      ]
    ]
  ]

  unfoldable pub url_join : ℕ → RawSlice → Heap Url → Option Made
  url_join p raw h = elim (h.cell p) [
    | none ↦ none
    | some base ↦ elim (str_from raw) [
      | none ↦ some (failed u.empty_host h)
      | some s ↦ some (box_url (join_fixed base s) h)
    ]
  ]

  abbrev is_ok : Parsed Url → Bool
  is_ok (ok _) = true
  is_ok (err _) = false

  unfoldable pub url_can_parse : RawSlice → Bool
  url_can_parse raw = elim (str_from raw) [ none ↦ false | some s ↦ is_ok (u.parse s) ]

  unfoldable pub url_can_parse_with_base : (base_raw raw : RawSlice) → Bool
  url_can_parse_with_base base_raw raw = elim (str_from base_raw) [
    | none ↦ false
    | some base_slice ↦ elim (str_from raw) [
      | none ↦ false
      | some s ↦ elim (u.parse base_slice) [ ok url ↦ is_ok (u.join url s) | err e ↦ false ]
    ]
  ]

  unfoldable pub url_free : ℕ → Heap Url → Option (Heap Url)
  url_free p h = if p == null then some h else drop_raw p h

  -- A getter of a text, and one of a text that may be missing.
  abbrev text_of : (Url → Bytes) → ℕ → Heap Url → Option Out
  text_of get p h = deref (λ url. slice (get url)) p h

  abbrev maybe_of : Out → (Url → Option Bytes) → ℕ → Heap Url → Option (Out × ℤ)
  maybe_of missing get p h =
      deref (λ url. elim (get url) [ none ↦ (missing, minus_one) | some s ↦ (slice s, pos 0) ]) p h

  unfoldable pub url_to_string : ℕ → Heap Url → Option Out
  url_to_string = text_of u.as_str

  unfoldable pub url_get_href : ℕ → Heap Url → Option Out
  url_get_href = text_of u.as_str

  unfoldable pub url_get_username : ℕ → Heap Url → Option Out
  url_get_username = text_of u.username

  unfoldable pub url_get_scheme : ℕ → Heap Url → Option Out
  url_get_scheme = text_of u.scheme

  unfoldable pub url_get_path : ℕ → Heap Url → Option Out
  url_get_path = text_of u.path

  unfoldable pub url_get_password : ℕ → Heap Url → Option (Out × ℤ)
  url_get_password = maybe_of untouched u.password

  unfoldable pub url_get_query : ℕ → Heap Url → Option (Out × ℤ)
  url_get_query = maybe_of untouched u.query

  unfoldable pub url_get_fragment : ℕ → Heap Url → Option (Out × ℤ)
  url_get_fragment = maybe_of untouched u.fragment

  unfoldable pub url_get_hostname : ℕ → Heap Url → Option (Out × ℤ)
  url_get_hostname = maybe_of emptied u.host_str

  unfoldable pub url_get_host : ℕ → Heap Url → Option (Out × ℤ)
  url_get_host p h =
      deref
        (λ url. elim (u.host_str url) [
          | none ↦ (emptied, minus_one)
          | some _ ↦ (slice (u.host_and_port url), pos 0)
        ])
        p h

  unfoldable pub url_get_port : ℕ → Heap Url → Option ℤ
  url_get_port p h =
      deref (λ url. elim (u.port url) [ none ↦ minus_one | some port ↦ pos port ]) p h

  -- A setter with an argument from the other side of the boundary: not UTF-8 is -1, and the
  -- object is not touched.
  abbrev set_text : (Url → Bytes → Url × ℤ) → RawSlice → Url → Url × ℤ
  set_text set raw url = elim (str_from raw) [ none ↦ (url, minus_one) | some s ↦ set url s ]

  abbrev with_status : Url × Bool → Url × ℤ
  with_status (url, success) = (url, status success)

  unfoldable pub url_set_username : ℕ → RawSlice → Heap Url → Option (ℤ × Heap Url)
  url_set_username p raw = deref_mut (set_text (λ url s. with_status (u.set_username url s)) raw) p

  unfoldable pub url_set_password : ℕ → RawSlice → Heap Url → Option (ℤ × Heap Url)
  url_set_password p raw =
      deref_mut (set_text (λ url s. with_status (u.set_password url (some s))) raw) p

  unfoldable pub url_set_scheme : ℕ → RawSlice → Heap Url → Option (ℤ × Heap Url)
  url_set_scheme p raw = deref_mut (set_text (λ url s. with_status (u.set_scheme url s)) raw) p

  unfoldable pub url_set_path : ℕ → RawSlice → Heap Url → Option (ℤ × Heap Url)
  url_set_path p raw = deref_mut (set_text (λ url s. (u.set_path url s, pos 0)) raw) p

  unfoldable pub url_set_query : ℕ → RawSlice → Heap Url → Option (ℤ × Heap Url)
  url_set_query p raw = deref_mut (set_text (λ url s. (u.set_query url (some s), pos 0)) raw) p

  unfoldable pub url_set_fragment : ℕ → RawSlice → Heap Url → Option (ℤ × Heap Url)
  url_set_fragment p raw =
      deref_mut (set_text (λ url s. (u.set_fragment url (some s), pos 0)) raw) p

  unfoldable pub url_set_query_to_null : ℕ → Heap Url → Option (Unit {0} × Heap Url)
  url_set_query_to_null p = deref_mut (λ url. (u.set_query url none, tt)) p

  unfoldable pub url_set_fragment_to_null : ℕ → Heap Url → Option (Unit {0} × Heap Url)
  url_set_fragment_to_null p = deref_mut (λ url. (u.set_fragment url none, tt)) p

  unfoldable pub url_set_port : ℕ → ℕ → Heap Url → Option (ℤ × Heap Url)
  url_set_port p port = deref_mut (λ url. with_status (u.set_port url (some port))) p

  unfoldable pub url_set_port_to_null : ℕ → Heap Url → Option (ℤ × Heap Url)
  url_set_port_to_null p = deref_mut (λ url. with_status (u.set_port url none)) p

  unfoldable pub set_host_at : ℕ → RawSlice → Heap Url → Option (ℤ × Heap Url)
  set_host_at p raw = deref_mut (λ url. url_set_host u url raw) p

  unfoldable pub set_hostname_at : ℕ → RawSlice → Heap Url → Option (ℤ × Heap Url)
  set_hostname_at p raw = deref_mut (λ url. url_set_hostname u url raw) p
