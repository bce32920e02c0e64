-- ===== src/Url/Handles/Parsing.antt =====
-- Parsing, joining and freeing by handle (src/rust/html5ever/url.rs) agree with one another.
use lightpanda_browser.Prelude.{
  ℕ, ◌+◌, true, false, none, some, Bytes, ◌==◌, ◌≡◌, ◌≢◌, ◌↔◌, refl, arith, Option-cases, inl, inr,
  ◌⊎◌,
}
use lightpanda_browser.Ffi.{RawSlice, str_from}
use lightpanda_browser.Heap.{Heap, null, into_raw}
use lightpanda_browser.Heap.Laws.{IsHeap, into_raw-ne-null, cell-into_raw, drop_raw-into_raw}
use lightpanda_browser.Url.Crate.{Parsed, ok, err, UrlCrate}
use lightpanda_browser.Url.Handles.{
  box_url, url_parse, join_fixed, url_parse_with_base, url_join, url_can_parse,
  url_can_parse_with_base, url_free, is_ok,
}

Parsed-cases : {A : Type 0} (r : Parsed A) → ((a : A) × (r ≡ ok a)) ⊎ ((e : ℕ) × (r ≡ err e))
Parsed-cases (ok a) = inl (a, refl)
Parsed-cases (err e) = inr (e, refl)

module _ (u : UrlCrate) (h : Heap u.Url) (i : IsHeap h) where
  box_url-ne-null : (r : Parsed u.Url) → (is_ok u r ≡ true) ↔ ((box_url u r h).0 ≢ null)
  unfolding box_url
  box_url-ne-null (ok url) = (λ e. into_raw-ne-null h url i, λ n. refl)
  box_url-ne-null (err e) = (λ x. cc, λ n. absurd (n refl))

  -- A text can be parsed exactly when parsing it gives a handle that is not null.
  pub url_can_parse_iff :
      (raw : RawSlice) → (url_can_parse u raw ≡ true) ↔ ((url_parse u raw h).0 ≢ null)
  unfolding url_can_parse url_parse
  url_can_parse_iff raw = elim (Option-cases (str_from raw)) [
    | inl bad ↦ rw (bad, url_can_parse, url_parse) (λ e. cc, λ n. absurd (n refl))
    | inr (s, good) ↦ rw (good, url_can_parse, url_parse) (box_url-ne-null (u.parse s))
  ]

  is_ok-join_fixed :
      (base : u.Url) (s : Bytes) → is_ok u (join_fixed u base s) ≡ is_ok u (u.join base s)
  unfolding join_fixed
  is_ok-join_fixed base s = ground arith

  -- The same for a text and a base.
  pub url_can_parse_with_base_iff :
      (base_raw raw : RawSlice)
      → (url_can_parse_with_base u base_raw raw ≡ true)
        ↔ ((url_parse_with_base u base_raw raw h).0 ≢ null)
  unfolding url_can_parse_with_base url_parse_with_base
  url_can_parse_with_base_iff base_raw raw = elim (Option-cases (str_from base_raw)) [
    | inl bad ↦
        rw (bad, url_can_parse_with_base, url_parse_with_base) (λ e. cc, λ n. absurd (n refl))
    | inr (b, good) ↦ elim (Option-cases (str_from raw)) [
      | inl bad ↦
          rw (good, bad, url_can_parse_with_base, url_parse_with_base)
            (λ e. cc, λ n. absurd (n refl))
      | inr (s, good') ↦ elim (Parsed-cases (u.parse b)) [
        | inl (base, parsed) ↦
            rw (good, good', parsed, url_can_parse_with_base, url_parse_with_base)
              (rw is_ok-join_fixed at (box_url-ne-null (join_fixed u base s)))
        | inr (e, failed) ↦
            rw (good, good', failed, url_can_parse_with_base, url_parse_with_base)
              (λ e. cc, λ n. absurd (n refl))
      ]
    ]
  ]

  -- A parse that does not return null has made the object.
  made :
      (raw : RawSlice)
      → (url_parse u raw h).0 ≢ null
      → (s : Bytes) × (url : u.Url) × (str_from raw ≡ some s)
        × (u.parse s ≡ ok url)
        × (url_parse u raw h ≡ ((into_raw url h).0, none, (into_raw url h).1))
  unfolding url_parse box_url
  made raw n = elim (Option-cases (str_from raw)) [
    | inl bad ↦ absurd (n (rw (bad, url_parse)))
    | inr (s, good) ↦ elim (Parsed-cases (u.parse s)) [
      | inl (url, parsed) ↦ (s, url, good, parsed, rw (good, parsed, url_parse, box_url))
      | inr (e, failed) ↦ absurd (n (rw (good, failed, url_parse, box_url)))
    ]
  ]

  -- A handle from `url_parse` that is not null can be freed, and the heap is then as before but
  -- for the address that is used up.
  pub url_free-url_parse :
      (raw : RawSlice)
      → (url_parse u raw h).0 ≢ null
      → url_free u (url_parse u raw h).0 (url_parse u raw h).2
        ≡ some (record h { next = h.next + 1 })
  unfolding url_free
  url_free-url_parse raw n =
      let (s, url, good, parsed, e) = made raw n in
      let live : ((into_raw url h).0 == null) ≡ false = ground (arith, into_raw-ne-null h url i) in
      rw (e, live, url_free) (drop_raw-into_raw h url i)

  -- A join with a handle that `url_parse` made is a parse with that base.
  pub url_join-url_parse :
      (base_raw raw : RawSlice)
      → (url_parse u base_raw h).0 ≢ null
      → url_join u (url_parse u base_raw h).0 raw (url_parse u base_raw h).2
        ≡ some (url_parse_with_base u base_raw raw (url_parse u base_raw h).2)
  unfolding url_join url_parse_with_base
  url_join-url_parse base_raw raw n =
      let (b, base, good, parsed, e) = made base_raw n in
      rw e (elim (Option-cases (str_from raw)) [
        | inl bad ↦ rw (cell-into_raw h base, good, bad, url_join, url_parse_with_base)
        | inr (s, good') ↦
            rw (cell-into_raw h base, good, good', parsed, url_join, url_parse_with_base)
      ])
