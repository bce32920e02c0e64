-- ===== src/Url/Handles/Tests.antt =====
-- Handles, buffers and resolved references at concrete inputs.
use lightpanda_browser.Prelude.{
  inr, zero, suc, true, [], ◌∷◌, none, some, codes, ◌≡◌, ◌≢◌, ◌↔◌, refl, arith, eq_bytes,
}
use lightpanda_browser.Prelude.Search.{find}
use lightpanda_browser.Ffi.{RawSlice, slice_of, str_from, pos}
use lightpanda_browser.Heap.{Heap, null, update, deref_mut}
use lightpanda_browser.Heap.Laws.{IsHeap}
use lightpanda_browser.Encoding.Example.{copying}
use lightpanda_browser.Url.Example.{SmallUrl, http_url, small}
use lightpanda_browser.Url.Hostname.{is_special}
use lightpanda_browser.Url.Host.{
  set_host_only, set_host_text, colon_index, host_input, set_host_str, url_set_host,
}
use lightpanda_browser.Url.Host.Laws.{SetHostIsAtomic}
use lightpanda_browser.Url.Handles.{
  url_parse, url_parse_with_base, url_join, url_can_parse, url_can_parse_with_base, url_free,
  set_host_at,
}
use lightpanda_browser.Url.Handles.Parsing.{
  url_can_parse_iff, url_can_parse_with_base_iff, url_free-url_parse, url_join-url_parse,
}
use lightpanda_browser.Url.Handles.Setters.{set_host_at-atomic, set_host_at_frame}
use lightpanda_browser.Url.Buffers.{Boxes, Ascii, own, free_owned_string, lpurl_domain_to_ascii}
use lightpanda_browser.Url.Buffers.Laws.{
  SameCells, free_owned_string-own, Converts, lpurl_domain_to_ascii-Converts,
}
use lightpanda_browser.Url.Resolve.{url_resolve_with_encoding, url_resolve_without_encoding}
use lightpanda_browser.Url.Resolve.Agreement.{url_resolve_utf8, Answers, url_resolve-Answers}

abbrev no_urls : Heap SmallUrl
no_urls = record { next = 1; cell = λ p. none }

no_urls-IsHeap : IsHeap no_urls
no_urls-IsHeap = record { positive = omega arith; null_dead = refl; fresh_dead = λ p le. refl }

abbrev raw_x : RawSlice
raw_x = slice_of (codes "/x")

parse_live : (url_parse small raw_x no_urls).0 ≢ null
unfolding url_can_parse str_from
parse_live = (url_can_parse_iff small no_urls no_urls-IsHeap raw_x).0 refl

url_can_parse_iff_test :
    (url_can_parse small raw_x ≡ true) ↔ ((url_parse small raw_x no_urls).0 ≢ null)
url_can_parse_iff_test = url_can_parse_iff small no_urls no_urls-IsHeap raw_x

url_can_parse_with_base_iff_test :
    (url_can_parse_with_base small raw_x raw_x ≡ true)
    ↔ ((url_parse_with_base small raw_x raw_x no_urls).0 ≢ null)
url_can_parse_with_base_iff_test =
    url_can_parse_with_base_iff small no_urls no_urls-IsHeap raw_x raw_x

url_free-url_parse_test :
    url_free small (url_parse small raw_x no_urls).0 (url_parse small raw_x no_urls).2
    ≡ some (record no_urls { next = 2 })
url_free-url_parse_test = url_free-url_parse small no_urls no_urls-IsHeap raw_x parse_live

url_join-url_parse_example :
    url_join small (url_parse small raw_x no_urls).0 raw_x (url_parse small raw_x no_urls).2
    ≡ some (url_parse_with_base small raw_x raw_x (url_parse small raw_x no_urls).2)
url_join-url_parse_example = url_join-url_parse small no_urls no_urls-IsHeap raw_x raw_x parse_live

abbrev one_url : Heap SmallUrl
one_url = record {
  next = 2;
  cell = λ p. elim p [ suc zero ↦ some (http_url (codes "/x")) | _ ↦ none ];
}

small-SetHostIsAtomic : SetHostIsAtomic small
small-SetHostIsAtomic url none e = refl
small-SetHostIsAtomic url (some []) e = refl
small-SetHostIsAtomic url (some (c ∷ cs)) e = cc

-- An empty host is refused.
set_host_at-atomic_test :
    record one_url { cell = update one_url.cell 1 (some (http_url (codes "/x"))) } ≡ one_url
unfolding set_host_at deref_mut url_set_host set_host_str str_from set_host_text colon_index
    host_input find is_special eq_bytes set_host_only
set_host_at-atomic_test =
    set_host_at-atomic small one_url 1 (slice_of []) small-SetHostIsAtomic refl

abbrev with_host : Heap SmallUrl
with_host = record one_url {
  cell = update one_url.cell 1 (some (record (http_url (codes "/x")) { host = codes "b" }));
}

set_host_at_frame_test : with_host.cell 2 ≡ one_url.cell 2
unfolding set_host_at deref_mut url_set_host set_host_str str_from set_host_text colon_index
    host_input find is_special eq_bytes set_host_only
set_host_at_frame_test =
    set_host_at_frame small one_url 1 (slice_of (codes "b")) {code = pos 0} {g = with_host} refl 2
      (λ e. omega (arith, e))

abbrev no_boxes : Boxes
no_boxes = record { next = 1; cell = λ p. none }

no_boxes-IsHeap : IsHeap no_boxes
no_boxes-IsHeap = record { positive = omega arith; null_dead = refl; fresh_dead = λ p le. refl }

free_owned_string-own_example :
    (g : Boxes) × (free_owned_string (own (codes "ab") no_boxes).0 (own (codes "ab") no_boxes).1
      ≡ some g)
    × SameCells g no_boxes
free_owned_string-own_example = free_owned_string-own no_boxes no_boxes-IsHeap (codes "ab")

lpurl_domain_to_ascii-Converts_example :
    Converts no_boxes no_boxes-IsHeap
      (Ascii.ok (codes "b.c"))
      (lpurl_domain_to_ascii (λ s. Ascii.ok s) (slice_of (codes "b.c")) no_boxes)
unfolding str_from
lpurl_domain_to_ascii-Converts_example =
    lpurl_domain_to_ascii-Converts no_boxes no_boxes-IsHeap (λ s. Ascii.ok s)
      (slice_of (codes "b.c")) (codes "b.c") refl

url_resolve_utf8_example :
    url_resolve_with_encoding small copying raw_x raw_x (slice_of (codes "utf-8")) no_boxes
    ≡ some (url_resolve_without_encoding small raw_x raw_x no_boxes)
unfolding str_from
url_resolve_utf8_example =
    url_resolve_utf8 small copying raw_x raw_x (slice_of (codes "utf-8")) (codes "utf-8") no_boxes
      refl (inr (tt, refl, refl))

url_resolve-Answers_example :
    Answers small no_boxes no_boxes-IsHeap (url_resolve_without_encoding small raw_x raw_x no_boxes)
url_resolve-Answers_example = url_resolve-Answers small no_boxes no_boxes-IsHeap raw_x raw_x
