-- ===== src/Url/Host/Laws.antt =====
-- How `url_set_host` (src/rust/html5ever/url.rs) reads host and port, and that it is atomic.
use lightpanda_browser.Prelude.{
  take-length, ℕ, ◌+◌, ◌^◌, Bool, true, false, [], ◌∷◌, ◌++◌, Option, some, Bytes, ◌==◌, ltb,
  if◌then◌else◌, is_empty, take, drop, length, length-append, take_all, drop_all, append_assoc, ◌≡◌,
  refl, sym, ap, ◌∙◌, arith, Option-cases, Bool-cases, inl, inr,
}
use lightpanda_browser.Prelude.Search.{find_first, find-none, NoneOf, Lacks}
use lightpanda_browser.Prelude.Decimal.{parse_u16, decimal, parse_u16-decimal, decimal-ne-nil}
use lightpanda_browser.Ffi.{RawSlice, str_from, pos, minus_one}
use lightpanda_browser.Url.Crate.{UrlCrate}
use lightpanda_browser.Url.Hostname.{is_special}
use lightpanda_browser.Url.Host.{
  ends_host, host_input, starts_with_bracket, colon_index, set_host_only, set_host_port,
  set_host_parts, set_host_text, set_host_str, url_set_host,
}

-- What the crate documents of `set_host`: on an error the URL stays as it is.
abbrev pub SetHostIsAtomic : UrlCrate → Type 0
SetHostIsAtomic u =
    (url : u.Url) (host : Option Bytes)
    → (u.set_host url host).1 ≡ false
    → (u.set_host url host).0 ≡ url

pub host_input_all :
    (special : Bool) (s : Bytes) → NoneOf (ends_host special) s → host_input special s ≡ s
unfolding host_input
host_input_all special s h = rw (find-none (ends_host special) s h, host_input) (take-length s)

pub host_input_before :
    (special : Bool) (s : Bytes) (c : ℕ) (rest : Bytes)
    → NoneOf (ends_host special) s
    → ends_host special c ≡ true
    → host_input special (s ++ (c ∷ rest)) ≡ s
unfolding host_input
host_input_before special s c rest h e =
    rw (find_first (ends_host special) s c rest h e, host_input) (take_all s (c ∷ rest))

-- The index of a `:` behind a host that is not in brackets.
colon_index_plain :
    (host rest : Bytes)
    → starts_with_bracket (host ++ (b':' ∷ rest)) ≡ false
    → Lacks b':' host
    → colon_index (host ++ (b':' ∷ rest)) ≡ some (length host)
unfolding colon_index
colon_index_plain host rest nb h =
    rw (nb, colon_index) (find_first (λ c. c == b':') host b':' rest h refl)

drop_behind :
    (host : Bytes) (c : ℕ) (rest : Bytes) → drop (length host + 1) (host ++ (c ∷ rest)) ≡ rest
drop_behind host c rest =
    let size : length host + 1 ≡ length (host ++ c ∷ []) =
      omega (arith, length-append host (c ∷ [])) in
    rw (size, ← append_assoc host (c ∷ []) rest) (drop_all (host ++ c ∷ []) rest)

module _ (u : UrlCrate) (url : u.Url) where
  -- What stands behind the host part is ignored.
  pub set_host_ignores_rest :
      (s : Bytes) (c : ℕ) (rest : Bytes)
      → NoneOf (ends_host (is_special (u.scheme url))) s
      → ends_host (is_special (u.scheme url)) c ≡ true
      → set_host_str u url (s ++ (c ∷ rest)) ≡ set_host_str u url s
  unfolding set_host_str
  set_host_ignores_rest s c rest h e =
      let special = is_special (u.scheme url) in
      ap (set_host_text u url)
        (host_input_before special s c rest h e ∙ sym (host_input_all special s h))

  set_host_only-atomic :
      (host : Bytes)
      → SetHostIsAtomic u
      → (set_host_only u url host).1 ≡ minus_one
      → (set_host_only u url host).0 ≡ url
  unfolding set_host_only
  set_host_only-atomic host keeps e = keeps url (some host) (ground arith)

  set_host_port-atomic :
      (host : Bytes) (port : ℕ)
      → SetHostIsAtomic u
      → (set_host_port u url host port).1 ≡ minus_one
      → (set_host_port u url host port).0 ≡ url
  unfolding set_host_port
  set_host_port-atomic host port keeps e = ground (arith, keeps url (some host))

  set_host_parts-atomic :
      (host port_str : Bytes)
      → SetHostIsAtomic u
      → (set_host_parts u url host port_str).1 ≡ minus_one
      → (set_host_parts u url host port_str).0 ≡ url
  unfolding set_host_parts
  set_host_parts-atomic host port_str keeps e = elim (Option-cases (parse_u16 port_str)) [
    | inl bad ↦ ground (arith, set_host_only-atomic host keeps)
    | inr (p, good) ↦
        ground (arith, set_host_only-atomic host keeps, set_host_port-atomic host p keeps)
  ]

  set_host_text-atomic :
      (text : Bytes)
      → SetHostIsAtomic u
      → (set_host_text u url text).1 ≡ minus_one
      → (set_host_text u url text).0 ≡ url
  unfolding set_host_text
  set_host_text-atomic text keeps e = elim (Option-cases (colon_index text)) [
    | inl bad ↦ ground (arith, set_host_only-atomic text keeps)
    | inr (i, good) ↦ ground (arith, set_host_parts-atomic (take i text) (drop (i + 1) text) keeps)
  ]

  -- -1 means that nothing has changed: a call that fails sets neither the host nor the port.
  pub url_set_host-atomic :
      (raw : RawSlice)
      → SetHostIsAtomic u
      → (url_set_host u url raw).1 ≡ minus_one
      → (url_set_host u url raw).0 ≡ url
  unfolding url_set_host set_host_str
  url_set_host-atomic raw keeps e = elim (Option-cases (str_from raw)) [
    | inl bad ↦ ground arith
    | inr (s, good) ↦
        ground (arith, set_host_text-atomic (host_input (is_special (u.scheme url)) s) keeps)
  ]

  module _ (host : Bytes) (rest : Bytes)
      (ends : NoneOf (ends_host (is_special (u.scheme url))) (host ++ (b':' ∷ rest)))
      (plain : starts_with_bracket (host ++ (b':' ∷ rest)) ≡ false) (lacks : Lacks b':' host) where
    set_host_str-parts : set_host_str u url (host ++ (b':' ∷ rest)) ≡ set_host_parts u url host rest
    unfolding set_host_str set_host_text
    set_host_str-parts =
        ap (set_host_text u url)
          (host_input_all (is_special (u.scheme url)) (host ++ (b':' ∷ rest)) ends)
        ∙ rw (
          colon_index_plain host rest plain lacks,
          take_all host (b':' ∷ rest),
          drop_behind host b':' rest,
          set_host_text,
        )

  -- `host:` sets the host alone.
  pub set_host_empty_port :
      (host : Bytes)
      → NoneOf (ends_host (is_special (u.scheme url))) (host ++ (b':' ∷ []))
      → starts_with_bracket (host ++ (b':' ∷ [])) ≡ false
      → Lacks b':' host
      → set_host_str u url (host ++ (b':' ∷ [])) ≡ set_host_only u url host
  unfolding set_host_parts is_empty
  set_host_empty_port host ends plain lacks = set_host_str-parts host [] ends plain lacks

  -- With a host that is not in brackets and a port in decimal, and no character that ends the host
  -- state: if the port fits 16 bits, the crate's `set_host` is called with the host and, if that
  -- succeeds, its `set_port` with the port on the URL that `set_host` leaves, with 0 as the result;
  -- if `set_host` fails, or the port does not fit, the port is not set and -1 is returned, and in
  -- the second case the host is not set either.
  pub set_host_decimal_port :
      (host : Bytes) (port : ℕ)
      → NoneOf (ends_host (is_special (u.scheme url))) (host ++ (b':' ∷ decimal port))
      → starts_with_bracket (host ++ (b':' ∷ decimal port)) ≡ false
      → Lacks b':' host
      → set_host_str u url (host ++ (b':' ∷ decimal port)) ≡ (
          if ltb port (2 ^ 16)
          then if (u.set_host url (some host)).1
            then ((u.set_port (u.set_host url (some host)).0 (some port)).0, pos 0)
            else ((u.set_host url (some host)).0, minus_one)
          else (url, minus_one))
  unfolding set_host_parts set_host_port
  set_host_decimal_port host port ends plain lacks =
      set_host_str-parts host (decimal port) ends plain lacks
      ∙ rw (decimal-ne-nil port, parse_u16-decimal port, set_host_parts)
          (elim (Bool-cases (ltb port (2 ^ 16))) [ inl e ↦ rw e | inr e ↦ rw e ])
