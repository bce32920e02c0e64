-- ===== src/Url/Hostname.antt =====
-- `clean_hostname_input` (src/rust/html5ever/url.rs): the part of the input of the `hostname`
-- setter that names a host. The walk is over bytes; every character that it looks for is ASCII.
use lightpanda_browser.Prelude.{
  ℕ, Bool, true, false, not, ◌||◌, ◌&&◌, [], ◌∷◌, ◌++◌, Bytes, codes, eq_bytes, ◌==◌, if◌then◌else◌,
  ◌≡◌, refl, sym, ap, ◌∙◌, arith, append-nil, append_assoc, All, Bool-cases, inl, inr,
}
use lightpanda_browser.Url.Crate.{UrlCrate}

-- `matches!(url.scheme(), …)`.
unfoldable pub is_special : Bytes → Bool
is_special scheme =
    eq_bytes scheme (codes "http")
    || eq_bytes scheme (codes "https")
    || eq_bytes scheme (codes "ws")
    || eq_bytes scheme (codes "wss")
    || eq_bytes scheme (codes "ftp")
    || eq_bytes scheme (codes "file")

-- What the `match` does with one character: `push` goes on with a new `in_brackets`.
pub data Action : Type 0 where
  skip stop : Action
  push : Bool → Action

unfoldable pub action : (special in_brackets : Bool) → ℕ → Action
action special in_brackets c =
    if c == 9 || c == 10 || c == 13
    then skip
    else if c == b'['
    then push true
    else if c == b']'
    then push false
    else if c == b'/' || c == b'?' || c == b'#'
    then stop
    else if c == b'\\' && special
    then stop
    else if c == b':' && not in_brackets
    then stop
    else push in_brackets

unfoldable pub clean_loop : (special in_brackets : Bool) → (out rest : Bytes) → Bytes
clean_loop special in_brackets out [] = out
clean_loop special in_brackets out (c ∷ cs) = elim (action special in_brackets c) [
  | skip ↦ clean_loop special in_brackets out cs
  | stop ↦ out
  | push b ↦ clean_loop special b (out ++ c ∷ []) cs
]

unfoldable pub clean_hostname_input : (u : UrlCrate) → u.Url → Bytes → Bytes
unfolding clean_loop is_special
clean_hostname_input u url raw = clean_loop (is_special (u.scheme url)) false [] raw

-- Does a character end a host, behind an open bracket or not?
abbrev pub ends_hostname : (special bracketed : Bool) → ℕ → Bool
ends_hostname special bracketed c =
    c == b'/' || c == b'?' || c == b'#' || (c == b'\\' && special) || (c == b':' && not bracketed)

-- Is a bracket open behind a character?
abbrev pub bracketed_after : Bool → ℕ → Bool
bracketed_after bracketed c = if c == b'[' then true else if c == b']' then false else bracketed

-- The input up to the first character that ends a host.
unfoldable pub host_part : (special bracketed : Bool) → Bytes → Bytes
host_part special bracketed [] = []
host_part special bracketed (c ∷ cs) =
    let rest = host_part special (bracketed_after bracketed c) cs in
    if ends_hostname special bracketed c then [] else c ∷ rest

abbrev pub is_blank : ℕ → Bool
is_blank c = c == 9 || c == 10 || c == 13

-- Without tabs and line ends.
unfoldable pub without_blanks : Bytes → Bytes
without_blanks [] = []
without_blanks (c ∷ cs) = if is_blank c then without_blanks cs else c ∷ without_blanks cs

-- No byte that ends a path, and no `\` if the scheme is special.
abbrev pub IsHostByte : Bool → ℕ → Type 0
IsHostByte special c =
    ((is_blank c || c == b'/' || c == b'?' || c == b'#') ≡ false)
    × ((c == b'\\' && special) ≡ false)

clean_loop_lem :
    (special b : Bool) (out cs : Bytes)
    → clean_loop special b out cs ≡ out ++ without_blanks (host_part special b cs)
unfolding clean_loop host_part without_blanks action
clean_loop_lem special b out [] = sym (append-nil out)
clean_loop_lem special b out (c ∷ cs) = ground (
  arith,
  clean_loop_lem special b out cs,
  clean_loop_lem special true (out ++ c ∷ []) cs,
  clean_loop_lem special false (out ++ c ∷ []) cs,
  append-nil out,
  append_assoc out (c ∷ []) (without_blanks (host_part special true cs)),
  append_assoc out (c ∷ []) (without_blanks (host_part special false cs)),
)

host_part_bytes :
    (special b : Bool) (cs : Bytes)
    → All (IsHostByte special) (without_blanks (host_part special b cs))
unfolding host_part without_blanks
host_part_bytes special b [] = tt
host_part_bytes special b (c ∷ cs) = elim (Bool-cases (ends_hostname special b c)) [
  | inl ends ↦ rw ends tt
  | inr inside ↦ elim (Bool-cases (is_blank c)) [
    | inl blank ↦ rw (inside, blank) (host_part_bytes special (bracketed_after b c) cs)
    | inr plain ↦
        rw (inside, plain)
          ((ground arith, ground arith), host_part_bytes special (bracketed_after b c) cs)
  ]
]

clean_again :
    (special b : Bool) (cs : Bytes)
    → without_blanks (host_part special b (without_blanks (host_part special b cs)))
      ≡ without_blanks (host_part special b cs)
unfolding host_part without_blanks action
clean_again special b [] = refl
clean_again special b (c ∷ cs) =
    ground
      (arith, clean_again special b cs, clean_again special true cs, clean_again special false cs)

module _ (u : UrlCrate) (url : u.Url) (raw : Bytes) where
  -- The input of the `hostname` setter is read up to the first `/`, `?` or `#`, the first `\` if
  -- the scheme is special, and the first `:` outside brackets; tabs and line ends are left out.
  pub clean_hostname_input_lem :
      clean_hostname_input u url raw
      ≡ without_blanks (host_part (is_special (u.scheme url)) false raw)
  unfolding clean_hostname_input
  clean_hostname_input_lem = clean_loop_lem (is_special (u.scheme url)) false [] raw

  -- No tab, line end, `/`, `?` or `#` is left, nor a `\` if the scheme is special.
  pub clean_hostname_input-IsHostByte :
      All (IsHostByte (is_special (u.scheme url))) (clean_hostname_input u url raw)
  clean_hostname_input-IsHostByte =
      rw clean_hostname_input_lem (host_part_bytes (is_special (u.scheme url)) false raw)

  -- Cleaning a second time changes nothing.
  pub clean_hostname_input_again :
      clean_hostname_input u url (clean_hostname_input u url raw) ≡ clean_hostname_input u url raw
  unfolding clean_hostname_input
  clean_hostname_input_again =
      let special = is_special (u.scheme url) in
      let once = clean_loop_lem special false [] raw in
      clean_loop_lem special false [] (clean_loop special false [] raw)
      ∙ ap (λ t. without_blanks (host_part special false t)) once
      ∙ clean_again special false raw
      ∙ sym once
