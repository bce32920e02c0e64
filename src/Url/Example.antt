-- ===== src/Url/Example.antt =====
-- A small `url` crate for the tests: a URL with a scheme, a host, a port and a path, whose text is
-- its path.
use lightpanda_browser.Prelude.{ℕ, Bool, true, false, [], ◌∷◌, Option, none, some, Bytes, codes}
use lightpanda_browser.Url.Crate.{Parsed, ok, err, UrlCrate}

pub record SmallUrl : Type 0 where
  pub scheme : Bytes
  pub host : Bytes
  pub port : Option ℕ
  pub path : Bytes

-- An `http` URL with a path.
abbrev pub http_url : Bytes → SmallUrl
http_url path = record { scheme = codes "http"; host = codes "a"; port = none; path = path }

abbrev pub parse_small : Bytes → Parsed SmallUrl
parse_small [] = err 3
parse_small (c ∷ cs) = ok (http_url (c ∷ cs))

-- An empty host is refused.
abbrev pub set_small_host : SmallUrl → Option Bytes → SmallUrl × Bool
set_small_host url none = (url, false)
set_small_host url (some []) = (url, false)
set_small_host url (some (c ∷ cs)) = (record url { host = c ∷ cs }, true)

abbrev pub small : UrlCrate
small = record {
  Url = SmallUrl;
  empty_host = 0;
  parse = parse_small;
  join = λ base s. parse_small s;
  parse_with = λ base encode s. some (parse_small s);
  as_str = λ url. url.path;
  scheme = λ url. url.scheme;
  username = λ url. [];
  password = λ url. none;
  host_str = λ url. some url.host;
  host_and_port = λ url. url.host;
  port = λ url. url.port;
  path = λ url. url.path;
  query = λ url. none;
  fragment = λ url. none;
  origin = λ url. url.host;
  set_scheme = λ url s. (record url { scheme = s }, true);
  set_username = λ url s. (url, false);
  set_password = λ url s. (url, false);
  set_host = set_small_host;
  set_port = λ url p. (record url { port = p }, true);
  set_path = λ url s. record url { path = s };
  set_query = λ url s. url;
  set_fragment = λ url s. url;
}
