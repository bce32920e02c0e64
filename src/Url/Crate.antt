-- ===== src/Url/Crate.antt =====
-- The third-party code behind src/rust/html5ever/url.rs. The
-- `url` crate is a record of the operations that are called.
-- A setter of the crate returns the new URL with the flag that it is `Ok`.
use lightpanda_browser.Prelude.{ℕ, Bool, Option, Bytes}

-- `Result<Url, ParseError>`, the error as its `i32`.
pub data Parsed (A : Type 0) : Type 0 where
  ok : A → Parsed A
  err : ℕ → Parsed A

pub record UrlCrate : Type 1 where
  pub Url : Type 0
  pub empty_host : ℕ
  pub parse : Bytes → Parsed Url
  pub join : Url → Bytes → Parsed Url
  -- `Url::options()` with a base, an encoding override and an input; `none` is a panic.
  pub parse_with : Option Url → (Bytes → Option Bytes) → Bytes → Option (Parsed Url)
  pub as_str : Url → Bytes
  pub scheme : Url → Bytes
  pub username : Url → Bytes
  pub password : Url → Option Bytes
  pub host_str : Url → Option Bytes
  -- `url[Position::BeforeHost..Position::AfterPort]`.
  pub host_and_port : Url → Bytes
  pub port : Url → Option ℕ
  pub path : Url → Bytes
  pub query : Url → Option Bytes
  pub fragment : Url → Option Bytes
  -- `origin().ascii_serialization()`.
  pub origin : Url → Bytes
  pub set_scheme : Url → Bytes → Url × Bool
  pub set_username : Url → Bytes → Url × Bool
  pub set_password : Url → Option Bytes → Url × Bool
  pub set_host : Url → Option Bytes → Url × Bool
  pub set_port : Url → Option ℕ → Url × Bool
  pub set_path : Url → Bytes → Url
  pub set_query : Url → Option Bytes → Url
  pub set_fragment : Url → Option Bytes → Url
