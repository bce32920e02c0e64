-- ===== src/Markup.antt =====
-- The data that the tokenizers and tree builders of `html5ever` and `xml5ever` hand to the code of
-- src/rust/html5ever: names and attributes. An interned name (`LocalName`, `Namespace`, `Prefix`)
-- is the text that it stands for, and two of them are equal if their texts are.
pub mod Case
use lightpanda_browser.Prelude.{
  ℕ, ◌+◌, Bool, true, false, ◌&&◌, List, [], ◌∷◌, Option, none, some, Bytes, eq_bytes, ◌==◌,
  if◌then◌else◌,
}
use lightpanda_browser.Prelude.Utf8.{within}

-- `html5ever::QualName`.
pub record QualName : Type 0 where
  pub prefix : Option Bytes
  pub ns : Bytes
  pub local : Bytes

-- `html5ever::Attribute`.
pub record Attribute : Type 0 where
  pub name : QualName
  pub value : Bytes

-- `u8::to_ascii_lowercase`.
unfoldable pub to_ascii_lowercase : ℕ → ℕ
to_ascii_lowercase c = if within b'A' b'Z' c then c + 32 else c

-- `str::eq_ignore_ascii_case`.
unfoldable pub eq_ignore_ascii_case : Bytes → Bytes → Bool
unfolding to_ascii_lowercase
eq_ignore_ascii_case [] [] = true
eq_ignore_ascii_case (x ∷ xs) (y ∷ ys) =
    to_ascii_lowercase x == to_ascii_lowercase y && eq_ignore_ascii_case xs ys
eq_ignore_ascii_case _ _ = false

-- The first attribute that a test accepts (`Iterator::find`).
unfoldable pub find_attribute : (Attribute → Bool) → List Attribute → Option Attribute
find_attribute test [] = none
find_attribute test (a ∷ attrs) = if test a then some a else find_attribute test attrs
