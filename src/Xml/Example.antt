-- ===== src/Xml/Example.antt =====
-- A document type's name and an internal subset, for the tests.
use lightpanda_browser.Prelude.{codes, refl}
use lightpanda_browser.Xml.Doctype.Subset.{Quoted, IsHead, IsSubset}

pub IsHead-x : IsHead (codes " x ")
IsHead-x =
    Quoted.byte 32 refl refl (Quoted.byte b'x' refl refl (Quoted.byte 32 refl refl Quoted.nil))

-- A `]` in quotes does not end the subset.
pub quoted_bracket : IsSubset (codes "a\"]\"")
quoted_bracket =
    Quoted.byte b'a' refl refl (Quoted.quoted b'"' (codes "]") refl (refl, tt) Quoted.nil)
