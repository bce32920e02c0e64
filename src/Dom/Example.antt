-- ===== src/Dom/Example.antt =====
-- A document that is the list of its elements' data pointers, for the tests.
use lightpanda_browser.Prelude.{ℕ, List, [], ◌∷◌, ◌++◌, Option, none, some, length, ◌≡◌, ap}
use lightpanda_browser.Prelude.Slices.{get_elem?}
use lightpanda_browser.Dom.Sink.{Call, get_data, create_element, create_context_element, Zig}
use lightpanda_browser.Dom.Sink.Names.{KeepsData, get_elem?-snoc, get_elem?_last}

abbrev pub or_zero : Option ℕ → ℕ
or_zero none = 0
or_zero (some p) = p

-- A document that is the list of its elements' data pointers, at the places that are their nodes.
abbrev pub listing : Zig (List ℕ)
listing d (create_element p n a) = (d ++ p ∷ [], length d)
listing d (create_context_element p n a) = (d ++ p ∷ [], length d)
listing d (get_data r) = (d, or_zero (get_elem? d r))
listing d _ = (d, 0)

listing-kept :
    (d : List ℕ) (c : Call) (r p : ℕ)
    → get_elem? d r ≡ some p
    → get_elem? (listing d c).0 r ≡ some p
listing-kept d (create_element q n a) r p e = get_elem?-snoc d q r e
listing-kept d (create_context_element q n a) r p e = get_elem?-snoc d q r e
listing-kept d _ r p e = e

pub listing-KeepsData : KeepsData listing get_elem?
listing-KeepsData = record {
  answers = λ d r p e. ap or_zero e;
  created = λ d p n a. get_elem?_last d p;
  created_context = λ d p n a. get_elem?_last d p;
  kept = listing-kept;
}
