-- ===== src/Xml/Tests.antt =====
-- The cut of an internal subset and the report of open elements, at concrete inputs.
use lightpanda_browser.Prelude.{
  ℕ, suc, inl, eq_bytes, List, [], ◌∷◌, ◌++◌, none, Bytes, codes, ◌≡◌, ◌⊎◌, refl, arith,
}
use lightpanda_browser.Xml.Example.{IsHead-x, quoted_bracket}
use lightpanda_browser.Xml.Doctype.{scan, round, position, strip_doctype_internal_subset}
use lightpanda_browser.Xml.Doctype.Shape.{IsCut, strip-IsCut}
use lightpanda_browser.Xml.Doctype.Subset.{strip_without_subset, strip_subset}
use lightpanda_browser.Xml.Unclosed.{
  TagKind, start_tag, end_tag, Token, tag, end_of_file, process_tokens, forward, unclosed_message,
}
use lightpanda_browser.Xml.Unclosed.Laws.{WellNested, CutOff, closed_lem, cut_off_lem}

strip_subset_example :
    strip_doctype_internal_subset (codes "<?xml?><!DOCTYPE x [a\"]\"]><r/>")
    ≡ codes "<?xml?><!DOCTYPE x ><r/>"
unfolding position eq_bytes
strip_subset_example =
    strip_subset (codes "<?xml?>") (codes " x ") (codes "a\"]\"") (codes "><r/>") IsHead-x
      quoted_bracket refl

strip_without_subset_test :
    strip_doctype_internal_subset (codes "<?xml?><!DOCTYPE x ><r>[]</r>")
    ≡ codes "<?xml?><!DOCTYPE x ><r>[]</r>"
unfolding position eq_bytes
strip_without_subset_test =
    strip_without_subset (codes "<?xml?>") (codes " x ") (codes "<r>[]</r>") IsHead-x refl

strip-IsCut_example :
    (strip_doctype_internal_subset (codes "<!DOCTYPE [a]>") ≡ codes "<!DOCTYPE [a]>")
    ⊎ IsCut (codes "<!DOCTYPE [a]>") (strip_doctype_internal_subset (codes "<!DOCTYPE [a]>"))
strip-IsCut_example = strip-IsCut (codes "<!DOCTYPE [a]>")

abbrev element_tag : TagKind → Token
element_tag kind = tag (record {
  kind = kind;
  name = record { prefix = none; ns = []; local = codes "a" };
  attrs = [];
})

-- A tree builder that counts its tokens and keeps the errors.
abbrev count : ℕ × List Bytes → Token → (ℕ × List Bytes) × Unit {0}
count (n, errors) t = ((suc n, errors), tt)

abbrev note_error : ℕ × List Bytes → Bytes → ℕ × List Bytes
note_error (n, errors) message = (n, message ∷ errors)

closed : WellNested (element_tag start_tag ∷ element_tag end_tag ∷ [])
closed =
    WellNested.element (element_tag start_tag) (element_tag end_tag) {inner = []} refl (inl refl)
      WellNested.nil WellNested.nil

closed_lem_example :
    (process_tokens count note_error
      (record { tb = (0, []); depth = 0 })
      ((element_tag start_tag ∷ element_tag end_tag ∷ []) ++ (end_of_file ∷ []))).tb
    ≡ forward count note_error
        (0, [])
        ((element_tag start_tag ∷ element_tag end_tag ∷ []) ++ (end_of_file ∷ []))
closed_lem_example = closed_lem count note_error (0, []) closed (omega arith)

open_element : CutOff (element_tag start_tag ∷ [])
open_element = CutOff.last (element_tag start_tag) {before = []} WellNested.nil refl WellNested.nil

cut_off_lem_example :
    (process_tokens count note_error
      (record { tb = (0, []); depth = 0 })
      ((element_tag start_tag ∷ []) ++ (end_of_file ∷ []))).tb
    ≡ (count
        (note_error
          (forward count note_error (0, []) (element_tag start_tag ∷ []))
          unclosed_message)
        end_of_file).0
cut_off_lem_example = cut_off_lem count note_error (0, []) open_element (omega arith)

-- An apostrophe in a comment opens a quote, so this subset stays.
comment_keeps_subset :
    strip_doctype_internal_subset (codes "<!DOCTYPE x [<!-- don't -->]><r/>")
    ≡ codes "<!DOCTYPE x [<!-- don't -->]><r/>"
unfolding strip_doctype_internal_subset position eq_bytes scan round
comment_keeps_subset = refl
