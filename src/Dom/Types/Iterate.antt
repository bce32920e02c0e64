-- ===== src/Dom/Types/Iterate.antt =====
-- What the Zig side reads back through the C types of src/rust/html5ever/types.rs.
use lightpanda_browser.Prelude.{
  take-length, ℕ, zero, suc, false, ◌+◌, [], ◌∷◌, ◌++◌, List, Option, none, some, Bytes, ◌==◌,
  if◌then◌else◌, length, length-append, ◌≡◌, refl, sym, ap, arith, append_assoc, append-nil,
}
use lightpanda_browser.Ffi.{slice_of, read}
use lightpanda_browser.Markup.{QualName, Attribute}
use lightpanda_browser.Prelude.Slices.{get_elem?}
use lightpanda_browser.Dom.Types.{
  CQualName, nullable_slice, create_name, CAttribute, CAttributeIterator, attribute_iterator_next,
  attribute_iterator_count,
}

-- How a C name is read.
unfoldable pub read_name : CQualName → QualName
unfolding read
read_name c = record {
  prefix = if c.prefix.tag == 0 then none else some (read c.prefix.value);
  ns = read c.ns;
  local = read c.local;
}

unfoldable pub read_attribute : CAttribute → Attribute
unfolding read_name
read_attribute c = record { name = read_name c.name; value = read c.value }

read_slice_of : (s : Bytes) → read (slice_of s) ≡ s
unfolding read
read_slice_of s = take-length s

-- A name that goes through its C form comes back whole; no prefix and an empty one stay apart.
pub read_name-create_name : (q : QualName) → read_name (create_name q) ≡ q
unfolding read_name create_name nullable_slice
read_name-create_name q = from q.prefix q.ns q.local
  where
    from :
        (p : Option Bytes) (n l : Bytes)
        → read_name (create_name (record { prefix = p; ns = n; local = l }))
          ≡ record { prefix = p; ns = n; local = l }
    from none n l = simp read_slice_of
    from (some p) n l = simp read_slice_of

-- The calls that the Zig side makes: at most `n`, up to the first `None`; `none` is a panic.
unfoldable pub drain : ℕ → CAttributeIterator → Option (List Attribute × CAttributeIterator)
unfolding read_attribute
drain zero iter = some ([], iter)
drain (suc n) iter = elim (attribute_iterator_next iter) [
  | none ↦ none
  | some (c, iter') ↦
      let rest = drain n iter' in
      if c.tag == 0 then some ([], iter') else elim rest [
        | none ↦ none
        | some (attrs, last) ↦ some (read_attribute c.value ∷ attrs, last)
      ]
]

get_elem?-append :
    {A : Type 0} (xs : List A) (a : A) (ys : List A)
    → get_elem? (xs ++ (a ∷ ys)) (length xs) ≡ some a
unfolding get_elem?
get_elem?-append [] a ys = refl
get_elem?-append (x ∷ xs) a ys = get_elem?-append xs a ys

abbrev at : List Attribute → ℕ → CAttributeIterator
at vec pos = record { vec = vec; pos = pos }

next_end :
    (vec : List Attribute) (n : ℕ)
    → drain (suc n) (at vec (length vec)) ≡ some ([], at vec (length vec))
unfolding drain attribute_iterator_next
next_end vec n = ground arith

read_attribute_lem :
    (a : Attribute)
    → read_attribute (record { name = create_name a.name; value = slice_of a.value }) ≡ a
unfolding read_attribute
read_attribute_lem a = rw (read_name-create_name a.name, read_slice_of a.value, read_attribute)

middle :
    (before : List Attribute) (a : Attribute) (attrs : List Attribute)
    → (length before == length (before ++ (a ∷ attrs))) ≡ false
middle before a attrs = ground (arith, length-append before (a ∷ attrs))

drain_step :
    (vec : List Attribute) (pos n : ℕ) (a : Attribute) {attrs : List Attribute}
    {last : CAttributeIterator}
    → (pos == length vec) ≡ false
    → get_elem? vec pos ≡ some a
    → drain n (at vec (pos + 1)) ≡ some (attrs, last)
    → drain (suc n) (at vec pos) ≡ some (a ∷ attrs, last)
unfolding drain attribute_iterator_next
drain_step vec pos n a {attrs} {last} m g rest =
    rw (m, g, rest, drain, attribute_iterator_next)
      (ap (λ b. some (b ∷ attrs, last)) (read_attribute_lem a))

drain-from :
    (before attrs : List Attribute)
    → drain (length attrs + 1) (at (before ++ attrs) (length before))
      ≡ some (attrs, at (before ++ attrs) (length (before ++ attrs)))
drain-from before [] = rw append-nil (next_end before 0)
drain-from before (a ∷ attrs) =
    let whole : before ++ (a ∷ attrs) ≡ (before ++ a ∷ []) ++ attrs =
      sym (append_assoc before (a ∷ []) attrs) in
    let here : length before + 1 ≡ length (before ++ a ∷ []) =
      omega (arith, length-append before (a ∷ [])) in
    let more : suc (length attrs) + 1 ≡ suc (length attrs + 1) = omega arith in
    let rest : drain (length attrs + 1) (at (before ++ (a ∷ attrs)) (length before + 1))
        ≡ some (attrs, at (before ++ (a ∷ attrs)) (length (before ++ (a ∷ attrs)))) =
      rw (here, whole) (drain-from (before ++ a ∷ []) attrs) in
    rw more (
      drain_step (before ++ (a ∷ attrs)) (length before) (length attrs + 1) a
        (middle before a attrs) (get_elem?-append before a attrs) rest)

-- From the start, `count` calls of `next` and one more give the attributes in their order, whole,
-- and then `None`, with no panic.
pub drain_all :
    (attrs : List Attribute)
    → drain (attribute_iterator_count (at attrs 0) + 1) (at attrs 0)
      ≡ some (attrs, at attrs (length attrs))
unfolding attribute_iterator_count
drain_all attrs = drain-from [] attrs

-- At the end `next` gives `None` again and again, and stays there.
pub next_stays :
    (attrs : List Attribute) (n : ℕ)
    → drain n (at attrs (length attrs)) ≡ some ([], at attrs (length attrs))
unfolding drain
next_stays attrs zero = refl
next_stays attrs (suc n) = next_end attrs n
