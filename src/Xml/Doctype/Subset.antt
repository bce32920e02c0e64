-- ===== src/Xml/Doctype/Subset.antt =====
-- A document type with an internal subset, one without, and a text with none
-- (src/rust/html5ever/lib.rs).
use lightpanda_browser.Prelude.{
  ℕ, ◌+◌, Bool, true, false, ◌||◌, [], ◌∷◌, ◌++◌, Option, none, some, Bytes, codes, ◌≡◌, refl, ap,
  ◌∙◌, arith, take, drop, length, length-append, take_all, drop_all, append_assoc, All, ◌==◌,
}
use lightpanda_browser.Xml.Doctype.{
  position, done, go, plain_round, round, scan, strip_doctype_internal_subset,
}

abbrev pub is_quote : ℕ → Bool
is_quote c = c == b'"' || c == b'\''

-- Bytes whose quotes are closed, with no byte outside them that stops the loop.
pub data Quoted (stops : ℕ → Bool) : Bytes → Type 0 where
  nil : Quoted stops []
  byte :
      (c : ℕ) {cs : Bytes}
      → is_quote c ≡ false
      → stops c ≡ false
      → Quoted stops cs
      → Quoted stops (c ∷ cs)
  quoted :
      (q : ℕ) (body : Bytes) {cs : Bytes}
      → is_quote q ≡ true
      → All (λ c. (c == q) ≡ false) body
      → Quoted stops cs
      → Quoted stops (q ∷ (body ++ (q ∷ cs)))

-- What may stand between `<!DOCTYPE` and the `[`, and between the brackets.
abbrev pub IsHead : Bytes → Type 0
IsHead = Quoted (λ c. c == b'>' || c == b'[')

abbrev pub IsSubset : Bytes → Type 0
IsSubset = Quoted (λ c. c == b']')

module _ (text : Bytes) where
  scan-step :
      (i : ℕ) (quote bracket : Option ℕ) {q o : Option ℕ} (c : ℕ) (cs : Bytes)
      → round text i quote bracket c ≡ go q o
      → scan text i quote bracket (c ∷ cs) ≡ scan text (i + 1) q o cs
  unfolding scan
  scan-step i quote bracket c cs e = rw (e, scan)

  scan-done :
      (i : ℕ) (quote bracket : Option ℕ) {out : Bytes} (c : ℕ) (cs : Bytes)
      → round text i quote bracket c ≡ done out
      → scan text i quote bracket (c ∷ cs) ≡ out
  unfolding scan
  scan-done i quote bracket c cs e = rw (e, scan)

  move :
      {i j : ℕ} (quote bracket : Option ℕ) (rest : Bytes)
      → i ≡ j
      → scan text i quote bracket rest ≡ scan text j quote bracket rest
  move quote bracket rest e = rw e

  scan-quoted :
      (i q : ℕ) (bracket : Option ℕ) (body rest : Bytes)
      → All (λ c. (c == q) ≡ false) body
      → scan text i (some q) bracket (body ++ (q ∷ rest))
        ≡ scan text (i + length body + 1) none bracket rest
  unfolding round
  scan-quoted i q bracket [] rest h =
      scan-step i (some q) bracket q rest (ground arith) ∙ move none bracket rest (omega arith)
  scan-quoted i q bracket (c ∷ cs) rest h =
      scan-step i (some q) bracket c (cs ++ (q ∷ rest)) (rw h.0)
      ∙ scan-quoted (i + 1) q bracket cs rest h.1
      ∙ move none bracket rest (omega arith)

  scan-Quoted :
      (stops : ℕ → Bool) (i : ℕ) (bracket : Option ℕ) {h : Bytes} (rest : Bytes)
      → ((j c : ℕ)
          → is_quote c ≡ false
          → stops c ≡ false
          → plain_round text j bracket c ≡ go none bracket)
      → Quoted stops h
      → scan text i none bracket (h ++ rest) ≡ scan text (i + length h) none bracket rest
  unfolding round plain_round
  scan-Quoted stops i bracket rest keep nil = move none bracket rest (omega arith)
  scan-Quoted stops i bracket rest keep (byte c {cs} q s t) =
      scan-step i none bracket c (cs ++ rest) (keep i c q s)
      ∙ scan-Quoted stops (i + 1) bracket rest keep t
      ∙ move none bracket rest (omega arith)
  scan-Quoted stops i bracket rest keep (quoted q body {cs} h a t) =
      ap (scan text i none bracket) (ap (◌∷◌ q) (append_assoc body (q ∷ cs) rest))
      ∙ scan-step i none bracket q (body ++ (q ∷ (cs ++ rest))) (ground arith)
      ∙ scan-quoted (i + 1) q bracket body (cs ++ rest) a
      ∙ scan-Quoted stops (i + 1 + length body + 1) bracket rest keep t
      ∙ move none bracket rest (omega (arith, length-append body (q ∷ cs)))

  head_keeps :
      (j c : ℕ)
      → is_quote c ≡ false
      → (c == b'>' || c == b'[') ≡ false
      → plain_round text j none c ≡ go none none
  unfolding plain_round
  head_keeps j c q s = ground arith

  subset_keeps :
      (o j c : ℕ)
      → is_quote c ≡ false
      → (c == b']') ≡ false
      → plain_round text j (some o) c ≡ go none (some o)
  unfolding plain_round
  subset_keeps o j c q s = ground arith

  scan-subset :
      (i : ℕ) {head subset : Bytes} (post : Bytes)
      → IsHead head
      → IsSubset subset
      → scan text i none none (head ++ (b'[' ∷ (subset ++ (b']' ∷ post))))
        ≡ take (i + length head) text ++ drop (i + length head + 1 + length subset + 1) text
  unfolding round plain_round
  scan-subset i {head} {subset} post h t =
      scan-Quoted _ i none (b'[' ∷ (subset ++ (b']' ∷ post))) head_keeps h
      ∙ scan-step (i + length head) none none b'[' (subset ++ (b']' ∷ post)) refl
      ∙ scan-Quoted _ (i + length head + 1) (some (i + length head)) (b']' ∷ post)
          (subset_keeps (i + length head)) t
      ∙ scan-done _ none (some (i + length head)) b']' post refl

  scan-no_subset :
      (i : ℕ) {head : Bytes} (post : Bytes)
      → IsHead head
      → scan text i none none (head ++ (b'>' ∷ post)) ≡ text
  unfolding round plain_round
  scan-no_subset i {head} post h =
      scan-Quoted _ i none (b'>' ∷ post) head_keeps h
      ∙ scan-done (i + length head) none none b'>' post refl

-- A text with no `<!DOCTYPE` is returned as it is.
pub strip_without_doctype :
    (text : Bytes)
    → position (codes "<!DOCTYPE") text ≡ none
    → strip_doctype_internal_subset text ≡ text
unfolding strip_doctype_internal_subset
strip_without_doctype text e = rw (e, strip_doctype_internal_subset)

-- Behind the first `<!DOCTYPE` the loop starts.
strip-scan :
    (text : Bytes) (i : ℕ)
    → position (codes "<!DOCTYPE") text ≡ some i
    → strip_doctype_internal_subset text ≡ scan text (i + 9) none none (drop (i + 9) text)
unfolding strip_doctype_internal_subset
strip-scan text i e = rw (e, strip_doctype_internal_subset)

cut_parts :
    (o h subset after : Bytes)
    → let text = o ++ (h ++ (b'[' ∷ (subset ++ (b']' ∷ after)))) in
      take (length o + length h) text ++ drop (length o + length h + 1 + length subset + 1) text
      ≡ o ++ (h ++ after)
cut_parts o h subset after =
    let closed = b'[' ∷ (subset ++ (b']' ∷ [])) in
    let rest = b'[' ∷ (subset ++ (b']' ∷ after)) in
    let size : length o + length h ≡ length (o ++ h) = omega (arith, length-append o h) in
    let whole : o ++ (h ++ rest) ≡ ((o ++ h) ++ closed) ++ after = simp append_assoc in
    let size' : length o + length h + 1 + length subset + 1 ≡ length ((o ++ h) ++ closed) =
      omega (
        arith,
        length-append o h,
        length-append (o ++ h) closed,
        length-append subset (b']' ∷ []),
      ) in
    let left : take (length o + length h) (o ++ (h ++ rest)) ≡ o ++ h =
      rw (size, ← append_assoc o h rest) (take_all (o ++ h) rest) in
    let right : drop (length o + length h + 1 + length subset + 1) (o ++ (h ++ rest)) ≡ after =
      rw (size', whole) (drop_all ((o ++ h) ++ closed) after) in
    rw (left, right) (append_assoc o h after)

module _ (before head : Bytes) where
  abbrev opening : Bytes
  opening = before ++ codes "<!DOCTYPE"

  -- A text whose first document type has no internal subset is returned as it is, whatever its
  -- quoted parts hold.
  pub strip_without_subset :
      (after : Bytes)
      → IsHead head
      → position (codes "<!DOCTYPE") (opening ++ (head ++ (b'>' ∷ after))) ≡ some (length before)
      → strip_doctype_internal_subset (opening ++ (head ++ (b'>' ∷ after)))
        ≡ opening ++ (head ++ (b'>' ∷ after))
  strip_without_subset after h e =
      let text = opening ++ (head ++ (b'>' ∷ after)) in
      let at : length before + 9 ≡ length opening =
        omega (arith, length-append before (codes "<!DOCTYPE")) in
      strip-scan text (length before) e
      ∙ rw (at, drop_all opening (head ++ (b'>' ∷ after)))
          (scan-no_subset text (length opening) after h)

  -- If the first document type of a text has an internal subset, with the quotes before it and
  -- inside it in pairs and no `]` inside it but in quotes, exactly the subset and its brackets are
  -- cut, whatever stands behind. An apostrophe counts as a quote in a comment too.
  pub strip_subset :
      (subset after : Bytes)
      → IsHead head
      → IsSubset subset
      → position (codes "<!DOCTYPE") (opening ++ (head ++ (b'[' ∷ (subset ++ (b']' ∷ after)))))
        ≡ some (length before)
      → strip_doctype_internal_subset (opening ++ (head ++ (b'[' ∷ (subset ++ (b']' ∷ after)))))
        ≡ opening ++ (head ++ after)
  strip_subset subset after h t e =
      let rest = b'[' ∷ (subset ++ (b']' ∷ after)) in
      let text = opening ++ (head ++ rest) in
      let at : length before + 9 ≡ length opening =
        omega (arith, length-append before (codes "<!DOCTYPE")) in
      let run : scan text (length before + 9) none none (drop (length before + 9) text)
          ≡ take (length opening + length head) text
            ++ drop (length opening + length head + 1 + length subset + 1) text =
        rw (at, drop_all opening (head ++ rest)) (scan-subset text (length opening) after h t) in
      strip-scan text (length before) e ∙ run ∙ cut_parts opening head subset after
