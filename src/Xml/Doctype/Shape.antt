-- ===== src/Xml/Doctype/Shape.antt =====
-- What `strip_doctype_internal_subset` may cut (src/rust/html5ever/lib.rs).
use lightpanda_browser.Prelude.{
  ℕ, ◌+◌, [], ◌∷◌, ◌++◌, Option, none, some, Bytes, codes, ◌≡◌, refl, subst, sym, ◌∙◌, ◌⊎◌, inl,
  inr, arith, take, drop, length, length-append, take_all, drop_all, Option-cases, Bool-cases,
  append_assoc, ◌==◌, ◌||◌,
}
use lightpanda_browser.Xml.Doctype.Position.{
  position-StandsAt, StandsAt-behind, StandsAt-length, StandsAt-drop,
}
use lightpanda_browser.Xml.Doctype.{
  position, Round, done, go, plain_round, round, scan, strip_doctype_internal_subset,
}

-- `out` is `text` less one range, from a `[` to a `]`.
pub record IsCut (text out : Bytes) : Type 0 where
  pub before : Bytes
  pub inside : Bytes
  pub after : Bytes
  pub splits : text ≡ before ++ (b'[' ∷ (inside ++ (b']' ∷ after)))
  pub cut : out ≡ before ++ after

-- The range that is bracket in the text read so far starts at `[`.
abbrev OpenedAt : Bytes → Option ℕ → Type 0
OpenedAt read none = Unit
OpenedAt read (some o) =
    (before : Bytes) × (inside : Bytes) × (read ≡ before ++ (b'[' ∷ inside)) × (o ≡ length before)

-- Where the loop stands in the text.
record Stands (text : Bytes) (i : ℕ) (bracket : Option ℕ) (rest : Bytes) : Type 0 where
  read : Bytes
  splits : text ≡ read ++ rest
  index : i ≡ length read
  opened : OpenedAt read bracket

OpenedAt-snoc :
    (read : Bytes) (bracket : Option ℕ) (c : ℕ)
    → OpenedAt read bracket
    → OpenedAt (read ++ c ∷ []) bracket
OpenedAt-snoc read none c h = tt
OpenedAt-snoc read (some o) c (before, inside, e, l) =
    (before, inside ++ c ∷ [], rw e (append_assoc before (b'[' ∷ inside) (c ∷ [])), l)

module _ {text : Bytes} {i : ℕ} {bracket : Option ℕ} {c : ℕ} {cs : Bytes}
    (s : Stands text i bracket (c ∷ cs)) where
  -- The next byte is read; the caller says what is bracket then.
  step_with : (o : Option ℕ) → OpenedAt (s.read ++ c ∷ []) o → Stands text (i + 1) o cs
  step_with o h = record {
    read = s.read ++ c ∷ [];
    splits = s.splits ∙ sym (append_assoc s.read (c ∷ []) cs);
    index = omega (arith, s.index, length-append s.read (c ∷ []));
    opened = h;
  }

  stay : Stands text (i + 1) bracket cs
  stay = step_with bracket (OpenedAt-snoc s.read bracket c s.opened)

  start : c ≡ b'[' → Stands text (i + 1) (some i) cs
  start e = step_with (some i) (s.read, [], rw e, s.index)

IsCut-at :
    {text : Bytes} {i o c : ℕ} {cs : Bytes}
    → Stands text i (some o) (c ∷ cs)
    → c ≡ b']'
    → IsCut text (take o text ++ drop (i + 1) text)
IsCut-at {text} {i} {o} {c} {cs} s e =
    let (before, inside, r, l) = s.opened in
    let whole : text ≡ before ++ (b'[' ∷ (inside ++ (b']' ∷ cs))) =
      s.splits ∙ rw (r, e) (append_assoc before (b'[' ∷ inside) (b']' ∷ cs)) in
    let left : take o text ≡ before = rw (l, whole) (take_all before _) in
    let right : drop (i + 1) text ≡ cs =
      let next = stay s in rw (next.index, next.splits) (drop_all next.read cs) in
    record { before = before; inside = inside; after = cs; splits = whole; cut = rw (left, right) }

-- After a round the loop stands one byte further, or has returned the text or a cut of it.
abbrev RoundOk : Bytes → ℕ → Bytes → Round → Type 0
RoundOk text i cs (done out) = (out ≡ text) ⊎ IsCut text out
RoundOk text i cs (go quote bracket) = Stands text (i + 1) bracket cs

plain_round-ok :
    {text : Bytes} {i : ℕ} (bracket : Option ℕ) {c : ℕ} {cs : Bytes}
    → Stands text i bracket (c ∷ cs)
    → RoundOk text i cs (plain_round text i bracket c)
unfolding plain_round
plain_round-ok none {c} s = elim (Bool-cases (c == b'"' || c == b'\'')) [
  | inl q ↦ rw q (stay s)
  | inr q ↦ elim (Bool-cases (c == b'>')) [
    | inl g ↦ rw (q, g) (inl refl)
    | inr g ↦ elim (Bool-cases (c == b'[')) [
      | inl o ↦ rw (q, g, o) (start s (ground arith))
      | inr o ↦ elim (Bool-cases (c == b']')) [
        | inl e ↦ rw (q, g, o, e) (stay s)
        | inr e ↦ rw (q, g, o, e) (stay s)
      ]
    ]
  ]
]
plain_round-ok {text} {i} (some o) {c} {cs} s = elim (Bool-cases (c == b'"' || c == b'\'')) [
  | inl q ↦ rw q (stay s)
  | inr q ↦ elim (Bool-cases (c == b']')) [
    | inl e ↦
        let now : plain_round text i (some o) c ≡ done (take o text ++ drop (i + 1) text) =
          ground arith in
        subst (RoundOk text i cs) (sym now) (inr (IsCut-at s (ground arith)))
    | inr e ↦
        let now : plain_round text i (some o) c ≡ go none (some o) = ground arith in
        subst (RoundOk text i cs) (sym now) (stay s)
  ]
]

round-ok :
    {text : Bytes} {i : ℕ} (quote bracket : Option ℕ) {c : ℕ} {cs : Bytes}
    → Stands text i bracket (c ∷ cs)
    → RoundOk text i cs (round text i quote bracket c)
unfolding round
round-ok none bracket s = plain_round-ok bracket s
round-ok (some q) bracket s = stay s

scan-IsCut :
    {text : Bytes} {i : ℕ} (quote bracket : Option ℕ) (rest : Bytes)
    → Stands text i bracket rest
    → (scan text i quote bracket rest ≡ text) ⊎ IsCut text (scan text i quote bracket rest)
unfolding scan
scan-IsCut quote bracket [] s = inl refl
scan-IsCut {text} {i} quote bracket (c ∷ cs) s =
    after (round text i quote bracket c) (round-ok quote bracket s)
      (λ q o. scan-IsCut {text = text} {i = i + 1} q o cs)
  where
    after :
        (r : Round)
        → RoundOk text i cs r
        → ((q o : Option ℕ)
            → Stands text (i + 1) o cs
            → (scan text (i + 1) q o cs ≡ text) ⊎ IsCut text (scan text (i + 1) q o cs))
        → (elim r [ done out ↦ out | go q o ↦ scan text (i + 1) q o cs ] ≡ text)
          ⊎ IsCut text (elim r [ done out ↦ out | go q o ↦ scan text (i + 1) q o cs ])
    after (done out) k ih = k
    after (go q o) k ih = ih q o k

-- The result is the text itself, or the text less one range that begins at a `[` and ends at a
-- `]`.
pub strip-IsCut :
    (text : Bytes)
    → (strip_doctype_internal_subset text ≡ text) ⊎ IsCut text (strip_doctype_internal_subset text)
unfolding strip_doctype_internal_subset
strip-IsCut text = elim (Option-cases (position (codes "<!DOCTYPE") text)) [
  | inl missing ↦ inl (rw (missing, strip_doctype_internal_subset))
  | inr (i, found) ↦
      let at = position-StandsAt (codes "<!DOCTYPE") text found in
      rw (found, strip_doctype_internal_subset, StandsAt-drop at)
        (scan-IsCut {text = text} {i = i + 9} none none at.after (record {
          read = at.before ++ codes "<!DOCTYPE";
          splits = StandsAt-behind at;
          index = StandsAt-length at;
          opened = tt;
        }))
]
