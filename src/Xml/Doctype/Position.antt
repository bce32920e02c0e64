-- ===== src/Xml/Doctype/Position.antt =====
-- The place of the first `<!DOCTYPE` (src/rust/html5ever/lib.rs).
use lightpanda_browser.Prelude.{
  ℕ, ◌+◌, true, [], ◌∷◌, ◌++◌, some, Bytes, ◌≡◌, sym, ap, ◌∙◌, arith, take, drop, length,
  Option-cases, Bool-cases, take-append-drop, drop_all, length-append, append_assoc, inl, inr,
  eq_bytes, eq_bytes_iff,
}
use lightpanda_browser.Xml.Doctype.{position}

-- The needle stands in the text behind `before`.
pub record StandsAt (needle text : Bytes) (i : ℕ) : Type 0 where
  pub before : Bytes
  pub after : Bytes
  pub splits : text ≡ before ++ (needle ++ after)
  pub index : i ≡ length before

start_of_eq :
    (needle text : Bytes)
    → eq_bytes (take (length needle) text) needle ≡ true
    → text ≡ needle ++ drop (length needle) text
start_of_eq needle text h =
    let same = (eq_bytes_iff (take (length needle) text) needle).0 h in
    sym (take-append-drop (length needle) text) ∙ ap (λ t. t ++ drop (length needle) text) same

pub position-StandsAt :
    (needle text : Bytes) {i : ℕ} → position needle text ≡ some i → StandsAt needle text i
unfolding position
position-StandsAt needle [] e = absurd (cc)
position-StandsAt needle (c ∷ cs) {i} e =
    elim (Bool-cases (eq_bytes (take (length needle) (c ∷ cs)) needle)) [
      | inl here ↦ record {
        before = [];
        after = drop (length needle) (c ∷ cs);
        splits = start_of_eq needle (c ∷ cs) here;
        index = ground arith;
      }
      | inr later ↦ elim (Option-cases (position needle cs)) [
        | inl n ↦ absurd (ground arith)
        | inr (k, found) ↦
            let s = position-StandsAt needle cs found in
            record {
              before = c ∷ s.before;
              after = s.after;
              splits = ap (◌∷◌ c) s.splits;
              index = ground (arith, s.index);
            }
      ]
    ]

module _ {needle text : Bytes} {i : ℕ} (s : StandsAt needle text i) where
  pub StandsAt-behind : text ≡ (s.before ++ needle) ++ s.after
  StandsAt-behind = s.splits ∙ sym (append_assoc s.before needle s.after)

  pub StandsAt-length : i + length needle ≡ length (s.before ++ needle)
  StandsAt-length = omega (arith, s.index, length-append s.before needle)

  pub StandsAt-drop : drop (i + length needle) text ≡ s.after
  StandsAt-drop = rw (StandsAt-length, StandsAt-behind) (drop_all (s.before ++ needle) s.after)
